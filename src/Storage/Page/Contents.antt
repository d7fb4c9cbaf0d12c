-- ===== src/Storage/Page/Contents.antt =====
-- The reads of src/engine/storage/Page.js on a page that holds given records.
use collab_write.Prelude.{ℕ, ◌+◌, ◌≡◌, ◌<◌, refl, ap, ◌∙◌, some, List, [], ◌++◌, length, arith}
use collab_write.Prelude.Bytes.{bytes_of, number_of, number_of-bytes_of, word-Fits}
use collab_write.Storage.Page.{
  Record, page_id, record_count, end_offset, list_records, read_record, list_from, find_from,
  end_from, required,
}
use collab_write.Storage.Page.Layout.{encode, header, Holds, read_uint-eq}
use collab_write.Storage.Page.Records.{list_from-prefix, find_from-prefix, end_from-prefix, locate}

count_in_header :
    (id checksum d n : ℕ) (c : List ℕ)
    → n < 65536
    → record_count (header id checksum d n ++ c) ≡ some n
unfolding record_count header bytes_of number_of
count_in_header id checksum d n c h =
    read_uint-eq 2 9 (header id checksum d n ++ c) (omega arith) ∙ ap some (omega (arith, h))

id_in_header :
    (id checksum d n : ℕ) (c : List ℕ)
    → id < 4294967296
    → page_id (header id checksum d n ++ c) ≡ some id
unfolding page_id header bytes_of number_of
id_in_header id checksum d n c h =
    read_uint-eq 4 0 (header id checksum d n ++ c) (omega arith)
    ∙ ap some (number_of-bytes_of 4 id [] (word-Fits id h))

pub record_count-Holds :
    (size id : ℕ) (rs : List Record) (buf : List ℕ)
    → Holds size id rs buf
    → record_count buf ≡ some (length rs)
unfolding Holds
record_count-Holds size id rs buf (k, d, rest, e, l, i, n, h) =
    ap record_count e ∙ count_in_header id k d (length rs) (encode rs ++ rest) n

pub page_id-Holds :
    (size id : ℕ) (rs : List Record) (buf : List ℕ) → Holds size id rs buf → page_id buf ≡ some id
unfolding Holds
page_id-Holds size id rs buf (k, d, rest, e, l, i, n, h) =
    ap page_id e ∙ id_in_header id k d (length rs) (encode rs ++ rest) i

length-header : (id k d n : ℕ) → length (header id k d n) ≡ 11
unfolding header bytes_of
length-header id k d n = refl

pub end_offset-Holds :
    (size id : ℕ) (rs : List Record) (buf : List ℕ)
    → Holds size id rs buf
    → end_offset buf ≡ some (11 + required rs)
unfolding Holds end_offset
end_offset-Holds size id rs buf v =
    let (k, d, rest, e, l, i, n, h) = v in
    rw (end_offset, record_count-Holds size id rs buf v)
      (ap (end_from (length rs) 11) e
        ∙ end_from-prefix 11 (header id k d (length rs)) rs rest (length-header id k d (length rs))
            h)

-- On a page whose bytes hold given records listRecords reads these records, in order and with
-- every field.
pub list_records-Holds :
    (size id : ℕ) (rs : List Record) (buf : List ℕ)
    → Holds size id rs buf
    → list_records buf ≡ some rs
unfolding Holds list_records
list_records-Holds size id rs buf v =
    let (k, d, rest, e, l, i, n, h) = v in
    rw (list_records, record_count-Holds size id rs buf v)
      (ap (list_from (length rs) 11) e
        ∙ list_from-prefix 11 (header id k d (length rs)) rs rest (length-header id k d (length rs))
            h)

pub read_record-Holds :
    (size id : ℕ) (rs : List Record) (buf : List ℕ) (wanted : ℕ)
    → Holds size id rs buf
    → read_record wanted buf ≡ some (locate wanted 11 rs)
unfolding Holds read_record
read_record-Holds size id rs buf wanted v =
    let (k, d, rest, e, l, i, n, h) = v in
    rw (read_record, record_count-Holds size id rs buf v)
      (ap (find_from wanted (length rs) 11) e
        ∙ find_from-prefix wanted 11 (header id k d (length rs)) rs rest
            (length-header id k d (length rs)) h)
