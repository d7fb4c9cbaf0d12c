-- ===== src/Storage/Page/Writing.antt =====
-- The records of a page (src/engine/storage/Page.js) written behind a prefix of its buffer.
use collab_write.Prelude.{
  ℕ, ◌+◌, ◌-◌, ◌^◌, ◌≡◌, ◌≤◌, ◌<◌, refl, ap, sym, ◌∙◌, true, List, [], ◌∷◌, ◌++◌, length, drop,
  length-append, length-drop, arith, All, ltb,
}
use collab_write.Prelude.Bytes.{bytes_of, length-bytes_of}
use collab_write.Storage.Page.{
  Record, returned, ◌then_do◌, patch, record_header_size, put_record, put_all, put_count, set_dirty,
  required,
}
use collab_write.Storage.Page.Layout.{
  InRange, encode_one, encode, header, write_uint-eq, write_uint-prefix, copy-prefix,
}
use collab_write.Storage.Page.Records.{longer_record, regroup}

-- Four bytes appended to a prefix.
longer : (w n off : ℕ) (a : List ℕ) → length a ≡ off → length (a ++ bytes_of w n) ≡ off + w
longer w n off a e = omega (arith, length-append a (bytes_of w n), length-bytes_of w n, e)

word-ltb : (n : ℕ) → n < 4294967296 → ltb n (256 ^ 4) ≡ true
word-ltb n h = ground (arith, h)

behind : (w : ℕ) (c : List ℕ) (k : ℕ) → w + k ≤ length c → k ≤ length (drop w c)
behind w c k h = omega (arith, length-drop w c, h)

-- The bytes of a record in the grouping in which they are written.
encode_one-grouped :
    (a : List ℕ) (r : Record)
    → (((a ++ bytes_of 4 r.record_id) ++ bytes_of 4 (length r.payload)) ++ bytes_of 4 r.version)
        ++ r.payload
      ≡ a ++ encode_one r
unfolding encode_one bytes_of
encode_one-grouped [] r = refl
encode_one-grouped (x ∷ a) r = ap (◌∷◌ x) (encode_one-grouped a r)

-- What `put_record` leaves behind the record.
abbrev pub left_over : Record → List ℕ → List ℕ
left_over r c = drop (length r.payload) (drop 4 (drop 4 (drop 4 c)))

pub length-left_over :
    (r : Record) (c : List ℕ) → length (left_over r c) ≡ length c - (12 + length r.payload)
length-left_over r c = omega (
  arith,
  length-drop 4 c,
  length-drop 4 (drop 4 c),
  length-drop 4 (drop 4 (drop 4 c)),
  length-drop (length r.payload) (drop 4 (drop 4 (drop 4 c))),
)

pub put_record-prefix :
    (r : Record) (off : ℕ) (a c : List ℕ)
    → length a ≡ off
    → InRange r
    → 12 + length r.payload ≤ length c
    → put_record r off (a ++ c) ≡ returned tt ((a ++ encode_one r) ++ left_over r c)
unfolding InRange put_record ◌then_do◌
put_record-prefix r off a c e (i, l, v) h =
    let a1 = a ++ bytes_of 4 r.record_id in
    let a2 = a1 ++ bytes_of 4 (length r.payload) in
    let a3 = a2 ++ bytes_of 4 r.version in
    let c1 = drop 4 c in
    let c2 = drop 4 c1 in
    let c3 = drop 4 c2 in
    let e1 = longer 4 r.record_id off a e in
    let e2 : length a2 ≡ off + 8 = longer 4 (length r.payload) (off + 4) a1 e1 ∙ omega arith in
    let e3 : length a3 ≡ off + 12 = longer 4 r.version (off + 8) a2 e2 ∙ omega arith in
    let h1 = behind 4 c (8 + length r.payload) (omega (arith, h)) in
    let h2 = behind 4 c1 (4 + length r.payload) (omega (arith, h1)) in
    let h3 = behind 4 c2 (length r.payload) (omega (arith, h2)) in
    rw
      (
        put_record,
        write_uint-prefix 4 r.record_id off a c (word-ltb r.record_id i) e (omega (arith, h)),
        ◌then_do◌,
        write_uint-prefix 4 (length r.payload) (off + 4) a1 c1 (word-ltb (length r.payload) l) e1
            (omega (arith, h1)),
        write_uint-prefix 4 r.version (off + 8) a2 c2 (word-ltb r.version v) e2 (omega (arith, h2)),
      )
      (ap (returned tt) (
        copy-prefix r.payload (off + 12) a3 c3 e3 h3
        ∙ ap (◌++ left_over r c) (encode_one-grouped a r)))

-- What `put_all` leaves behind the records.
unfoldable pub left_all : List Record → List ℕ → List ℕ
left_all [] c = c
left_all (r ∷ rs) c = left_all rs (left_over r c)

pub length-left_all :
    (rs : List Record) (c : List ℕ) → length (left_all rs c) ≡ length c - required rs
unfolding left_all required
length-left_all [] c = omega arith
length-left_all (r ∷ rs) c = omega (arith, length-left_all rs (left_over r c), length-left_over r c)

pub length-encode : (rs : List Record) → length (encode rs) ≡ required rs
unfolding encode encode_one bytes_of required
length-encode [] = refl
length-encode (r ∷ rs) = omega (arith, length-append (encode_one r) (encode rs), length-encode rs)

pub put_all-prefix :
    (rs : List Record) (off : ℕ) (a c : List ℕ)
    → length a ≡ off
    → All InRange rs
    → required rs ≤ length c
    → put_all rs off (a ++ c) ≡ returned tt (a ++ (encode rs ++ left_all rs c))
unfolding put_all encode left_all required ◌then_do◌
put_all-prefix [] off a c e h l = refl
put_all-prefix (r ∷ rs) off a c e (h, hs) l =
    rw (put_all, put_record-prefix r off a c e h (omega (arith, l)), ◌then_do◌)
      (put_all-prefix rs (off + (record_header_size + length r.payload)) (a ++ encode_one r)
          (left_over r c) (longer_record off a r e) hs (omega (arith, l, length-left_over r c))
        ∙ ap (returned tt) (sym (regroup a r rs (left_all rs (left_over r c)))))

-- The count and the dirty flag in the header.
pub put_count-header :
    (n id checksum d m : ℕ) (c : List ℕ)
    → n < 65536
    → put_count n (header id checksum d m ++ c) ≡ returned tt (header id checksum 1 n ++ c)
unfolding put_count set_dirty header bytes_of patch ◌then_do◌
put_count-header n id checksum d m c h =
    rw
      (
        put_count,
        write_uint-eq 2 n 9 (header id checksum d m ++ c) (ground (arith, h)) (omega arith),
        ◌then_do◌,
        write_uint-eq 1 1 8 (header id checksum d n ++ c) refl (omega arith),
      )
      refl
