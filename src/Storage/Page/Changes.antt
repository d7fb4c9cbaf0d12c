-- ===== src/Storage/Page/Changes.antt =====
-- The changes of src/engine/storage/Page.js on a page that holds given records.
use collab_write.Prelude.{
  ℕ, ◌+◌, ◌≡◌, ◌≤◌, ◌<◌, ◌⊎◌, inl, inr, refl, ap, sym, ◌∙◌, true, false, some, List, [], ◌∷◌, ◌++◌,
  length, append_assoc, length-append, arith, All, ltb, Bool-cases, append-nil,
}
use collab_write.Prelude.Bytes.{bytes_of, number_of}
use collab_write.Prelude.Int.{sub_ℕ}
use collab_write.Storage.Page.{
  Page, Record, returned, page_full, ◌then_do◌, reading, dirty, put_record, required, insert_record,
}
use collab_write.Storage.Page.Layout.{InRange, encode_one, encode, header, Holds, read_uint-eq}
use collab_write.Storage.Page.Contents.{record_count-Holds, page_id-Holds, end_offset-Holds}
use collab_write.Storage.Page.Writing.{
  put_record-prefix, put_count-header, left_over, length-left_over, length-encode,
}

encode-append : (rs qs : List Record) → encode (rs ++ qs) ≡ encode rs ++ encode qs
unfolding encode
encode-append [] qs = refl
encode-append (r ∷ rs) qs =
    ap (encode_one r ++◌) (encode-append rs qs)
    ∙ sym (append_assoc (encode_one r) (encode rs) (encode qs))

pub required-append : (rs qs : List Record) → required (rs ++ qs) ≡ required rs + required qs
unfolding required
required-append [] qs = omega arith
required-append (r ∷ rs) qs = omega (arith, required-append rs qs)

append-InRange : (rs qs : List Record) → All InRange rs → All InRange qs → All InRange (rs ++ qs)
append-InRange [] qs h k = k
append-InRange (r ∷ rs) qs (h, hs) k = (h, append-InRange rs qs hs k)

pub size-Holds :
    (id k d : ℕ) (rs : List Record) (rest : List ℕ)
    → length (header id k d (length rs) ++ (encode rs ++ rest)) ≡ 11 + required rs + length rest
unfolding header bytes_of
size-Holds id k d rs rest = omega (arith, length-append (encode rs) rest, length-encode rs)

dirty_in_header : (id k n : ℕ) (c : List ℕ) → dirty (header id k 1 n ++ c) ≡ some true
unfolding dirty header bytes_of number_of
dirty_in_header id k n c = rw (dirty, read_uint-eq 1 8 (header id k 1 n ++ c) (omega arith)) refl

-- A page that a change leaves: it holds the records and is dirty.
unfoldable pub Changed : ℕ → ℕ → List Record → List ℕ → Type 0
Changed size id rs buf = Holds size id rs buf × (dirty buf ≡ some true)

pub changed :
    (size id k : ℕ) (rs : List Record) (rest : List ℕ)
    → 11 + required rs + length rest ≡ size
    → id < 4294967296
    → length rs < 65536
    → All InRange rs
    → Changed size id rs (header id k 1 (length rs) ++ (encode rs ++ rest))
unfolding Changed Holds
changed size id k rs rest l i n h = (
  (k, 1, rest, refl, size-Holds id k 1 rs rest ∙ l, i, n, h),
  dirty_in_header id k (length rs) (encode rs ++ rest),
)

put_last :
    (r : Record) (id k d : ℕ) (rs : List Record) (rest : List ℕ)
    → All InRange rs
    → InRange r
    → 12 + length r.payload ≤ length rest
    → put_record r (11 + required rs) (header id k d (length rs) ++ (encode rs ++ rest))
      ≡ returned tt (header id k d (length rs) ++ (encode (rs ++ r ∷ []) ++ left_over r rest))
unfolding encode header bytes_of
put_last r id k d rs rest hs h l =
    let H = header id k d (length rs) in
    ap (put_record r (11 + required rs)) (sym (append_assoc H (encode rs) rest))
    ∙ put_record-prefix r (11 + required rs) (H ++ encode rs) rest (omega (arith, length-encode rs))
        h l
    ∙ ap (returned tt) (
        append_assoc (H ++ encode rs) (encode_one r) (left_over r rest)
        ∙ append_assoc H (encode rs) (encode_one r ++ left_over r rest)
        ∙ ap (H ++◌) (
            sym (append_assoc (encode rs) (encode_one r) (left_over r rest))
            ∙ ap (◌++ left_over r rest) (
                ap (encode rs ++◌) (sym (append-nil (encode_one r)))
                ∙ sym (encode-append rs (r ∷ [])))))

-- An insertion into a page with room.
insert_record-room :
    (r : Record) (p : Page) (id k d : ℕ) (rs : List Record) (rest : List ℕ)
    → Holds p.page_size id rs p.buffer
    → p.buffer ≡ header id k d (length rs) ++ (encode rs ++ rest)
    → InRange r
    → All InRange rs
    → length rs + 1 < 65536
    → 11 + required rs + (12 + length r.payload) ≤ p.page_size
    → 12 + length r.payload ≤ length rest
    → insert_record r.record_id r.payload r.version p
      ≡ returned r.record_id
          (header id k 1 (length rs + 1) ++ (encode (rs ++ r ∷ []) ++ left_over r rest))
unfolding insert_record reading ◌then_do◌
insert_record-room r p id k d rs rest v e h hs n l m =
    let done = ap (put_record r (11 + required rs)) e ∙ put_last r id k d rs rest hs h m in
    let fits : ltb p.page_size (11 + required rs + (12 + length r.payload)) ≡ false =
      ground (arith, l) in
    rw
      (
        insert_record,
        end_offset-Holds p.page_size id rs p.buffer v,
        reading,
        page_id-Holds p.page_size id rs p.buffer v,
        record_count-Holds p.page_size id rs p.buffer v,
        fits,
        done,
        ◌then_do◌,
        put_count-header (length rs + 1) id k d (length rs)
            (encode (rs ++ r ∷ []) ++ left_over r rest) n,
      )
      refl

insert_record-full :
    (r : Record) (p : Page) (id : ℕ) (rs : List Record)
    → Holds p.page_size id rs p.buffer
    → p.page_size < 11 + required rs + (12 + length r.payload)
    → insert_record r.record_id r.payload r.version p
      ≡ page_full id (12 + length r.payload) (sub_ℕ p.page_size (11 + required rs)) p.buffer
unfolding insert_record reading
insert_record-full r p id rs v l =
    let full : ltb p.page_size (11 + required rs + (12 + length r.payload)) ≡ true =
      ground (arith, l) in
    rw
      (
        insert_record,
        end_offset-Holds p.page_size id rs p.buffer v,
        reading,
        page_id-Holds p.page_size id rs p.buffer v,
        record_count-Holds p.page_size id rs p.buffer v,
        full,
      )
      refl

-- The two outcomes of an insertion.
unfoldable pub Inserted : Record → Page → ℕ → List Record → Type 0
Inserted r p id rs =
    ((b : List ℕ) × (insert_record r.record_id r.payload r.version p ≡ returned r.record_id b)
      × Changed p.page_size id (rs ++ r ∷ []) b)
    ⊎ ((insert_record r.record_id r.payload r.version p
          ≡ page_full id (12 + length r.payload) (sub_ℕ p.page_size (11 + required rs)) p.buffer)
        × (p.page_size < 11 + required (rs ++ r ∷ [])))

-- On a page that holds given records, and fewer than 65535 of them, insertRecord of a record
-- whose numbers are in range returns its id and leaves a dirty page that holds the records and
-- behind them the new one; or it throws PageFullError and changes nothing, and then the page is
-- too small for all of them.
pub insert_record-Inserted :
    (r : Record) (p : Page) (id : ℕ) (rs : List Record)
    → Holds p.page_size id rs p.buffer
    → InRange r
    → length rs + 1 < 65536
    → Inserted r p id rs
unfolding Holds Inserted required
insert_record-Inserted r p id rs v h n =
    let (k, d, rest, e, size, i, c, hs) = v in
    let total = size-Holds id k d rs rest in
    let fit = required-append rs (r ∷ []) in
    let counted = length-append rs (r ∷ []) in
    elim (Bool-cases (ltb p.page_size (11 + required rs + (12 + length r.payload)))) [
      | inl full ↦
          inr (insert_record-full r p id rs v (ground (arith, full)), ground (arith, full, fit))
      | inr room ↦
          let l : 11 + required rs + (12 + length r.payload) ≤ p.page_size = ground (arith, room) in
          let m : 12 + length r.payload ≤ length rest =
            omega (arith, l, total, size, ap length e) in
          let new =
            header id k 1 (length (rs ++ r ∷ [])) ++ (encode (rs ++ r ∷ []) ++ left_over r rest) in
          inl (
            new,
            insert_record-room r p id k d rs rest v e h hs n l m
                ∙ ap
                    (λ z.
                      returned r.record_id
                        (header id k 1 z ++ (encode (rs ++ r ∷ []) ++ left_over r rest)))
                    (omega (arith, counted)),
            changed p.page_size id k (rs ++ r ∷ []) (left_over r rest)
                (omega (arith, length-left_over r rest, fit, total, size, ap length e, m)) i
                (omega (arith, counted, n)) (append-InRange rs (r ∷ []) hs (h, tt)),
          )
    ]
