-- ===== src/Storage/Page/Records.antt =====
-- The records of a page (src/engine/storage/Page.js) behind a prefix of its buffer: reading them and
-- writing them.
use collab_write.Prelude.{
  ℕ, ◌+◌, ◌≡◌, ◌≤◌, refl, ap, sym, ◌∙◌, Option, none, some, List, [], ◌∷◌, ◌++◌, length, take, drop,
  append_assoc, length-append, take_length-append, arith, All, if◌then◌else◌, eqb,
}
use collab_write.Prelude.Bytes.{bytes_of, number_of, number_of-bytes_of, word-Fits}
use collab_write.Storage.Page.{
  Record, read_uint, record_at, record_header_size, required, list_from, find_from, end_from,
}
use collab_write.Storage.Page.Layout.{InRange, encode_one, encode, drop-prefix, read_uint-prefix}

-- A record behind a prefix is read from its own bytes.
record_at-parts :
    (off id len version : ℕ) (a c : List ℕ)
    → length a ≡ off
    → 12 ≤ length c
    → number_of 4 c ≡ id
    → number_of 4 (drop 4 c) ≡ len
    → number_of 4 (drop 8 c) ≡ version
    → record_at off (a ++ c)
      ≡ some (record { record_id = id; version = version; payload = take len (drop 12 c) }, len)
unfolding record_at
record_at-parts off id len version a c e h i l v =
    let r0 : read_uint 4 off (a ++ c) ≡ some id =
      ap (λ k. read_uint 4 k (a ++ c)) (omega arith)
      ∙ read_uint-prefix 4 off 0 a c e (omega (arith, h))
      ∙ ap some i in
    rw
      (
        record_at,
        r0,
        read_uint-prefix 4 off 4 a c e (omega (arith, h)) ∙ ap some l,
        read_uint-prefix 4 off 8 a c e (omega (arith, h)) ∙ ap some v,
        drop-prefix off 12 a c e,
      )
      refl

pub length-encode_one : (r : Record) → length (encode_one r) ≡ 12 + length r.payload
unfolding encode_one bytes_of
length-encode_one r = omega arith

pub record_at-prefix :
    (off : ℕ) (a : List ℕ) (r : Record) (rest : List ℕ)
    → length a ≡ off
    → InRange r
    → record_at off (a ++ (encode_one r ++ rest)) ≡ some (r, length r.payload)
unfolding InRange encode_one bytes_of number_of
record_at-prefix off a r rest e (i, l, v) =
    record_at-parts off r.record_id (length r.payload) r.version a (encode_one r ++ rest) e
      (omega arith) (number_of-bytes_of 4 r.record_id [] (word-Fits r.record_id i))
      (number_of-bytes_of 4 (length r.payload) [] (word-Fits (length r.payload) l))
      (number_of-bytes_of 4 r.version [] (word-Fits r.version v))
    ∙ ap
        (λ b.
          some (
            record { record_id = r.record_id; version = r.version; payload = b },
            length r.payload,
          ))
        (take_length-append r.payload rest)

-- One record more in the prefix.
pub longer_record :
    (off : ℕ) (a : List ℕ) (r : Record)
    → length a ≡ off
    → length (a ++ encode_one r) ≡ off + (record_header_size + length r.payload)
longer_record off a r e = omega (arith, length-append a (encode_one r), length-encode_one r, e)

-- The bytes behind a prefix, regrouped so that the first record belongs to the prefix.
pub regroup :
    (a : List ℕ) (r : Record) (rs : List Record) (rest : List ℕ)
    → a ++ (encode (r ∷ rs) ++ rest) ≡ (a ++ encode_one r) ++ (encode rs ++ rest)
unfolding encode
regroup a r rs rest =
    ap (a ++◌) (append_assoc (encode_one r) (encode rs) rest)
    ∙ sym (append_assoc a (encode_one r) (encode rs ++ rest))

record_at-first :
    (off : ℕ) (a : List ℕ) (r : Record) (rs : List Record) (rest : List ℕ)
    → length a ≡ off
    → InRange r
    → record_at off (a ++ (encode (r ∷ rs) ++ rest)) ≡ some (r, length r.payload)
unfolding encode
record_at-first off a r rs rest e h =
    ap (λ z. record_at off (a ++ z)) (append_assoc (encode_one r) (encode rs) rest)
    ∙ record_at-prefix off a r (encode rs ++ rest) e h

length_field :
    (off : ℕ) (a : List ℕ) (r : Record) (rs : List Record) (rest : List ℕ)
    → length a ≡ off
    → InRange r
    → read_uint 4 (off + 4) (a ++ (encode (r ∷ rs) ++ rest)) ≡ some (length r.payload)
unfolding encode encode_one bytes_of number_of InRange
length_field off a r rs rest e h =
    read_uint-prefix 4 off 4 a (encode (r ∷ rs) ++ rest) e (omega arith)
    ∙ ap some (number_of-bytes_of 4 (length r.payload) [] (word-Fits (length r.payload) h.1))

pub list_from-prefix :
    (off : ℕ) (a : List ℕ) (rs : List Record) (rest : List ℕ)
    → length a ≡ off
    → All InRange rs
    → list_from (length rs) off (a ++ (encode rs ++ rest)) ≡ some rs
unfolding list_from
list_from-prefix off a [] rest e h = refl
list_from-prefix off a (r ∷ rs) rest e (h, hs) =
    let next : list_from (length rs) (off + (record_header_size + length r.payload))
          (a ++ (encode (r ∷ rs) ++ rest))
        ≡ some rs =
      ap (list_from (length rs) (off + (record_header_size + length r.payload)))
        (regroup a r rs rest)
      ∙ list_from-prefix (off + (record_header_size + length r.payload)) (a ++ encode_one r) rs rest
          (longer_record off a r e) hs in
    rw (list_from, record_at-first off a r rs rest e h, next) refl

-- Where the first record with an id stands.
unfoldable pub locate : ℕ → ℕ → List Record → Option (Record × ℕ)
locate id off [] = none
locate id off (r ∷ rs) =
    if eqb r.record_id id
    then some (r, off)
    else locate id (off + (record_header_size + length r.payload)) rs

pub find_from-prefix :
    (id off : ℕ) (a : List ℕ) (rs : List Record) (rest : List ℕ)
    → length a ≡ off
    → All InRange rs
    → find_from id (length rs) off (a ++ (encode rs ++ rest)) ≡ some (locate id off rs)
unfolding find_from locate
find_from-prefix id off a [] rest e h = refl
find_from-prefix id off a (r ∷ rs) rest e (h, hs) =
    let next : find_from id (length rs) (off + (record_header_size + length r.payload))
          (a ++ (encode (r ∷ rs) ++ rest))
        ≡ some (locate id (off + (record_header_size + length r.payload)) rs) =
      ap (find_from id (length rs) (off + (record_header_size + length r.payload)))
        (regroup a r rs rest)
      ∙ find_from-prefix id (off + (record_header_size + length r.payload)) (a ++ encode_one r) rs
          rest (longer_record off a r e) hs in
    rw (find_from, record_at-first off a r rs rest e h, next) (ground arith)

pub end_from-prefix :
    (off : ℕ) (a : List ℕ) (rs : List Record) (rest : List ℕ)
    → length a ≡ off
    → All InRange rs
    → end_from (length rs) off (a ++ (encode rs ++ rest)) ≡ some (off + required rs)
unfolding end_from required
end_from-prefix off a [] rest e h = ap some (omega arith)
end_from-prefix off a (r ∷ rs) rest e (h, hs) =
    let n = off + (record_header_size + length r.payload) in
    let next : end_from (length rs) n (a ++ (encode (r ∷ rs) ++ rest)) ≡ some (n + required rs) =
      ap (end_from (length rs) n) (regroup a r rs rest)
      ∙ end_from-prefix n (a ++ encode_one r) rs rest (longer_record off a r e) hs in
    rw (end_from, length_field off a r rs rest e h, next) (ap some (omega arith))
