-- ===== src/Storage/Page/Layout.antt =====
-- What a buffer of src/engine/storage/Page.js holds, and its reads and writes behind a prefix.
use collab_write.Prelude.{
  ℕ, zero, suc, ◌+◌, ◌-◌, ◌^◌, ◌≡◌, ◌≤◌, ◌<◌, refl, ap, sym, ◌∙◌, true, some, List, [], ◌∷◌, ◌++◌,
  length, take, drop, length-append, take_length-append, drop_length-append, arith, All, ltb,
  le→leb,
}
use collab_write.Prelude.Bytes.{bytes_of, number_of, length-bytes_of}
use collab_write.Storage.Page.{Record, returned, read_uint, write_uint, patch, copy}

-- The numbers of a record fit into their fields.
unfoldable pub InRange : Record → Type 0
InRange r = (r.record_id < 4294967296) × (length r.payload < 4294967296) × (r.version < 4294967296)

unfoldable pub encode_one : Record → List ℕ
encode_one r =
    bytes_of 4 r.record_id ++ bytes_of 4 (length r.payload) ++ bytes_of 4 r.version ++ r.payload

unfoldable pub encode : List Record → List ℕ
encode [] = []
encode (r ∷ rs) = encode_one r ++ encode rs

unfoldable pub header : ℕ → ℕ → ℕ → ℕ → List ℕ
header id checksum d n = bytes_of 4 id ++ bytes_of 4 checksum ++ bytes_of 1 d ++ bytes_of 2 n

-- A buffer of a page with this id holds these records, behind whatever checksum and dirty flag.
unfoldable pub Holds : ℕ → ℕ → List Record → List ℕ → Type 0
Holds size id rs buf =
    (checksum : ℕ) × (d : ℕ) × (rest : List ℕ) × (buf
      ≡ header id checksum d (length rs) ++ (encode rs ++ rest))
    × (length buf ≡ size)
    × (id < 4294967296)
    × (length rs < 65536)
    × All InRange rs

drop-nil {ℓ} : {A : Type ℓ} (n : ℕ) → drop {A = A} n [] ≡ []
drop-nil zero = refl
drop-nil (suc n) = refl

suc_add : (m n : ℕ) → suc m + n ≡ suc (m + n)
suc_add m n = omega arith

pub drop_add {ℓ} : {A : Type ℓ} (m n : ℕ) (xs : List A) → drop (m + n) xs ≡ drop n (drop m xs)
drop_add zero n xs = ap (λ k. drop k xs) (omega arith)
drop_add (suc m) n [] = ap (λ k. drop k []) (suc_add m n) ∙ sym (drop-nil n)
drop_add (suc m) n (x ∷ xs) = ap (λ k. drop k (x ∷ xs)) (suc_add m n) ∙ drop_add m n xs

pub drop-prefix {ℓ} :
    {A : Type ℓ} (off k : ℕ) (a c : List A) → length a ≡ off → drop (off + k) (a ++ c) ≡ drop k c
drop-prefix off k a c e =
    ap (λ n. drop (n + k) (a ++ c)) (sym e)
    ∙ drop_add (length a) k (a ++ c)
    ∙ ap (drop k) (drop_length-append a c)

pub read_uint-eq :
    (w off : ℕ) (buf : List ℕ)
    → off + w ≤ length buf
    → read_uint w off buf ≡ some (number_of w (drop off buf))
unfolding read_uint
read_uint-eq w off buf h = rw (le→leb (off + w) (length buf) h) refl

-- A read behind a prefix.
pub read_uint-prefix :
    (w off k : ℕ) (a c : List ℕ)
    → length a ≡ off
    → k + w ≤ length c
    → read_uint w (off + k) (a ++ c) ≡ some (number_of w (drop k c))
read_uint-prefix w off k a c e h =
    read_uint-eq w (off + k) (a ++ c) (ground (arith, length-append a c, e, h))
    ∙ ap (λ z. some (number_of w z)) (drop-prefix off k a c e)

pub write_uint-eq :
    (w n off : ℕ) (buf : List ℕ)
    → ltb n (256 ^ w) ≡ true
    → off + w ≤ length buf
    → write_uint w n off buf ≡ returned tt (patch off (bytes_of w n) buf)
unfolding write_uint
write_uint-eq w n off buf l h = rw l (rw (le→leb (off + w) (length buf) h) refl)

-- What is written behind a prefix.
pub patch-prefix :
    (off : ℕ) (a bs c : List ℕ)
    → length a ≡ off
    → patch off bs (a ++ c) ≡ (a ++ bs) ++ drop (length bs) c
unfolding patch
patch-prefix off a bs c e =
    ap (λ z. z ++ bs ++ drop (off + length bs) (a ++ c))
      (ap (λ n. take n (a ++ c)) (sym e) ∙ take_length-append a c)
    ∙ ap (λ z. a ++ bs ++ z) (drop-prefix off (length bs) a c e)

pub write_uint-prefix :
    (w n off : ℕ) (a c : List ℕ)
    → ltb n (256 ^ w) ≡ true
    → length a ≡ off
    → w ≤ length c
    → write_uint w n off (a ++ c) ≡ returned tt ((a ++ bytes_of w n) ++ drop w c)
write_uint-prefix w n off a c l e h =
    write_uint-eq w n off (a ++ c) l (ground (arith, length-append a c, e, h))
    ∙ ap (returned tt) (
        patch-prefix off a (bytes_of w n) c e
        ∙ ap (λ k. (a ++ bytes_of w n) ++ drop k c) (length-bytes_of w n))

pub copy-prefix :
    (body : List ℕ) (off : ℕ) (a c : List ℕ)
    → length a ≡ off
    → length body ≤ length c
    → copy body off (a ++ c) ≡ (a ++ body) ++ drop (length body) c
unfolding copy
copy-prefix body off a c e h =
    ap (λ z. patch off z (a ++ c))
      (take-all (length (a ++ c) - off) body (ground (arith, length-append a c, e, h)))
    ∙ patch-prefix off a body c e
  where
    take-all : (n : ℕ) (b : List ℕ) → length b ≤ n → take n b ≡ b
    take-all zero [] h = refl
    take-all zero (x ∷ b) h = ground (arith, h)
    take-all (suc n) [] h = refl
    take-all (suc n) (x ∷ b) h = ap (◌∷◌ x) (take-all n b (ground (arith, h)))
