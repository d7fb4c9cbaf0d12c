-- ===== src/Storage/Page/Image.antt =====
-- The images of src/engine/storage/Page.js: what is written is read back, and what is read has the
-- checksum that it carries.
use collab_write.Prelude.{
  ℕ, ◌≡◌, ◌<◌, ◌⊎◌, inl, inr, refl, ap, sym, ◌∙◌, false, some, List, [], ◌++◌, length, arith, All,
  le→leb, Option-cases,
}
use collab_write.Prelude.Bytes.{bytes_of, number_of, number_of-bytes_of, word-Fits}
use collab_write.Storage.Page.{Page, Record, page_id, record_count, read_uint, dirty, patch}
use collab_write.Storage.Page.Checksum.{serialize, deserialize, crc32, crc_from, is_blank, loaded}
use collab_write.Storage.Page.Layout.{InRange, encode, header, Holds, read_uint-eq}
use collab_write.Storage.Page.Contents.{page_id-Holds, record_count-Holds}

-- The checksum does not depend on the checksum field.
crc32-header :
    (id j k d n : ℕ) (c : List ℕ)
    → crc32 (header id j d n ++ c) 4 8 ≡ crc32 (header id k d n ++ c) 4 8
unfolding crc32 crc_from header bytes_of
crc32-header id j k d n c = refl

pub crc32-le : (buf : List ℕ) (i j : ℕ) → crc32 buf i j < 4294967296
unfolding crc32
crc32-le buf i j = omega arith

-- The image of a page with this header.
pub image : ℕ → ℕ → List ℕ → List ℕ
image id n c = header id (crc32 (header id 0 0 n ++ c) 4 8) 0 n ++ c

serialize-header :
    (size id k d n : ℕ) (c : List ℕ)
    → serialize (record { page_size = size; buffer = header id k d n ++ c }) ≡ some (image id n c)
unfolding serialize patch header bytes_of image
serialize-header size id k d n c =
    rw (serialize, le→leb 9 (length (header id k d n ++ c)) (omega arith))
      (ap (λ z. some (header id z 0 n ++ c)) (crc32-header id k 0 0 n c))

checksum_field :
    (id k d n : ℕ) (c : List ℕ) → k < 4294967296 → read_uint 4 4 (header id k d n ++ c) ≡ some k
unfolding header bytes_of number_of
checksum_field id k d n c h =
    read_uint-eq 4 4 (header id k d n ++ c) (omega arith)
    ∙ ap some (number_of-bytes_of 4 k [] (word-Fits k h))

deserialize_checked :
    (buf : List ℕ) (size id k n : ℕ)
    → length buf ≡ size
    → read_uint 4 4 buf ≡ some k
    → page_id buf ≡ some id
    → record_count buf ≡ some n
    → crc32 buf 4 8 ≡ k
    → deserialize buf size ≡ loaded (record { page_size = size; buffer = buf })
unfolding deserialize
deserialize_checked buf size id k n l r i c s = ground (arith, l, r, i, c, s)

clean_in_header : (id k n : ℕ) (c : List ℕ) → dirty (header id k 0 n ++ c) ≡ some false
unfolding dirty header bytes_of number_of
clean_in_header id k n c = rw (dirty, read_uint-eq 1 8 (header id k 0 n ++ c) (omega arith)) refl

-- A buffer that is the image of a page.
unfoldable pub Clean : ℕ → ℕ → List Record → List ℕ → Type 0
Clean size id rs buf =
    Holds size id rs buf
    × (dirty buf ≡ some false)
    × (deserialize buf size ≡ loaded (record { page_size = size; buffer = buf }))

image-Clean :
    (size id : ℕ) (rs : List Record) (rest : List ℕ)
    → length (header id 0 0 (length rs) ++ (encode rs ++ rest)) ≡ size
    → id < 4294967296
    → length rs < 65536
    → All InRange rs
    → Clean size id rs (image id (length rs) (encode rs ++ rest))
unfolding Clean Holds image header bytes_of
image-Clean size id rs rest l i n h =
    let c = encode rs ++ rest in
    let k = crc32 (header id 0 0 (length rs) ++ c) 4 8 in
    let v : Holds size id rs (image id (length rs) c) = (k, 0, rest, refl, l, i, n, h) in
    (
      v,
      clean_in_header id k (length rs) c,
      deserialize_checked (image id (length rs) c) size id k (length rs) l
          (checksum_field id k 0 (length rs) c (crc32-le (header id 0 0 (length rs) ++ c) 4 8))
          (page_id-Holds size id rs (image id (length rs) c) v)
          (record_count-Holds size id rs (image id (length rs) c) v)
          (crc32-header id k 0 0 (length rs) c),
    )

-- The image that serialize gives of a page that holds given records holds the same records under
-- the same id, is not dirty, and passes the check of deserialize, which gives it back as a page.
pub serialize-Clean :
    (p : Page) (id : ℕ) (rs : List Record)
    → Holds p.page_size id rs p.buffer
    → (b : List ℕ) × (serialize p ≡ some b) × Clean p.page_size id rs b
unfolding Holds header bytes_of
serialize-Clean p id rs (k, d, rest, e, size, i, n, h) =
    let c = encode rs ++ rest in
    (
      image id (length rs) c,
      ap (λ b. serialize (record p { buffer = b })) e
          ∙ serialize-header p.page_size id k d (length rs) c,
      image-Clean p.page_size id rs rest (sym (ap length e) ∙ size) i n h,
    )

-- What an image that is accepted has.
unfoldable pub Accepted : List ℕ → ℕ → Page → Type 0
Accepted buf size q =
    (length buf ≡ size)
    × (q ≡ record { page_size = size; buffer = buf })
    × (stored : ℕ) × (read_uint 4 4 buf ≡ some stored)
    × ((crc32 buf 4 8 ≡ stored) ⊎ ((stored ≡ 0) × (record_count buf ≡ some 0)))

-- An image that deserialize accepts has the size of a page, becomes the page unchanged, and
-- carries its own checksum, or the checksum 0 and no record.
pub deserialize-Accepted :
    (buf : List ℕ) (size : ℕ) (q : Page) → deserialize buf size ≡ loaded q → Accepted buf size q
unfolding Accepted deserialize is_blank
deserialize-Accepted buf size q h = elim (Option-cases (read_uint 4 4 buf)) [
  | inl e ↦ absurd (ground (arith, h, e))
  | inr (k, e) ↦ elim (Option-cases (page_id buf)) [
    | inl f ↦ absurd (ground (arith, h, e, f))
    | inr (i, f) ↦ elim (Option-cases (record_count buf)) [
      | inl g ↦
          (ground (arith, h, e, f, g), ground (arith, h, e, f, g), k, e, ground (arith, h, e, f, g))
      | inr (n, g) ↦
          (ground (arith, h, e, f, g), ground (arith, h, e, f, g), k, e, ground (arith, h, e, f, g))
    ]
  ]
]
