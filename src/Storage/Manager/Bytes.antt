-- ===== src/Storage/Manager/Bytes.antt =====
-- Reads of the data file of src/engine/storage/StorageManager.js after writes and truncations.
use collab_write.Prelude.{
  ℕ, zero, suc, ◌+◌, ◌-◌, ◌*◌, ◌≡◌, ◌≤◌, ◌<◌, refl, ap, sym, ◌∙◌, List, [], ◌∷◌, ◌++◌, length, take,
  drop, length-append, length-take, length-drop, append_assoc, take_length-append,
  drop_length-append, arith,
}
use collab_write.Storage.Page.{zeroes}
use collab_write.Storage.Page.Layout.{drop_add, drop-prefix}
use collab_write.Storage.Manager.{truncate, write_at, read_at}

-- Two pages do not overlap.
pub apart : (k j n : ℕ) → k < j → k * n + n ≤ j * n
apart k j n h = grind (arith, h)

pub length-zeroes : (n : ℕ) → length (zeroes n) ≡ n
unfolding zeroes
length-zeroes zero = refl
length-zeroes (suc n) = ap suc (length-zeroes n)

pub length-truncate : (n : ℕ) (file : List ℕ) → length (truncate n file) ≡ n
unfolding truncate
length-truncate n file = omega (
  arith,
  length-append (take n file) (zeroes (n - length file)),
  length-take n file,
  length-zeroes (n - length file),
)

-- A range inside of the first part.
take-drop-append :
    (n k : ℕ) (xs ys : List ℕ) → k + n ≤ length xs → take n (drop k (xs ++ ys)) ≡ take n (drop k xs)
take-drop-append zero zero xs ys h = refl
take-drop-append (suc n) zero [] ys h = ground (arith, h)
take-drop-append (suc n) zero (x ∷ xs) ys h =
    ap (◌∷◌ x) (take-drop-append n zero xs ys (ground (arith, h)))
take-drop-append zero (suc k) xs ys h = refl
take-drop-append (suc n) (suc k) [] ys h = ground (arith, h)
take-drop-append (suc n) (suc k) (x ∷ xs) ys h =
    take-drop-append (suc n) k xs ys (ground (arith, h))

take-drop-take :
    (n k m : ℕ) (xs : List ℕ) → k + n ≤ m → take n (drop k (take m xs)) ≡ take n (drop k xs)
take-drop-take zero k m xs h = refl
take-drop-take (suc n) zero zero xs h = ground (arith, h)
take-drop-take (suc n) zero (suc m) [] h = refl
take-drop-take (suc n) zero (suc m) (x ∷ xs) h =
    ap (◌∷◌ x) (take-drop-take n zero m xs (ground (arith, h)))
take-drop-take (suc n) (suc k) zero xs h = ground (arith, h)
take-drop-take (suc n) (suc k) (suc m) [] h = refl
take-drop-take (suc n) (suc k) (suc m) (x ∷ xs) h =
    take-drop-take (suc n) k m xs (ground (arith, h))

pub read_at-truncate :
    (off n m : ℕ) (file : List ℕ)
    → off + n ≤ m
    → off + n ≤ length file
    → read_at off n (truncate m file) ≡ read_at off n file
unfolding read_at truncate
read_at-truncate off n m file h l =
    take-drop-append n off (take m file) (zeroes (m - length file))
      (omega (arith, h, l, length-take m file))
    ∙ take-drop-take n off m file h

-- What is written is read.
pub read_at-write_at :
    (off : ℕ) (bs file : List ℕ) → read_at off (length bs) (write_at off bs file) ≡ bs
unfolding read_at write_at
read_at-write_at off bs file =
    let t = truncate off file in
    let d = drop (off + length bs) file in
    ap (take (length bs)) (
      ap (drop off) (append_assoc t bs d)
      ∙ ap (λ n. drop n (t ++ (bs ++ d))) (sym (length-truncate off file))
      ∙ drop_length-append t (bs ++ d))
    ∙ take_length-append bs d

-- A write leaves what stands before it and behind it.
pub read_at_before :
    (off : ℕ) (bs file : List ℕ) (k n : ℕ)
    → k + n ≤ off
    → k + n ≤ length file
    → read_at k n (write_at off bs file) ≡ read_at k n file
unfolding read_at write_at
read_at_before off bs file k n h l =
    let t = truncate off file in
    let d = drop (off + length bs) file in
    ap (λ z. take n (drop k z)) (append_assoc t bs d)
    ∙ take-drop-append n k t (bs ++ d) (omega (arith, h, length-truncate off file))
    ∙ read_at-truncate k n off file h l

pub read_at_behind :
    (off : ℕ) (bs file : List ℕ) (k n : ℕ)
    → off + length bs ≤ k
    → read_at k n (write_at off bs file) ≡ read_at k n file
unfolding read_at write_at
read_at_behind off bs file k n h =
    let t = truncate off file in
    let d = drop (off + length bs) file in
    let m = k - (off + length bs) in
    let e : off + length bs + m ≡ k = omega (arith, h) in
    ap (take n) (
      ap (λ z. drop z ((t ++ bs) ++ d)) (sym e)
      ∙ drop-prefix (off + length bs) m (t ++ bs) d
          (omega (arith, length-append t bs, length-truncate off file))
      ∙ sym (drop_add (off + length bs) m file)
      ∙ ap (λ z. drop z file) e)

pub length-write_at :
    (off : ℕ) (bs file : List ℕ)
    → off + length bs ≤ length file
    → length (write_at off bs file) ≡ length file
unfolding write_at
length-write_at off bs file h =
    let t = truncate off file in
    let d = drop (off + length bs) file in
    omega (
      arith,
      h,
      length-append (t ++ bs) d,
      length-append t bs,
      length-truncate off file,
      length-drop (off + length bs) file,
    )
