-- ===== src/Recovery/Wal/Codec.antt =====
-- The frames of src/engine/recovery/WAL.js are read back as they were written.
use collab_write.Prelude.{
  ℕ, zero, suc, ◌+◌, ◌≤◌, ◌<◌, ◌≡◌, refl, ap, sym, subst, ◌∙◌, true, some, List, [], ◌∷◌, ◌++◌,
  length, take, drop, map, append_assoc, length-append, length-take, take_length-append,
  drop_length-append, arith, All,
}
use collab_write.Prelude.Bytes.{
  bytes_of, number_of, byte-Fits, word-Fits, long-Fits, number_of-bytes_of,
}
use collab_write.Recovery.Wal.{
  LogRecord, or_empty, payload_length, payload, frame, in_range, image, parse, read_from,
  read_bytes,
}

-- The record as it is read: an image without bytes is absent.
unfoldable pub as_read : LogRecord → LogRecord
unfolding image or_empty
as_read r = record r {
  before_image = image (length (or_empty r.before_image)) (or_empty r.before_image);
  after_image = image (length (or_empty r.after_image)) (or_empty r.after_image);
}

image-append : (b z : List ℕ) → image (length b) (b ++ z) ≡ image (length b) b
unfolding image
image-append [] z = refl
image-append (x ∷ b) z = ap some (ap (◌∷◌ x) (take_length-append b z ∙ sym (take_all b)))
  where
    take_all : (b : List ℕ) → take (length b) b ≡ b
    take_all [] = refl
    take_all (x ∷ b) = ap (◌∷◌ x) (take_all b)

length-payload : (r : LogRecord) → length (payload r) ≡ payload_length r
unfolding payload payload_length bytes_of
length-payload r = ground (arith, length-append (or_empty r.before_image) (or_empty r.after_image))

pub length-frame : (r : LogRecord) → length (frame r) ≡ 4 + payload_length r
unfolding frame bytes_of
length-frame r = ground (arith, length-payload r)

ranges :
    (r : LogRecord)
    → in_range r ≡ true
    → (r.lsn < 18446744073709551616)
      × (r.type < 256)
      × (r.tx_id < 4294967296)
      × (r.page_id < 4294967296)
      × (payload_length r < 4294967296)
unfolding in_range
ranges r h = ground (arith, h)

-- A record by its numbers and by the bytes from the images on.
assemble : ℕ → ℕ → ℕ → ℕ → ℕ → ℕ → List ℕ → LogRecord
assemble lsn type tx_id page_id before_length after_length z = record {
  lsn = lsn;
  type = type;
  tx_id = tx_id;
  page_id = page_id;
  before_image = image before_length z;
  after_image = image after_length (drop before_length z);
}

assemble-eq :
    {l l' t t' x x' p p' b b' a a' : ℕ} (z : List ℕ)
    → l ≡ l'
    → t ≡ t'
    → x ≡ x'
    → p ≡ p'
    → b ≡ b'
    → a ≡ a'
    → assemble l t x p b a z ≡ assemble l' t' x' p' b' a' z
assemble-eq z el et ex ep eb ea = λ i. assemble (el i) (et i) (ex i) (ep i) (eb i) (ea i) z

assemble-images :
    (r : LogRecord) (rest : List ℕ)
    → let b = or_empty r.before_image in
      let a = or_empty r.after_image in
      assemble r.lsn r.type r.tx_id r.page_id (length b) (length a) ((b ++ a) ++ rest) ≡ as_read r
unfolding assemble as_read
assemble-images r rest =
    let b = or_empty r.before_image in
    let a = or_empty r.after_image in
    let eb : image (length b) ((b ++ a) ++ rest) ≡ image (length b) b =
      ap (image (length b)) (append_assoc b a rest) ∙ image-append b (a ++ rest) in
    let ea : image (length a) (drop (length b) ((b ++ a) ++ rest)) ≡ image (length a) a =
      ap (λ z. image (length a) (drop (length b) z)) (append_assoc b a rest)
      ∙ ap (image (length a)) (drop_length-append b (a ++ rest))
      ∙ image-append a rest in
    λ i. record r { before_image = eb i; after_image = ea i }

parse-payload :
    (r : LogRecord) (rest : List ℕ) → in_range r ≡ true → parse (payload r ++ rest) ≡ as_read r
unfolding parse payload bytes_of number_of assemble payload_length
parse-payload r rest h =
    let (l, t, x, p, n) = ranges r h in
    let b = or_empty r.before_image in
    let a = or_empty r.after_image in
    assemble-eq ((b ++ a) ++ rest) (number_of-bytes_of 8 r.lsn [] (long-Fits r.lsn l))
      (number_of-bytes_of 1 r.type [] (byte-Fits r.type t))
      (number_of-bytes_of 4 r.tx_id [] (word-Fits r.tx_id x))
      (number_of-bytes_of 4 r.page_id [] (word-Fits r.page_id p))
      (number_of-bytes_of 4 (length b) [] (word-Fits (length b) (omega (arith, n))))
      (number_of-bytes_of 4 (length a) [] (word-Fits (length a) (omega (arith, n))))
    ∙ assemble-images r rest

unfoldable pub frames : List LogRecord → List ℕ
frames [] = []
frames (r ∷ rs) = frame r ++ frames rs

size-frame :
    (r : LogRecord) (rest : List ℕ)
    → in_range r ≡ true
    → number_of 4 (frame r ++ rest) ≡ payload_length r
unfolding frame bytes_of number_of
size-frame r rest h =
    number_of-bytes_of 4 (payload_length r) [] (word-Fits (payload_length r) (ranges r h).4)

drop-frame : (r : LogRecord) (rest : List ℕ) → drop (payload_length r) (payload r ++ rest) ≡ rest
drop-frame r rest =
    ap (λ n. drop n (payload r ++ rest)) (sym (length-payload r))
    ∙ drop_length-append (payload r) rest

-- A whole frame at the cursor is read.
read_from_whole :
    (n : ℕ) (bs : List ℕ)
    → 25 ≤ number_of 4 bs
    → 4 + number_of 4 bs ≤ length bs
    → read_from (suc n) bs ≡ parse (drop 4 bs) ∷ read_from n (drop (number_of 4 bs) (drop 4 bs))
unfolding read_from
read_from_whole n bs h l = ground (arith, h, l)

drop_length_field : (r : LogRecord) (rest : List ℕ) → drop 4 (frame r ++ rest) ≡ payload r ++ rest
unfolding frame bytes_of
drop_length_field r rest = refl

payload_length-le : (r : LogRecord) → 25 ≤ payload_length r
unfolding payload_length
payload_length-le r = omega arith

-- A frame gives its record, and the reading goes on behind it.
read_from-frame :
    (n : ℕ) (r : LogRecord) (rest : List ℕ)
    → in_range r ≡ true
    → read_from (suc n) (frame r ++ rest) ≡ as_read r ∷ read_from n rest
read_from-frame n r rest h =
    let e = size-frame r rest h in
    let d = drop_length_field r rest in
    read_from_whole n (frame r ++ rest) (subst (λ x. 25 ≤ x) (sym e) (payload_length-le r)) (
      subst (λ x. 4 + x ≤ length (frame r ++ rest)) (sym e)
        (ground (arith, length-append (frame r) rest, length-frame r)))
    ∙ ap (λ x. parse (drop 4 (frame r ++ rest)) ∷ read_from n (drop x (drop 4 (frame r ++ rest)))) e
    ∙ ap (λ p. parse p ∷ read_from n (drop (payload_length r) p)) d
    ∙ ap (λ p. parse (payload r ++ rest) ∷ read_from n p) (drop-frame r rest)
    ∙ ap (λ p. p ∷ read_from n rest) (parse-payload r rest h)

-- What is no whole frame gives nothing.
read_from_torn : (n : ℕ) (bs : List ℕ) → length bs < 4 + number_of 4 bs → read_from n bs ≡ []
unfolding read_from
read_from_torn zero bs h = refl
read_from_torn (suc n) bs h = ground (arith, h)

pub read_from_short : (n : ℕ) (bs : List ℕ) → length bs < 4 → read_from n bs ≡ []
unfolding read_from
read_from_short zero bs h = refl
read_from_short (suc n) bs h = ground (arith, h)

read_from-frames :
    (n : ℕ) (rs : List LogRecord) (tail : List ℕ)
    → All (λ r. in_range r ≡ true) rs
    → length rs ≤ n
    → ((m : ℕ) → read_from m tail ≡ [])
    → read_from n (frames rs ++ tail) ≡ map as_read rs
unfolding frames
read_from-frames n [] tail h l e = e n
read_from-frames zero (r ∷ rs) tail h l e = ground (arith, l)
read_from-frames (suc n) (r ∷ rs) tail (v, h) l e =
    ap (read_from (suc n)) (append_assoc (frame r) (frames rs) tail)
    ∙ read_from-frame n r (frames rs ++ tail) v
    ∙ ap (◌∷◌ (as_read r)) (read_from-frames n rs tail h (ground (arith, l)) e)

length-frames : (rs : List LogRecord) → length rs ≤ length (frames rs)
unfolding frames
length-frames [] = ground arith
length-frames (r ∷ rs) =
    ground (arith, length-frames rs, length-append (frame r) (frames rs), length-frame r)

-- Behind whole frames bytes that give nothing are dropped.
pub read_bytes-frames :
    (rs : List LogRecord) (tail : List ℕ)
    → All (λ r. in_range r ≡ true) rs
    → ((m : ℕ) → read_from m tail ≡ [])
    → read_bytes (frames rs ++ tail) ≡ map as_read rs
unfolding read_bytes
read_bytes-frames rs tail h e =
    read_from-frames (length (frames rs ++ tail)) rs tail h
      (ground (arith, length-frames rs, length-append (frames rs) tail)) e

-- The length field of a frame that is cut behind it.
size_cut :
    (k : ℕ) (r : LogRecord) (more : List ℕ)
    → in_range r ≡ true
    → 4 ≤ k
    → number_of 4 (take k (frame r) ++ more) ≡ payload_length r
unfolding frame bytes_of number_of
size_cut zero r more h l = ground (arith, l)
size_cut (suc zero) r more h l = ground (arith, l)
size_cut (suc (suc zero)) r more h l = ground (arith, l)
size_cut (suc (suc (suc zero))) r more h l = ground (arith, l)
size_cut (suc (suc (suc (suc k)))) r more h l =
    number_of-bytes_of 4 (payload_length r) [] (word-Fits (payload_length r) (ranges r h).4)

-- A frame cut short gives nothing, and neither does it with too few bytes behind it.
pub read_from_cut :
    (k : ℕ) (r : LogRecord) (more : List ℕ) (n : ℕ)
    → in_range r ≡ true
    → 4 ≤ k
    → k + length more < length (frame r)
    → read_from n (take k (frame r) ++ more) ≡ []
read_from_cut k r more n h l b = read_from_torn n (take k (frame r) ++ more) (
    ground (
      arith,
      b,
      size_cut k r more h l,
      length-frame r,
      length-append (take k (frame r)) more,
      length-take k (frame r),
    ))
