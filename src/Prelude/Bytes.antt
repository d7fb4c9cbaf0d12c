-- ===== src/Prelude/Bytes.antt =====
-- Unsigned integers as bytes, the lowest first: the `writeUInt…LE` and `readUInt…LE` of the buffers
-- in src/engine/recovery/WAL.js and src/engine/storage/Page.js.
use Prim.Native.Nat.{ℕ, zero, suc, ◌+◌, ◌*◌, ◌/◌, ◌%◌, ◌<◌}
use mathlib.Core.Path.{◌≡◌, refl, ap}
use mathlib.Core.List.{List, [], ◌∷◌, ◌++◌}
use native.Mathlib.Omega.{arith}
use collab_write.Prelude.Lists.{length}

-- The `w` bytes of a number.
unfoldable pub bytes_of : ℕ → ℕ → List ℕ
bytes_of zero n = []
bytes_of (suc w) n = n % 256 ∷ bytes_of w (n / 256)

-- The number of the first `w` bytes; the callers see to it that they are there.
unfoldable pub number_of : ℕ → List ℕ → ℕ
number_of zero bs = 0
number_of (suc w) [] = 0
number_of (suc w) (b ∷ bs) = b + 256 * number_of w bs

-- The number has at most `w` bytes.
unfoldable pub Fits : ℕ → ℕ → Type 0
Fits zero n = n ≡ 0
Fits (suc w) n = Fits w (n / 256)

pub number_of-bytes_of : (w n : ℕ) (bs : List ℕ) → Fits w n → number_of w (bytes_of w n ++ bs) ≡ n
unfolding number_of bytes_of Fits
number_of-bytes_of zero n bs h = ground (arith, h)
number_of-bytes_of (suc w) n bs h = ground (arith, number_of-bytes_of w (n / 256) bs h)

pub length-bytes_of : (w n : ℕ) → length (bytes_of w n) ≡ w
unfolding bytes_of
length-bytes_of zero n = refl
length-bytes_of (suc w) n = ap suc (length-bytes_of w (n / 256))

pub byte-Fits : (n : ℕ) → n < 256 → Fits 1 n
unfolding Fits
byte-Fits n h = omega (arith, h)

pub word-Fits : (n : ℕ) → n < 4294967296 → Fits 4 n
unfolding Fits
word-Fits n h = omega (arith, h)

pub long-Fits : (n : ℕ) → n < 18446744073709551616 → Fits 8 n
unfolding Fits
long-Fits n h = omega (arith, h)
