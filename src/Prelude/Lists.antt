-- ===== src/Prelude/Lists.antt =====
-- Lists measured by native numbers, under the library's names, and Boolean filters.
use Prim.Native.Nat.{ℕ, zero, suc, ◌+◌, ◌-◌, min}
use mathlib.Core.Path.{◌≡◌, refl, ap}
use mathlib.Core.Logic.{inl, inr}
use mathlib.Core.Bool.{Bool, not, true, false, ◌&&◌, ◌||◌}
use mathlib.Core.List.{List, [], ◌∷◌, ◌++◌}
use mathlib.Core.Option.{Option, none, some}
use native.Mathlib.Omega.{arith}
use collab_write.Prelude.Tests.{if◌then◌else◌, eqb, eqb_iff, Bool-cases}

module _ {ℓ} {A : Type ℓ} where
  abbrev pub length : List A → ℕ
  length [] = 0
  length (x ∷ xs) = suc (length xs)

  abbrev pub get_elem? : List A → ℕ → Option A
  get_elem? [] i = none
  get_elem? (x ∷ xs) zero = some x
  get_elem? (x ∷ xs) (suc i) = get_elem? xs i

  -- A write out of bounds changes nothing.
  abbrev pub set : List A → ℕ → A → List A
  set [] i v = []
  set (x ∷ xs) zero v = v ∷ xs
  set (x ∷ xs) (suc i) v = x ∷ set xs i v

  abbrev pub take : ℕ → List A → List A
  take zero xs = []
  take (suc n) [] = []
  take (suc n) (x ∷ xs) = x ∷ take n xs

  abbrev pub drop : ℕ → List A → List A
  drop zero xs = xs
  drop (suc n) [] = []
  drop (suc n) (x ∷ xs) = drop n xs

  -- `Array.prototype.filter` and `some` with a Boolean test.
  abbrev pub filter : (A → Bool) → List A → List A
  filter p [] = []
  filter p (x ∷ xs) = if p x then x ∷ filter p xs else filter p xs

  abbrev pub any : (A → Bool) → List A → Bool
  any p [] = false
  any p (x ∷ xs) = p x || any p xs

  -- A predicate on every element, by recursion, so that the tactics read its parts.
  abbrev pub All {κ} : (A → Type κ) → List A → Type κ
  All P [] = Unit
  All P (x ∷ xs) = P x × All P xs

  pub length-append : (xs ys : List A) → length (xs ++ ys) ≡ length xs + length ys
  length-append [] ys = omega arith
  length-append (x ∷ xs) ys = omega (arith, length-append xs ys)

  pub filter-append :
      (p : A → Bool) (xs ys : List A) → filter p (xs ++ ys) ≡ filter p xs ++ filter p ys
  filter-append p [] ys = refl
  filter-append p (x ∷ xs) ys = ground (arith, filter-append p xs ys)

  pub take-append-drop : (n : ℕ) (xs : List A) → take n xs ++ drop n xs ≡ xs
  take-append-drop zero xs = refl
  take-append-drop (suc n) [] = refl
  take-append-drop (suc n) (x ∷ xs) = ap (◌∷◌ x) (take-append-drop n xs)

  pub take_length-append : (xs ys : List A) → take (length xs) (xs ++ ys) ≡ xs
  take_length-append [] ys = refl
  take_length-append (x ∷ xs) ys = ap (◌∷◌ x) (take_length-append xs ys)

  pub drop_length-append : (xs ys : List A) → drop (length xs) (xs ++ ys) ≡ ys
  drop_length-append [] ys = refl
  drop_length-append (x ∷ xs) ys = drop_length-append xs ys

  pub length-take : (n : ℕ) (xs : List A) → length (take n xs) ≡ min n (length xs)
  length-take zero xs = omega arith
  length-take (suc n) [] = omega arith
  length-take (suc n) (x ∷ xs) = omega (arith, length-take n xs)

  pub length-drop : (n : ℕ) (xs : List A) → length (drop n xs) ≡ length xs - n
  length-drop zero xs = omega arith
  length-drop (suc n) [] = omega arith
  length-drop (suc n) (x ∷ xs) = omega (arith, length-drop n xs)

-- Lists of numbers without repetition, with a Boolean membership test.
abbrev pub mem : ℕ → List ℕ → Bool
mem a [] = false
mem a (x ∷ xs) = eqb x a || mem a xs

abbrev pub Nodup : List ℕ → Type 0
Nodup [] = Unit
Nodup (x ∷ xs) = (mem x xs ≡ false) × Nodup xs

-- The list without one number.
abbrev pub without : ℕ → List ℕ → List ℕ
without a = filter (λ x. not (eqb x a))

pub mem-append : (a : ℕ) (xs ys : List ℕ) → mem a (xs ++ ys) ≡ (mem a xs || mem a ys)
mem-append a [] ys = refl
mem-append a (x ∷ xs) ys = ground (arith, mem-append a xs ys)

pub mem-without : (a b : ℕ) (xs : List ℕ) → mem b (without a xs) ≡ (not (eqb b a) && mem b xs)
mem-without a b [] = ground arith
mem-without a b (x ∷ xs) = ground (arith, mem-without a b xs)

pub without-Nodup : (a : ℕ) (xs : List ℕ) → Nodup xs → Nodup (without a xs)
without-Nodup a [] d = tt
without-Nodup a (x ∷ xs) d = ground (arith, mem-without a x xs, without-Nodup a xs d.1)

pub without_absent : (a : ℕ) (xs : List ℕ) → mem a xs ≡ false → without a xs ≡ xs
without_absent a [] h = refl
without_absent a (x ∷ xs) h = ground (arith, without_absent a xs)

pub length-without :
    (a : ℕ) (xs : List ℕ) → Nodup xs → mem a xs ≡ true → suc (length (without a xs)) ≡ length xs
length-without a [] d h = cc
length-without a (x ∷ xs) d h = ground (arith, length-without a xs d.1, without_absent a xs)

-- A member splits the list.
abbrev pub Split : ℕ → List ℕ → Type 0
Split a xs = (ys : List ℕ) × (zs : List ℕ) × (xs ≡ ys ++ a ∷ zs) × (without a xs ≡ ys ++ zs)

pub mem-Split : (a : ℕ) (xs : List ℕ) → Nodup xs → mem a xs ≡ true → Split a xs
mem-Split a [] d h = absurd (cc)
mem-Split a (x ∷ xs) d h = elim (Bool-cases (eqb x a)) [
  | inl here ↦ ([], xs, ground arith, ground (arith, without_absent a xs))
  | inr there ↦
      let (ys, zs, e, f) = mem-Split a xs d.1 (ground arith) in
      (x ∷ ys, zs, ap (◌∷◌ x) e, rw there (ap (◌∷◌ x) f))
]

pub Nodup-left : (xs ys : List ℕ) → Nodup (xs ++ ys) → Nodup xs
Nodup-left [] ys d = tt
Nodup-left (x ∷ xs) ys d = ground (arith, mem-append x xs ys, Nodup-left xs ys d.1)

pub Nodup-right : (xs ys : List ℕ) → Nodup (xs ++ ys) → Nodup ys
Nodup-right [] ys d = d
Nodup-right (x ∷ xs) ys d = Nodup-right xs ys d.1

pub Nodup-apart : (xs ys : List ℕ) (a : ℕ) → Nodup (xs ++ ys) → mem a ys ≡ true → mem a xs ≡ false
Nodup-apart [] ys a d m = refl
Nodup-apart (x ∷ xs) ys a d m = ground (arith, mem-append x xs ys, Nodup-apart xs ys a d.1 m)

-- `Set.prototype.add`, where a `Set` is the list of its elements in the order they were added.
abbrev pub add : ℕ → List ℕ → List ℕ
add x xs = if mem x xs then xs else xs ++ x ∷ []

pub mem-add : (y x : ℕ) (xs : List ℕ) → mem y (add x xs) ≡ (eqb x y || mem y xs)
mem-add y x xs = ground (arith, mem-append y xs (x ∷ []), eqb_iff x y)
