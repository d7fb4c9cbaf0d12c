-- ===== src/Prelude/Map.antt =====
-- JavaScript's `Map`: iteration is in order of first insertion, `set` on a present key keeps its
-- place, `delete` on an absent key changes nothing.
use Prim.Native.Nat.{suc, ◌+◌, ◌≤◌}
use mathlib.Core.Path.{◌≡◌, refl, sym, subst, ◌∙◌}
use mathlib.Core.Logic.{inl, inr}
use mathlib.Core.Bool.{Bool, true, false, not, ◌&&◌, ◌||◌}
use mathlib.Core.List.{List, [], ◌∷◌, map}
use mathlib.Core.Option.{Option, none, some}
use native.Mathlib.Omega.{arith}
use collab_write.Prelude.Tests.{Key, Bool-cases, ◌===◌, if◌then◌else◌}
use collab_write.Prelude.Lists.{length}

abbrev pub Map {ℓ κ} : Type ℓ → Type κ → Type (ℓ ⊔ κ)
Map K V = List (K × V)

pub same_refl {ℓ} : {K : Type ℓ} ⦃e : Key K⦄ (k : K) → (k === k) ≡ true
same_refl ⦃e⦄ k = (e.same_iff k k).1 refl

module _ {ℓ κ} {K : Type ℓ} {V : Type κ} ⦃e : Key K⦄ where
  unfoldable pub get : K → Map K V → Option V
  get k [] = none
  get k ((j, v) ∷ m) = if j === k then some v else get k m

  unfoldable pub has : K → Map K V → Bool
  has k [] = false
  has k ((j, v) ∷ m) = j === k || has k m

  unfoldable pub set : K → V → Map K V → Map K V
  set k v [] = (k, v) ∷ []
  set k v ((j, w) ∷ m) = if j === k then (j, v) ∷ m else (j, w) ∷ set k v m

  unfoldable pub delete : K → Map K V → Map K V
  delete k [] = []
  delete k ((j, w) ∷ m) = if j === k then m else (j, w) ∷ delete k m

  abbrev pub keys : Map K V → List K
  keys = map (λ p. p.0)

  -- No key stands twice.
  abbrev pub Distinct : Map K V → Type 0
  Distinct [] = Unit
  Distinct ((k, v) ∷ m) = (has k m ≡ false) × Distinct m

  pub get-set :
      (k j : K) (v : V) (m : Map K V) → get j (set k v m) ≡ (if k === j then some v else get j m)
  unfolding get set
  get-set k j v [] = refl
  get-set k j v ((i, w) ∷ m) =
      ground (arith, e.same_iff k j, e.same_iff i k, e.same_iff i j, get-set k j v m)

  pub has-get : (k : K) (m : Map K V) → has k m ≡ elim (get k m) [ none ↦ false | some _ ↦ true ]
  unfolding get has
  has-get k [] = refl
  has-get k ((i, w) ∷ m) = ground (arith, has-get k m)

  pub has-set : (k j : K) (v : V) (m : Map K V) → has j (set k v m) ≡ (k === j || has j m)
  unfolding has set
  has-set k j v [] = ground arith
  has-set k j v ((i, w) ∷ m) =
      ground (arith, e.same_iff k j, e.same_iff i k, e.same_iff i j, has-set k j v m)

  pub set-Distinct : (k : K) (v : V) (m : Map K V) → Distinct m → Distinct (set k v m)
  unfolding set has
  set-Distinct k v [] d = ground arith
  set-Distinct k v ((i, w) ∷ m) d =
      ground (arith, e.same_iff i k, e.same_iff k i, has-set k i v m, set-Distinct k v m d.1)

  has-delete_ne : (k j : K) (m : Map K V) → has j m ≡ false → has j (delete k m) ≡ false
  unfolding has delete
  has-delete_ne k j [] h = refl
  has-delete_ne k j ((i, w) ∷ m) h = ground (arith, has-delete_ne k j m)

  pub delete-Distinct : (k : K) (m : Map K V) → Distinct m → Distinct (delete k m)
  unfolding delete
  delete-Distinct k [] d = tt
  delete-Distinct k ((i, w) ∷ m) d = ground (arith, has-delete_ne k i m, delete-Distinct k m d.1)

  pub get-delete_ne : (k j : K) (m : Map K V) → (k === j) ≡ false → get j (delete k m) ≡ get j m
  unfolding get delete
  get-delete_ne k j [] h = refl
  get-delete_ne k j ((i, w) ∷ m) h =
      ground (arith, e.same_iff k j, e.same_iff i k, e.same_iff i j, get-delete_ne k j m)

  pub get_absent : (k : K) (m : Map K V) → has k m ≡ false → get k m ≡ none
  unfolding get has
  get_absent k [] h = refl
  get_absent k ((i, w) ∷ m) h = ground (arith, get_absent k m)

  pub get-delete_self : (k : K) (m : Map K V) → Distinct m → get k (delete k m) ≡ none
  unfolding get delete
  get-delete_self k [] d = refl
  get-delete_self k ((i, w) ∷ m) d =
      ground (arith, e.same_iff i k, get_absent k m, get-delete_self k m d.1)

  pub length-set :
      (k : K) (v : V) (m : Map K V)
      → length (set k v m) ≡ (if has k m then length m else length m + 1)
  unfolding set has
  length-set k v [] = ground arith
  length-set k v ((i, w) ∷ m) = ground (arith, length-set k v m)

  pub has-delete :
      (k j : K) (m : Map K V) → Distinct m → has j (delete k m) ≡ (not (k === j) && has j m)
  unfolding has delete
  has-delete k j [] d = ground arith
  has-delete k j ((i, w) ∷ m) d =
      ground (arith, e.same_iff k j, e.same_iff i k, e.same_iff i j, has-delete k j m d.1)

  pub length-delete : (k : K) (m : Map K V) → has k m ≡ true → suc (length (delete k m)) ≡ length m
  unfolding has delete
  length-delete k [] h = cc
  length-delete k ((i, w) ∷ m) h = ground (arith, length-delete k m)

  pub delete_absent : (k : K) (m : Map K V) → has k m ≡ false → delete k m ≡ m
  unfolding has delete
  delete_absent k [] h = refl
  delete_absent k ((i, w) ∷ m) h = ground (arith, delete_absent k m)

  pub has_of_get : (k : K) (m : Map K V) {v : V} → get k m ≡ some v → has k m ≡ true
  has_of_get k m h = rw (has-get k m, h)

  -- Replacing the value at a present key changes no key.
  pub has-set_present :
      (k j : K) (v : V) (m : Map K V) → has k m ≡ true → has j (set k v m) ≡ has j m
  has-set_present k j v m h =
      has-set k j v m
      ∙ ground (arith, e.same_iff k j, h, λ (q : k ≡ j). subst (λ i. has i m ≡ true) q h)

  pub length-set_present :
      (k : K) (v : V) (m : Map K V) → has k m ≡ true → length (set k v m) ≡ length m
  length-set_present k v m h = rw (length-set k v m, h)

  pub length-delete-le : (k : K) (m : Map K V) → length (delete k m) ≤ length m
  unfolding delete
  length-delete-le k [] = omega arith
  length-delete-le k ((i, w) ∷ m) = ground (arith, length-delete-le k m)

  -- What a lookup finds after a deletion was there before, under another key.
  pub get-delete :
      (k j : K) (m : Map K V) {v : V}
      → Distinct m
      → get j (delete k m) ≡ some v
      → (get j m ≡ some v) × ((k === j) ≡ false)
  get-delete k j m d h = elim (Bool-cases (k === j)) [
    | inl same ↦ absurd (
        not_found
          (subst (λ i. get i (delete k m) ≡ none) ((e.same_iff k j).0 same) (get-delete_self k m d))
          h)
    | inr other ↦ (sym (get-delete_ne k j m other) ∙ h, other)
  ]
    where
      not_found : {o : Option V} {w : V} → o ≡ none → o ≡ some w → ⊥
      not_found p q = cc
