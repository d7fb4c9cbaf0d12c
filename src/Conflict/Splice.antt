-- ===== src/Conflict/Splice.antt =====
-- Every operation of ConflictResolver.js is a splice: cut a span of the text, and put another in
-- its place. Two splices of disjoint spans can be made in either order.
use collab_write.Prelude.{
  ℕ, zero, suc, ◌+◌, ◌-◌, ◌≤◌, ◌≡◌, refl, ap, sym, ◌∙◌, List, [], ◌∷◌, ◌++◌, min, arith, length,
  take, drop,
}

module _ {ℓ} {A : Type ℓ} where
  -- `base.slice(0, p) + content + base.slice(p + d)`
  unfoldable pub splice : List A → ℕ → ℕ → List A → List A
  splice base p d content = take p base ++ (content ++ drop d (drop p base))

  drop_nil : (n : ℕ) → drop {A = A} n [] ≡ []
  drop_nil zero = refl
  drop_nil (suc n) = refl

  pub drop-drop : (p d : ℕ) (xs : List A) → drop (p + d) xs ≡ drop d (drop p xs)
  drop-drop p d [] = drop_nil (p + d) ∙ sym (ap (drop d) (drop_nil p) ∙ drop_nil d)
  drop-drop zero d (x ∷ xs) = ap (λ n. drop n (x ∷ xs)) (omega arith)
  drop-drop (suc p) d (x ∷ xs) =
      let e : suc p + d ≡ suc (p + d) = omega arith in
      ap (λ n. drop n (x ∷ xs)) e ∙ drop-drop p d xs

  pub take_clamped : (p : ℕ) (xs : List A) → take (min p (length xs)) xs ≡ take p xs
  take_clamped zero [] = refl
  take_clamped (suc p) [] = let e : min (suc p) 0 ≡ 0 = omega arith in ap (λ n. take {A = A} n []) e
  take_clamped zero (x ∷ xs) =
      let e : min 0 (suc (length xs)) ≡ 0 = omega arith in ap (λ n. take n (x ∷ xs)) e
  take_clamped (suc p) (x ∷ xs) =
      let e : min (suc p) (suc (length xs)) ≡ suc (min p (length xs)) = omega arith in
      ap (λ n. take n (x ∷ xs)) e ∙ ap (◌∷◌ x) (take_clamped p xs)

  pub drop_clamped : (p : ℕ) (xs : List A) → drop (min p (length xs)) xs ≡ drop p xs
  drop_clamped p [] = drop_nil (min p 0) ∙ sym (drop_nil p)
  drop_clamped zero (x ∷ xs) =
      let e : min 0 (suc (length xs)) ≡ 0 = omega arith in ap (λ n. drop n (x ∷ xs)) e
  drop_clamped (suc p) (x ∷ xs) =
      let e : min (suc p) (suc (length xs)) ≡ suc (min p (length xs)) = omega arith in
      ap (λ n. drop n (x ∷ xs)) e ∙ drop_clamped p xs

  pub splice_nothing : (base : List A) (p : ℕ) → splice base p 0 [] ≡ base
  unfolding splice
  splice_nothing base zero = refl
  splice_nothing [] (suc p) = refl
  splice_nothing (x ∷ base) (suc p) = ap (◌∷◌ x) (splice_nothing base p)

  splice-append :
      (c xs : List A) (r d : ℕ) (c' : List A)
      → splice (c ++ xs) (r + length c) d c' ≡ c ++ splice xs r d c'
  unfolding splice
  splice-append [] xs r d c' = ap (λ n. splice xs n d c') (omega arith)
  splice-append (x ∷ c) xs r d c' =
      let e : r + suc (length c) ≡ suc (r + length c) = omega arith in
      ap (λ n. splice (x ∷ (c ++ xs)) n d c') e ∙ ap (◌∷◌ x) (splice-append c xs r d c')

  drop-splice :
      (d : ℕ) (b : List A) (q d' : ℕ) (c' : List A)
      → d ≤ q
      → q ≤ length b
      → drop d (splice b q d' c') ≡ splice (drop d b) (q - d) d' c'
  unfolding splice
  drop-splice zero b q d' c' h k = ap (λ n. splice b n d' c') (omega arith)
  drop-splice (suc d) [] q d' c' h k = absurd (omega arith)
  drop-splice (suc d) (x ∷ b) zero d' c' h k = absurd (omega arith)
  drop-splice (suc d) (x ∷ b) (suc q) d' c' h k =
      let e : q - d ≡ suc q - suc d = omega arith in
      drop-splice d b q d' c' (omega arith) (omega arith) ∙ ap (λ n. splice (drop d b) n d' c') e

  -- The splice at `q` may also be made first; the one at `p` then moves it by its change of length.
  pub splice-splice :
      (b : List A) (p d : ℕ) (c : List A) (q d' : ℕ) (c' : List A)
      → p + d ≤ q
      → q ≤ length b
      → splice (splice b q d' c') p d c ≡ splice (splice b p d c) (q - d + length c) d' c'
  unfolding splice
  splice-splice b zero d c q d' c' h k =
      ap (◌++◌ c) (drop-splice d b q d' c' (omega arith) k)
      ∙ sym (splice-append c (drop d b) (q - d) d' c')
  splice-splice [] (suc p) d c q d' c' h k = absurd (omega arith)
  splice-splice (x ∷ b) (suc p) d c zero d' c' h k = absurd (omega arith)
  splice-splice (x ∷ b) (suc p) d c (suc q) d' c' h k =
      let e : suc (q - d + length c) ≡ suc q - d + length c = omega arith in
      ap (◌∷◌ x) (splice-splice b p d c q d' c' (omega arith) (omega arith))
      ∙ ap (λ n. splice (splice (x ∷ b) (suc p) d c) n d' c') e
