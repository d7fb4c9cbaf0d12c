-- ===== src/Lock/Deadlock/Victim.antt =====
-- The victim that `selectVictim` of src/engine/lock/DeadlockDetector.js picks.
use collab_write.Prelude.{
  ℕ, ◌≤◌, ◌<◌, ◌≡◌, refl, subst, ◌⊎◌, inl, inr, Bool, true, false, Bool-cases, ◌&&◌, ◌||◌, some,
  List, [], ◌∷◌, if◌then◌else◌, ltb, eqb, eqb_iff, mem, arith, Key,
}
use collab_write.Lock.{LockManager}
use collab_write.Lock.Deadlock.{locks_of, choose, select_victim}

module _ {R : Type 0} ⦃key : Key R⦄ (m : LockManager R) where
  -- Transaction `v` is to be aborted rather than `t`: it holds fewer locks, or as many and is no older.
  abbrev pub Rather : ℕ → ℕ → Type 0
  Rather v t = (locks_of m v < locks_of m t) ⊎ ((locks_of m v ≡ locks_of m t) × (t ≤ v))

  -- What the loop returns when it starts from `victim`.
  Chosen : List ℕ → ℕ → ℕ → Type 0
  Chosen ts victim v =
      ((v ≡ victim) ⊎ (mem v ts ≡ true))
      × Rather v victim
      × ((t : ℕ) → (mem t ts ≡ false) ⊎ Rather v t)

  trans-Rather : (u v w : ℕ) → Rather u v → Rather v w → Rather u w
  trans-Rather u v w h g = ground (arith, h, g)

  -- A loop that goes on from `u`, which is to be aborted rather than `x` and `victim`.
  Chosen-cons :
      (x victim u v : ℕ) (ts : List ℕ)
      → (u ≡ x) ⊎ (u ≡ victim)
      → Rather u x
      → Rather u victim
      → Chosen ts u v
      → Chosen (x ∷ ts) victim v
  unfolding Chosen
  Chosen-cons x victim u v ts o rx rv (i, r, all) = (
    ground (arith, o, i, eqb_iff x u, eqb_iff x v),
    trans-Rather v u victim r rv,
    λ t. elim (Bool-cases (eqb x t)) [
      | inl e ↦ inr (subst (Rather v) ((eqb_iff x t).0 e) (trans-Rather v u x r rx))
      | inr e ↦ elim (all t) [ inl f ↦ inl (ground (arith, e, f)) | inr f ↦ inr f ]
    ],
  )

  self-Rather : (v : ℕ) → Rather v v
  self-Rather v = inr (refl, ground arith)

  choose-Chosen :
      (ts : List ℕ) (victim : ℕ) → Chosen ts victim (choose m ts victim (locks_of m victim))
  unfolding choose Chosen
  choose-Chosen [] victim = (inl refl, inr (refl, ground arith), λ t. inl refl)
  choose-Chosen (x ∷ ts) victim =
      let better =
        ltb (locks_of m x) (locks_of m victim)
        || (eqb (locks_of m x) (locks_of m victim) && ltb victim x) in
      bool_choice better (Chosen (x ∷ ts) victim) x victim
        (λ e.
          Chosen-cons x victim x _ ts (inl refl) (self-Rather x) (ground (arith, e))
            (choose-Chosen ts x))
        (λ e.
          Chosen-cons x victim victim _ ts (inr refl) (ground (arith, e)) (self-Rather victim)
            (choose-Chosen ts victim))
    where
      bool_choice :
          (b : Bool) (P : ℕ → Type 0) (y z : ℕ)
          → (b ≡ true → P (choose m ts y (locks_of m y)))
          → (b ≡ false → P (choose m ts z (locks_of m z)))
          → P (choose m ts (if b then y else z) (if b then locks_of m y else locks_of m z))
      bool_choice true P y z f g = f refl
      bool_choice false P y z f g = g refl

  -- The victim of a cycle is a member of the cycle, and no member holds fewer locks, or as many
  -- and is younger.
  pub select_victim-least :
      (cycle : List ℕ) (v : ℕ)
      → select_victim cycle m ≡ some v
      → (mem v cycle ≡ true) × ((t : ℕ) → (mem t cycle ≡ false) ⊎ Rather v t)
  unfolding select_victim Chosen
  select_victim-least [] v e = ground (arith, e)
  select_victim-least (x ∷ ts) v e =
      let (i, r, all) = choose-Chosen ts x in
      let q : choose m ts x (locks_of m x) ≡ v = ground (arith, e) in
      subst (λ (u : ℕ). (mem u (x ∷ ts) ≡ true) × ((t : ℕ) → (mem t (x ∷ ts) ≡ false) ⊎ Rather u t))
        q
        (
          ground (arith, i, eqb_iff x (choose m ts x (locks_of m x))),
          λ t. elim (Bool-cases (eqb x t)) [
            | inl f ↦ inr (subst (Rather (choose m ts x (locks_of m x))) ((eqb_iff x t).0 f) r)
            | inr f ↦ elim (all t) [ inl g ↦ inl (ground (arith, f, g)) | inr g ↦ inr g ]
          ],
        )
