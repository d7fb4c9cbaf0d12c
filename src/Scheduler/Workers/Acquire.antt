-- ===== src/Scheduler/Workers/Acquire.antt =====
-- The worker that `acquire` of src/engine/scheduler/WorkerPool.js picks.
use collab_write.Prelude.{
  ℕ, zero, suc, ◌+◌, ◌-◌, ◌%◌, ◌<◌, ◌≡◌, refl, ap, sym, subst, ◌∙◌, ◌⊎◌, inl, inr, true, false,
  Option, none, some, leb, length, arith, Bool-cases, if_intro,
}
use collab_write.Scheduler.Workers.{WorkerPool, idle_at, scan, acquire}
use native.Mathlib.Nat.{mod-add-mod, add-mod_right, mod-eq_of_lt, mod-lt}

-- Going round from any place visits every place.
pub visits : (c n i : ℕ) → i < n → (k : ℕ) × (k < n) × ((c + k) % n ≡ i)
visits c n i h =
    let r = c % n in
    let small : r < n = mod-lt c (ground (arith, h)) in
    elim (Bool-cases (leb r i)) [
      | inl e ↦
          let s : r + (i - r) ≡ i = ground (arith, e) in
          (
            i - r,
            ground (arith, h),
            sym (mod-add-mod c n (i - r)) ∙ ap (λ x. x % n) s ∙ mod-eq_of_lt h,
          )
      | inr e ↦
          let s : r + (i + n - r) ≡ i + n = ground (arith, e, small) in
          (
            i + n - r,
            ground (arith, e, small),
            sym (mod-add-mod c n (i + n - r))
                ∙ ap (λ x. x % n) s
                ∙ add-mod_right i n
                ∙ mod-eq_of_lt h,
          )
    ]

from_zero : (o : ℕ) → o ≡ o + 0
from_zero o = omega arith

from_left : (k : ℕ) → 0 + k ≡ k
from_left k = omega arith

from_suc : (o k : ℕ) → o + 1 + k ≡ o + suc k
from_suc o k = omega arith

module _ {W : Type 0} where
  -- The place that is `k` steps from the cursor.
  abbrev pub place : WorkerPool W → ℕ → ℕ
  place p k = (p.cursor + k) % length p.workers

  -- The result when the worker there is taken.
  abbrev pub taken : WorkerPool W → ℕ → WorkerPool W × Option ℕ
  taken p k = (record p { cursor = (place p k + 1) % length p.workers }, some (place p k))

  -- What `scan` does with `n` places left from `offset` on: it takes the first idle worker, and
  -- moves the cursor behind it, or finds none.
  abbrev pub Scanned : ℕ → ℕ → WorkerPool W → WorkerPool W × Option ℕ → Type 0
  Scanned n offset p r =
      ((r ≡ (p, none)) × ((k : ℕ) → k < n → idle_at p.workers (place p (offset + k)) ≡ false))
      ⊎ ((j : ℕ) × (j < n)
          × (idle_at p.workers (place p (offset + j)) ≡ true)
          × ((k : ℕ) → k < j → idle_at p.workers (place p (offset + k)) ≡ false)
          × (r ≡ taken p (offset + j)))

  shift_first :
      (offset : ℕ) (p : WorkerPool W)
      → idle_at p.workers (place p offset) ≡ false
      → (k : ℕ) → ((j : ℕ) → suc j ≡ k → idle_at p.workers (place p (offset + 1 + j)) ≡ false)
      → idle_at p.workers (place p (offset + k)) ≡ false
  shift_first offset p e zero h =
      subst (λ o. idle_at p.workers (place p o) ≡ false) (from_zero offset) e
  shift_first offset p e (suc k) h =
      subst (λ o. idle_at p.workers (place p o) ≡ false) (from_suc offset k) (h k refl)

  scan-Scanned : (n offset : ℕ) (p : WorkerPool W) → Scanned n offset p (scan n offset p)
  unfolding scan
  scan-Scanned zero offset p = inl (refl, λ k h. ground (arith, h))
  scan-Scanned (suc n) offset p =
      if_intro (Scanned (suc n) offset p) (idle_at p.workers (place p offset)) _ _
        (λ e.
          let at : ℕ → Type 0 =
            λ o. (idle_at p.workers (place p o) ≡ true) × (taken p offset ≡ taken p o) in
          let (t, r) = subst at (from_zero offset) (e, refl) in
          inr (0, ground arith, t, λ k h. ground (arith, h), r))
        (λ e. elim (scan-Scanned n (offset + 1) p) [
          | inl (r, all) ↦
              inl (r, λ k h. shift_first offset p e k (λ j q. all j (ground (arith, h, q))))
          | inr (j, h, t, all, r) ↦
              let at : ℕ → Type 0 =
                λ o. (idle_at p.workers (place p o) ≡ true) × (scan n (offset + 1) p ≡ taken p o) in
              let (t', r') = subst at (from_suc offset j) (t, r) in
              inr (
                suc j,
                ground (arith, h),
                t',
                λ k l. shift_first offset p e k (λ i q. all i (ground (arith, l, q))),
                r',
              )
        ])

  -- acquire returns the first idle worker round the pool from the cursor and moves the cursor
  -- behind it; or it returns null and changes nothing, and then no worker is idle.
  pub acquire-cases :
      (p : WorkerPool W)
      → ((acquire p ≡ (p, none)) × ((i : ℕ) → i < length p.workers → idle_at p.workers i ≡ false))
        ⊎ ((j : ℕ) × (j < length p.workers)
            × (idle_at p.workers (place p j) ≡ true)
            × ((k : ℕ) → k < j → idle_at p.workers (place p k) ≡ false)
            × (acquire p ≡ taken p j))
  unfolding acquire
  acquire-cases p =
      let first = λ (k : ℕ). subst (λ o. idle_at p.workers (place p o) ≡ false) (from_left k) in
      elim (scan-Scanned (length p.workers) 0 p) [
        | inl (r, all) ↦ inl (
          r,
          λ i h.
              let (k, l, e) = visits p.cursor (length p.workers) i h in
              subst (λ x. idle_at p.workers x ≡ false) e (first k (all k l)),
        )
        | inr (j, h, t, all, r) ↦
            let at : ℕ → Type 0 =
              λ o. (idle_at p.workers (place p o) ≡ true) × (acquire p ≡ taken p o) in
            let (t', r') = subst at (from_left j) (t, r) in
            inr (j, h, t', λ k l. first k (all k l), r')
      ]
