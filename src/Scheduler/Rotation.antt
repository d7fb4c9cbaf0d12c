-- ===== src/Scheduler/Rotation.antt =====
-- The document whose turn it is in `dequeue` of src/engine/scheduler/Scheduler.js.
use collab_write.Prelude.{
  ℕ, zero, suc, ◌+◌, ◌%◌, ◌≤◌, ◌<◌, ◌≡◌, refl, ap, sym, subst, ◌∙◌, ◌⊎◌, inl, inr, Option,
  Option-cases, none, some, List, [], ◌∷◌, length, get_elem?, nat_key, max, arith,
}
use collab_write.Prelude.Map
use collab_write.Prelude.Map.{Map}
use collab_write.Scheduler.Tasks.{Task}
use collab_write.Scheduler.{
  Scheduler, Policy, fifo, round_robin, dequeue, shift, waiting, turn, advance, put_back, rotate,
}
use native.Mathlib.Nat.{mod-add-mod}

next_index : (r m k : ℕ) → ((r + 1) % m + k) % m ≡ (r + suc k) % m
next_index r m k =
    let e : r + 1 + k ≡ r + suc k = omega arith in mod-add-mod (r + 1) m k ∙ ap (λ x. x % m) e

index_after : (r m j : ℕ) → ((r + 1) % m + j + 1) % m ≡ (r + suc j + 1) % m
index_after r m j =
    let e : (r + 1) % m + j + 1 ≡ (r + 1) % m + suc j = omega arith in
    let f : r + suc (suc j) ≡ r + suc j + 1 = omega arith in
    ap (λ x. x % m) e ∙ next_index r m (suc j) ∙ ap (λ x. x % m) f

add_none : (r : ℕ) → r ≡ r + 0
add_none r = omega arith

module _ {W : Type 0} where
  -- The tasks that wait for the document `k` turns on.
  abbrev pub slot : Scheduler W → ℕ → List (Task W)
  slot s k =
      waiting (get_elem? s.rotation ((s.rotation_index + k) % length s.rotation)) s.document_queues

  -- The scheduler after `j` turns are passed over and document `d` keeps the tasks `q`.
  abbrev pub served : Scheduler W → ℕ → ℕ → List (Task W) → Scheduler W
  served s j d q = record s {
    rotation_index = (s.rotation_index + j + 1) % max 1 (length s.rotation);
    document_queues = Map.set d q s.document_queues;
  }

  -- `n` turns find no task, or the first task of the first sub-queue that has one.
  abbrev pub Turned : ℕ → Scheduler W → Scheduler W × Option (Task W) → Type 0
  Turned n s r =
      ((r.1 ≡ none)
        × (r.0 ≡ record s { rotation_index = r.0.rotation_index })
        × ((k : ℕ) → k < n → slot s k ≡ []))
      ⊎ ((j : ℕ) × (d : ℕ) × (t : Task W) × (q : List (Task W)) × (j < n)
          × ((k : ℕ) → k < j → slot s k ≡ [])
          × (Map.get d s.document_queues ≡ some (t ∷ q))
          × (get_elem? s.rotation ((s.rotation_index + j) % length s.rotation) ≡ some d)
          × (r ≡ (served s j d q, some t)))

  -- The index of a turn after `advance`.
  turn-advance :
      (s : Scheduler W) (k : ℕ)
      → 1 ≤ length s.rotation
      → ((advance s).rotation_index + k) % length s.rotation
        ≡ (s.rotation_index + suc k) % length s.rotation
  unfolding advance
  turn-advance s k h =
      let e : max 1 (length s.rotation) ≡ length s.rotation = ground (arith, h) in
      ap (λ m. ((s.rotation_index + 1) % m + k) % length s.rotation) e
      ∙ next_index s.rotation_index (length s.rotation) k

  found_document :
      (o : Option ℕ) (m : Map ℕ (List (Task W))) (t : Task W) (q : List (Task W))
      → waiting o m ≡ t ∷ q
      → (d : ℕ) × (o ≡ some d) × (Map.get d m ≡ some (t ∷ q))
  unfolding waiting
  found_document none m t q e = ground (arith, e)
  found_document (some d) m t q e = elim (Option-cases (Map.get d m)) [
    | inl n ↦ ground (arith, e, n)
    | inr (x, g) ↦ (d, refl, g ∙ ap some (sym (ap (λ o. elim o [ none ↦ [] | some l ↦ l ]) g) ∙ e))
  ]

  slot_first :
      (s : Scheduler W) (k : ℕ)
      → 1 ≤ length s.rotation
      → waiting (turn s) s.document_queues ≡ []
      → ((j : ℕ) → suc j ≡ k → slot (advance s) j ≡ [])
      → slot s k ≡ []
  unfolding turn advance
  slot_first s zero h e all =
      subst (λ r. waiting (get_elem? s.rotation (r % length s.rotation)) s.document_queues ≡ [])
        (add_none s.rotation_index) e
  slot_first s (suc k) h e all =
      subst (λ i. waiting (get_elem? s.rotation i) s.document_queues ≡ []) (turn-advance s k h)
        (all k refl)

  turn_step :
      (n : ℕ) (s : Scheduler W) (w : List (Task W))
      → 1 ≤ length s.rotation
      → waiting (turn s) s.document_queues ≡ w
      → Turned n (advance s) (rotate n (advance s))
      → Turned
          (suc n)
          s
          (elim w [ [] ↦ rotate n (advance s) | t ∷ q ↦ (put_back (turn s) q (advance s), some t) ])
  unfolding put_back turn advance
  turn_step n s [] h e (inl (r, c, all)) =
      inl (r, c, λ k l. slot_first s k h e (λ j i. all j (ground (arith, i, l))))
  turn_step n s [] h e (inr (j, d, t, q, l, all, g, u, r)) = inr (
    suc j,
    d,
    t,
    q,
    ground (arith, l),
    λ k i. slot_first s k h e (λ x y. all x (ground (arith, i, y))),
    g,
    subst (λ i. get_elem? s.rotation i ≡ some d) (turn-advance s j h) u,
    r
        ∙ ap
            (λ (i : ℕ). (
              record s { rotation_index = i; document_queues = Map.set d q s.document_queues },
              some t,
            ))
            (index_after s.rotation_index (max 1 (length s.rotation)) j),
  )
  turn_step n s (t ∷ q) h e ih =
      let (d, u, g) = found_document (turn s) s.document_queues t q e in
      inr (
        0,
        d,
        t,
        q,
        ground arith,
        λ k l. ground (arith, l),
        g,
        subst (λ r. get_elem? s.rotation (r % length s.rotation) ≡ some d)
            (add_none s.rotation_index) u,
        ap (λ o. (put_back o q (advance s), some t)) u
            ∙ ap
                (λ (i : ℕ). (
                  record s {
                    rotation_index = (i + 1) % max 1 (length s.rotation);
                    document_queues = Map.set d q s.document_queues;
                  },
                  some t,
                ))
                (add_none s.rotation_index),
      )

  rotate-Turned : (n : ℕ) (s : Scheduler W) → 1 ≤ length s.rotation → Turned n s (rotate n s)
  unfolding rotate advance
  rotate-Turned zero s h = inl (refl, refl, λ k l. ground (arith, l))
  rotate-Turned (suc n) s h =
      turn_step n s (waiting (turn s) s.document_queues) h refl (rotate-Turned n (advance s) h)

  rotate_all : (n : ℕ) (s : Scheduler W) → n ≡ length s.rotation → Turned n s (rotate n s)
  unfolding rotate
  rotate_all zero s e = inl (refl, refl, λ k l. ground (arith, l))
  rotate_all (suc n) s e = rotate-Turned (suc n) s (ground (arith, e))

  -- Under round robin dequeue takes the first task of the first document round the rotation that
  -- has one, and the next turn is that of the document behind it; or it returns null and changes
  -- no queue, and then no document in the rotation has a task.
  pub dequeue-Turned :
      (s : Scheduler W) → s.policy ≡ round_robin → Turned (length s.rotation) s (dequeue s)
  unfolding dequeue
  dequeue-Turned s e =
      subst (Turned (length s.rotation) s)
        (sym (
          ap
            (λ (p : Policy). elim p [
              | fifo ↦ shift s.queue s
              | round_robin ↦ rotate (length s.rotation) s
            ])
            e))
        (rotate_all (length s.rotation) s refl)
