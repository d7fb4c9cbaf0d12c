-- ===== src/Scheduler/Dispatch.antt =====
-- `dispatch` of src/engine/scheduler/Scheduler.js leaves no idle worker beside a waiting task.
use collab_write.Prelude.{
  ℕ, zero, suc, ◌+◌, ◌<◌, ◌≡◌, refl, ap, sym, subst, ◌∙◌, ◌⊎◌, inl, inr, true, false, Bool-cases,
  Option, Option-cases, none, some, List, [], ◌∷◌, length, get_elem?, mem, nat_key, arith,
  option_intro, bool_intro, eqb, eqb_iff,
}
use collab_write.Prelude.Map
use collab_write.Prelude.Map.{
  Map, Distinct, set-Distinct, has-set, has-set_present, has_of_get, get_absent,
}
use collab_write.Scheduler.Tasks.{Task}
use collab_write.Scheduler.Workers
use collab_write.Scheduler.Workers.{WorkerPool, idle_at}
use collab_write.Scheduler.Workers.Acquire.{visits, acquire-cases}
use collab_write.Scheduler.{
  Scheduler, Policy, fifo, round_robin, total, queue_length, dequeue, shift, waiting, rotate, run,
  dispatch_loop,
}
use collab_write.Scheduler.Rotation.{dequeue-Turned, slot, served}

mem-place :
    (d : ℕ) (xs : List ℕ) → mem d xs ≡ true → (i : ℕ) × (i < length xs) × (get_elem? xs i ≡ some d)
mem-place d [] h = ground (arith, h)
mem-place d (x ∷ xs) h = elim (Bool-cases (eqb x d)) [
  | inl e ↦ (0, ground arith, ap some ((eqb_iff x d).0 e))
  | inr e ↦ let (i, l, g) = mem-place d xs (ground (arith, h, e)) in (suc i, ground (arith, l), g)
]

pub Policy-cases : (p : Policy) → (p ≡ fifo) ⊎ (p ≡ round_robin)
Policy-cases fifo = inl refl
Policy-cases round_robin = inr refl

none_idle :
    {W : Type 0} (p : WorkerPool W)
    → (Workers.acquire p).1 ≡ none
    → (i : ℕ) → i < length (Workers.acquire p).0.workers
    → idle_at (Workers.acquire p).0.workers i ≡ false
none_idle p e = elim (acquire-cases p) [
  | inl (r, all) ↦ rw r all
  | inr (j, l, i, b, r) ↦ ground (arith, e, r)
]

module _ {W : Type 0} where
  total-set :
      (d : ℕ) (t : Task W) (q : List (Task W)) (m : Map ℕ (List (Task W)))
      → Map.get d m ≡ some (t ∷ q)
      → suc (total (Map.set d q m)) ≡ total m
  unfolding total Map.get Map.set
  total-set d t q [] e = ground (arith, e)
  total-set d t q ((k, r) ∷ m) e = elim (Bool-cases (eqb k d)) [
    | inl h ↦ ground (arith, h, e, λ (x : r ≡ t ∷ q). ap length x)
    | inr h ↦ ground (arith, h, e, total-set d t q m)
  ]

  total_zero :
      (m : Map ℕ (List (Task W))) → Distinct m → ((d : ℕ) → waiting (some d) m ≡ []) → total m ≡ 0
  unfolding total waiting Map.get
  total_zero [] h all = refl
  total_zero ((k, r) ∷ m) h all =
      let e : r ≡ [] = ground (arith, all k, eqb_iff k k) in
      let rest : (d : ℕ) → waiting (some d) m ≡ [] = λ d. elim (Bool-cases (eqb k d)) [
        | inl q ↦ ground (arith, q, ap (λ i. Map.get i m) ((eqb_iff k d).0 q), get_absent k m h.0)
        | inr q ↦ ground (arith, q, all d)
      ] in
      ground (arith, ap length e, total_zero m h.1 rest)

  -- Each sub-queue has a turn, and the tasks that are queued are those that the policy counts.
  pub record IsServing (s : Scheduler W) : Type 0 where
    pub turns : (d : ℕ) → Map.has d s.document_queues ≡ true → mem d s.rotation ≡ true
    pub queues_Distinct : Distinct s.document_queues
    pub counted : length s.queue + total s.document_queues ≡ queue_length s

  -- A sub-queue that has a task has a turn.
  slot_of :
      (s : Scheduler W) (d : ℕ)
      → IsServing s
      → ((k : ℕ) → k < length s.rotation → slot s k ≡ [])
      → waiting (some d) s.document_queues ≡ []
  unfolding waiting
  slot_of s d h all = elim (Option-cases (Map.get d s.document_queues)) [
    | inl e ↦ ground (arith, e)
    | inr (q, e) ↦
        let (i, l, g) = mem-place d s.rotation (h.turns d (has_of_get d s.document_queues e)) in
        let (k, b, v) = visits s.rotation_index (length s.rotation) i l in
        subst (λ o. waiting o s.document_queues ≡ []) (ap (get_elem? s.rotation) v ∙ g) (all k b)
  ]

  -- While tasks are queued, `dequeue` gives one, and the others stay queued.
  Dequeued : Scheduler W → ℕ → Type 0
  Dequeued s n =
      (s' : Scheduler W) × (t : Task W) × (dequeue s ≡ (s', some t))
      × (queue_length s' ≡ n)
      × IsServing s'
      × (s'.worker_pool ≡ s.worker_pool)

  pub length_rr :
      (s : Scheduler W) → s.policy ≡ round_robin → queue_length s ≡ total s.document_queues
  unfolding queue_length
  length_rr s e =
      ap (λ (p : Policy). elim p [ fifo ↦ length s.queue | round_robin ↦ total s.document_queues ])
        e

  pub length_fifo : (s : Scheduler W) → s.policy ≡ fifo → queue_length s ≡ length s.queue
  unfolding queue_length
  length_fifo s e =
      ap (λ (p : Policy). elim p [ fifo ↦ length s.queue | round_robin ↦ total s.document_queues ])
        e

  dequeue_rr :
      (s : Scheduler W) (n : ℕ)
      → s.policy ≡ round_robin
      → queue_length s ≡ suc n
      → IsServing s
      → Dequeued s n
  unfolding Dequeued
  dequeue_rr s n e l h = elim (dequeue-Turned s e) [
    | inl (r, c, all) ↦ ground (
      arith,
      length_rr s e,
      l,
      total_zero s.document_queues h.queues_Distinct (λ d. slot_of s d h all),
    )
    | inr (j, d, t, q, b, all, g, u, r) ↦
        let c = length_rr s e in
        let c' = length_rr (served s j d q) e in
        let f = total-set d t q s.document_queues g in
        (
          served s j d q,
          t,
          r,
          ground (arith, l, c, c', f),
          record {
            turns = λ i b. h.turns i (
                sym (has-set_present d i q s.document_queues (has_of_get d s.document_queues g))
                ∙ b);
            queues_Distinct = set-Distinct d q s.document_queues h.queues_Distinct;
            counted = ground (arith, h.counted, c, c', f);
          },
          refl,
        )
  ]

  dequeue_fifo :
      (s : Scheduler W) (n : ℕ) (xs : List (Task W))
      → s.policy ≡ fifo
      → s.queue ≡ xs
      → queue_length s ≡ suc n
      → IsServing s
      → Dequeued s n
  unfolding Dequeued dequeue shift
  dequeue_fifo s n [] e f l h = ground (arith, l, length_fifo s e, ap length f)
  dequeue_fifo s n (x ∷ xs) e f l h =
      let c = length_fifo s e in
      let c' = length_fifo (record s { queue = xs }) e in
      let len = ap length f in
      (
        record s { queue = xs },
        x,
        ap
              (λ (p : Policy). elim p [
                | fifo ↦ shift s.queue s
                | round_robin ↦ rotate (length s.rotation) s
              ])
              e
            ∙ ap (λ q. shift q s) f,
        ground (arith, l, c, c', len),
        record {
          turns = h.turns;
          queues_Distinct = h.queues_Distinct;
          counted = ground (arith, h.counted, c, c', len);
        },
        refl,
      )

  dequeue-Dequeued : (s : Scheduler W) (n : ℕ) → queue_length s ≡ suc n → IsServing s → Dequeued s n
  dequeue-Dequeued s n l h = elim (Policy-cases s.policy) [
    | inl e ↦ dequeue_fifo s n s.queue e refl l h
    | inr e ↦ dequeue_rr s n e l h
  ]

  -- No task waits, or no worker is idle.
  unfoldable pub IsSaturated : Scheduler W → Type 0
  IsSaturated s =
      (queue_length s ≡ 0)
      ⊎ ((i : ℕ) → i < length s.worker_pool.workers → idle_at s.worker_pool.workers i ≡ false)

  -- The pool and the counters do not matter to what is queued.
  pub pool-IsServing :
      (s s' : Scheduler W)
      → s'.queue ≡ s.queue
      → s'.document_queues ≡ s.document_queues
      → s'.rotation ≡ s.rotation
      → queue_length s' ≡ queue_length s
      → IsServing s
      → IsServing s'
  pool-IsServing s s' e f g i h = record {
    turns = rw (f, g) h.turns;
    queues_Distinct = rw f h.queues_Distinct;
    counted = ground (arith, ap length e, ap total f, i, h.counted);
  }

  unfoldable pub Done : Scheduler W → Type 0
  Done s = IsSaturated s × IsServing s

  pub dispatch_loop-Done :
      (n now : ℕ) (s : Scheduler W)
      → queue_length s ≡ n
      → IsServing s
      → Done (dispatch_loop n now s)
  unfolding dispatch_loop IsSaturated Done run Dequeued queue_length
  dispatch_loop-Done zero now s l h = (inl l, h)
  dispatch_loop-Done (suc n) now s l h =
      let p = (Workers.acquire s.worker_pool).0 in
      let s1 : Scheduler W = record s { worker_pool = p } in
      let h1 = pool-IsServing s s1 refl refl refl refl h in
      bool_intro Done (eqb (queue_length s) 0) _ _
        (λ e. (inl ((eqb_iff (queue_length s) 0).0 e), h))
        (λ _.
          option_intro Done (Workers.acquire s.worker_pool).1 s1 _
            (λ e. (inr (none_idle s.worker_pool e), h1))
            (λ i e.
              let (s', t, r, l', h', _) = dequeue-Dequeued s1 n l h1 in
              subst
                (λ (d : Scheduler W × Option (Task W)).
                  Done (elim d.1 [ none ↦ d.0 | some t ↦ dispatch_loop n now (run now i t d.0) ]))
                (sym r)
                (dispatch_loop-Done n now (run now i t s') l'
                  (pool-IsServing s' (run now i t s') refl refl refl refl h'))))
