-- ===== src/Scheduler/Service.antt =====
-- Runs of src/engine/scheduler/Scheduler.js: which tasks wait after any calls.
use collab_write.Prelude.{
  ℕ, ◌+◌, ◌<◌, ◌≡◌, refl, ap, sym, subst, ◌∙◌, ◌⊎◌, inl, inr, Bool, true, false, Bool-cases, Option,
  none, some, List, [], ◌∷◌, length, mem-append, nat_key, arith, if_intro, eqb,
}
use collab_write.Prelude.Map
use collab_write.Prelude.Map.{Map, Distinct, set-Distinct, has-set, has-set_present, has_of_get}
use collab_write.Scheduler.Tasks.{Task, insert_by_priority, length-insert_by_priority}
use collab_write.Scheduler.{
  Scheduler, Policy, fifo, round_robin, create_over, total, queue_length, set_policy, enqueue,
  enqueue_in, dispatch, start, stop, submit, finish, reset_metrics,
}
use collab_write.Scheduler.Workers.{WorkerPool, idle_at}
use collab_write.Scheduler.Dispatch.{
  Policy-cases, IsServing, IsSaturated, Done, dispatch_loop-Done, pool-IsServing, length_rr,
  length_fifo,
}

-- The calls of the scheduler; `finishes` is the settling of the promise of a task.
pub data Call (W : Type 0) : Type 0 where
  starts : ℕ → Call W
  stops resets : Call W
  submits : ℕ → ℕ → Bool → W → Call W
  finishes : ℕ → ℕ → Task W → Bool → Call W
  sets_policy : Policy → Call W

module _ {W : Type 0} where
  unfoldable pub step : Call W → Scheduler W → Scheduler W
  step (starts now) s = start now s
  step stops s = stop s
  step resets s = reset_metrics s
  step (submits now d priority work) s = submit now d priority work s
  step (finishes now i t error) s = finish now i t error s
  step (sets_policy p) s = (set_policy p s).0

  unfoldable pub run_calls : List (Call W) → Scheduler W → Scheduler W
  run_calls [] s = s
  run_calls (c ∷ cs) s = run_calls cs (step c s)

  -- What holds between the calls.
  pub record IsKept (s : Scheduler W) : Type 0 where
    pub serving : IsServing s
    pub saturated : (s.running ≡ false) ⊎ IsSaturated s

  dispatch-IsKept : (now : ℕ) (s : Scheduler W) → IsServing s → IsKept (dispatch now s)
  unfolding dispatch Done
  dispatch-IsKept now s h =
      if_intro IsKept s.running _ _
        (λ _.
          let (a, b) = dispatch_loop-Done (queue_length s) now s refl h in
          record { serving = b; saturated = inr a })
        (λ e. record { serving = h; saturated = inl e })

  total-set_new :
      (d : ℕ) (q : List (Task W)) (m : Map ℕ (List (Task W)))
      → Map.get d m ≡ none
      → total (Map.set d q m) ≡ length q + total m
  unfolding total Map.get Map.set
  total-set_new d q [] e = refl
  total-set_new d q ((k, r) ∷ m) e = elim (Bool-cases (eqb k d)) [
    | inl h ↦ ground (arith, h, e)
    | inr h ↦ ground (arith, h, e, total-set_new d q m)
  ]

  total-set_more :
      (d : ℕ) (q r : List (Task W)) (m : Map ℕ (List (Task W)))
      → Map.get d m ≡ some q
      → length r ≡ length q + 1
      → total (Map.set d r m) ≡ total m + 1
  unfolding total Map.get Map.set
  total-set_more d q r [] e l = ground (arith, e)
  total-set_more d q r ((k, x) ∷ m) e l = elim (Bool-cases (eqb k d)) [
    | inl h ↦ ground (arith, h, e, l, λ (y : x ≡ q). ap length y)
    | inr h ↦ ground (arith, h, e, l, total-set_more d q r m)
  ]

  enqueue_fifo :
      (t : Task W) (s : Scheduler W)
      → s.policy ≡ fifo
      → IsServing s
      → IsServing (record s { queue = insert_by_priority s.queue t })
  enqueue_fifo t s e h = record {
    turns = h.turns;
    queues_Distinct = h.queues_Distinct;
    counted = ground (
      arith,
      h.counted,
      length_fifo s e,
      length_fifo (record s { queue = insert_by_priority s.queue t }) e,
      length-insert_by_priority s.queue t,
    );
  }

  enqueue_rr :
      (t : Task W) (s : Scheduler W) (o : Option (List (Task W)))
      → s.policy ≡ round_robin
      → Map.get t.doc_id s.document_queues ≡ o
      → IsServing s
      → IsServing (enqueue_in o t s)
  unfolding enqueue_in
  enqueue_rr t s none e g h =
      let q = insert_by_priority [] t in
      let s' = enqueue_in none t s in
      record {
        turns = λ d b.
            mem-append d s.rotation (t.doc_id ∷ [])
            ∙ ground (arith, b, h.turns d, has-set t.doc_id d q s.document_queues);
        queues_Distinct = set-Distinct t.doc_id q s.document_queues h.queues_Distinct;
        counted = ground (
          arith,
          h.counted,
          length_rr s e,
          length_rr s' e,
          total-set_new t.doc_id q s.document_queues g,
        );
      }
  enqueue_rr t s (some q) e g h =
      let r = insert_by_priority q t in
      let s' = enqueue_in (some q) t s in
      record {
        turns = λ d b. h.turns d (
            sym (
              has-set_present t.doc_id d r s.document_queues
                (has_of_get t.doc_id s.document_queues g))
            ∙ b);
        queues_Distinct = set-Distinct t.doc_id r s.document_queues h.queues_Distinct;
        counted = ground (
          arith,
          h.counted,
          length_rr s e,
          length_rr s' e,
          total-set_more t.doc_id q r s.document_queues g (length-insert_by_priority q t),
        );
      }

  enqueue-IsServing : (t : Task W) (s : Scheduler W) → IsServing s → IsServing (enqueue t s)
  unfolding enqueue
  enqueue-IsServing t s h =
      let by : Policy → Scheduler W = λ p. elim p [
        | fifo ↦ record s { queue = insert_by_priority s.queue t }
        | round_robin ↦ enqueue_in (Map.get t.doc_id s.document_queues) t s
      ] in
      elim (Policy-cases s.policy) [
        | inl e ↦ subst (λ (p : Policy). IsServing (by p)) (sym e) (enqueue_fifo t s e h)
        | inr e ↦
            subst (λ (p : Policy). IsServing (by p)) (sym e)
              (enqueue_rr t s (Map.get t.doc_id s.document_queues) e refl h)
      ]

  set_policy-IsKept : (p : Policy) (s : Scheduler W) → IsKept s → IsKept (set_policy p s).0
  unfolding set_policy IsSaturated
  set_policy-IsKept p s h =
      if_intro (λ (r : Scheduler W × Bool). IsKept r.0) (eqb (queue_length s) 0) _ _
        (λ e.
          let s' : Scheduler W = record s { policy = p } in
          let z : queue_length s' ≡ 0 = elim (Policy-cases p) [
            | inl f ↦ ground (arith, e, h.serving.counted, length_fifo s' f)
            | inr f ↦ ground (arith, e, h.serving.counted, length_rr s' f)
          ] in
          record {
            serving = pool-IsServing s s' refl refl refl (ground (arith, e, z)) h.serving;
            saturated = inr (inl z);
          })
        (λ _. h)

  step-IsKept : (c : Call W) (s : Scheduler W) → IsKept s → IsKept (step c s)
  unfolding step start stop submit finish reset_metrics IsSaturated queue_length
  step-IsKept (starts now) s h =
      dispatch-IsKept now (record s { running = true })
        (pool-IsServing s _ refl refl refl refl h.serving)
  step-IsKept stops s h = record {
    serving = pool-IsServing s (stop s) refl refl refl refl h.serving;
    saturated = inl refl;
  }
  step-IsKept resets s h = record {
    serving = pool-IsServing s (reset_metrics s) refl refl refl refl h.serving;
    saturated = h.saturated;
  }
  step-IsKept (submits now d priority work) s h =
      dispatch-IsKept now _
        (enqueue-IsServing _ _ (pool-IsServing s _ refl refl refl refl h.serving))
  step-IsKept (finishes now i t error) s h =
      dispatch-IsKept now _ (pool-IsServing s _ refl refl refl refl h.serving)
  step-IsKept (sets_policy p) s h = set_policy-IsKept p s h

  run-IsKept : (cs : List (Call W)) (s : Scheduler W) → IsKept s → IsKept (run_calls cs s)
  unfolding run_calls
  run-IsKept [] s h = h
  run-IsKept (c ∷ cs) s h = run-IsKept cs (step c s) (step-IsKept c s h)

  -- After any calls on a new scheduler that runs, no task waits or no worker is idle; and the
  -- tasks in all its queues are those that the policy counts, so that a change of policy leaves
  -- none behind.
  pub work_conserving :
      (policy : Policy) (p : WorkerPool W) (cs : List (Call W))
      → let s = run_calls cs (create_over policy p) in
        ((s.running ≡ false)
          ⊎ (queue_length s ≡ 0)
          ⊎ ((i : ℕ) → i < length s.worker_pool.workers → idle_at s.worker_pool.workers i ≡ false))
        × (length s.queue + total s.document_queues ≡ queue_length s)
  unfolding IsSaturated create_over queue_length total Map.has
  work_conserving policy p cs =
      let z : queue_length (create_over policy p) ≡ 0 = elim (Policy-cases policy) [
        | inl e ↦ length_fifo (create_over policy p) e
        | inr e ↦ length_rr (create_over policy p) e
      ] in
      let h = run-IsKept cs (create_over policy p) (record {
        serving = record {
          turns = λ d b. ground (arith, b);
          queues_Distinct = tt;
          counted = ground (arith, z);
        };
        saturated = inl refl;
      }) in
      (h.saturated, h.serving.counted)
