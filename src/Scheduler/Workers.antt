-- ===== src/Scheduler/Workers.antt =====
-- src/engine/scheduler/WorkerPool.js: workers that own one task at a time. A worker is named by its
-- place in the pool. Times are in milliseconds.
pub mod Acquire
use collab_write.Prelude.{
  ℕ, zero, suc, ◌+◌, ◌-◌, ◌%◌, ◌≤◌, ◌<◌, ◌≡◌, refl, ap, sym, subst, ◌∙◌, ◌⊎◌, inl, inr, Bool, true,
  false, not, Option, none, some, List, [], ◌∷◌, ◌++◌, if◌then◌else◌, ltb, leb, length, get_elem?,
  set, filter, arith, Bool-cases, Option-cases, if_intro, option_intro,
}
use collab_write.Scheduler.Tasks.{Task}

pub data WorkerState : Type 0 where
  idle busy : WorkerState

pub record Worker (W : Type 0) : Type 0 where
  pub id : ℕ
  pub state : WorkerState
  pub current_task : Option (Task W)
  pub tasks_processed : ℕ
  pub busy_ms : ℕ
  pub started_at : Option ℕ

pub record WorkerPool (W : Type 0) : Type 0 where
  pub workers : List (Worker W)
  pub cursor : ℕ

-- The time since the worker was given its task.
busy_time : ℕ → Option ℕ → ℕ
busy_time now none = 0
busy_time now (some t) = now - t

module _ {W : Type 0} where
  fresh : ℕ → Worker W
  fresh id = record {
    id = id;
    state = idle;
    current_task = none;
    tasks_processed = 0;
    busy_ms = 0;
    started_at = none;
  }

  -- The workers numbered from `id` on.
  fresh_from : ℕ → ℕ → List (Worker W)
  unfolding fresh
  fresh_from id zero = []
  fresh_from id (suc n) = fresh id ∷ fresh_from (id + 1) n

  -- None when the size is below 1, where the constructor throws.
  unfoldable pub create : ℕ → Option (WorkerPool W)
  unfolding fresh_from
  create size =
      if ltb size 1 then none else some (record { workers = fresh_from 1 size; cursor = 0 })

  unfoldable pub is_idle : Worker W → Bool
  is_idle w = elim w.state [ idle ↦ true | busy ↦ false ]

  unfoldable pub assign : ℕ → Task W → Worker W → Worker W
  assign now t w = record w { state = busy; current_task = some t; started_at = some now }

  unfoldable pub release : ℕ → Worker W → Worker W
  unfolding busy_time
  release now w = record w {
    busy_ms = w.busy_ms + busy_time now w.started_at;
    state = idle;
    current_task = none;
    started_at = none;
    tasks_processed = w.tasks_processed + 1;
  }

  unfoldable pub idle_count : WorkerPool W → ℕ
  unfolding is_idle
  idle_count p = length (filter is_idle p.workers)

  unfoldable pub idle_at : List (Worker W) → ℕ → Bool
  unfolding is_idle
  idle_at ws i = elim (get_elem? ws i) [ none ↦ false | some w ↦ is_idle w ]

  -- The loop of `acquire`, with the number of workers still to be looked at.
  unfoldable pub scan : ℕ → ℕ → WorkerPool W → WorkerPool W × Option ℕ
  unfolding idle_at
  scan zero offset p = (p, none)
  scan (suc n) offset p =
      let index = (p.cursor + offset) % length p.workers in
      let rest = scan n (offset + 1) p in
      if idle_at p.workers index
      then (record p { cursor = (index + 1) % length p.workers }, some index)
      else rest

  unfoldable pub acquire : WorkerPool W → WorkerPool W × Option ℕ
  unfolding scan
  acquire p = scan (length p.workers) 0 p

  change : (Worker W → Worker W) → Option (Worker W) → ℕ → WorkerPool W → WorkerPool W
  change f none i p = p
  change f (some w) i p = record p { workers = set p.workers i (f w) }

  -- A method of the worker at a place.
  unfoldable pub on_worker : (Worker W → Worker W) → ℕ → WorkerPool W → WorkerPool W
  unfolding change
  on_worker f i p = change f (get_elem? p.workers i) i p
