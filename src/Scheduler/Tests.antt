-- ===== src/Scheduler/Tests.antt =====
-- Runs of the scheduler and the worker pool, and their theorems at concrete states.
use collab_write.Prelude.{
  ℕ, ◌+◌, ◌<◌, ◌≡◌, refl, ◌⊎◌, Bool, true, false, none, List, [], ◌∷◌, length, nat_key,
}
use collab_write.Scheduler.Tasks.{Task}
use collab_write.Scheduler.Workers
use collab_write.Scheduler.Workers.{WorkerState, Worker, WorkerPool, idle_at}
use collab_write.Scheduler.Workers.Acquire.{place, taken, acquire-cases}
use collab_write.Scheduler.{
  Scheduler, fifo, round_robin, create_over, total, queue_length, dequeue, no_stats,
}
use collab_write.Scheduler.Rotation.{Turned, dequeue-Turned}
use collab_write.Scheduler.Service.{
  Call, starts, submits, finishes, sets_policy, run_calls, work_conserving,
}

abbrev task : ℕ → ℕ → Bool → Task ℕ
task id d priority = record {
  task_id = id;
  doc_id = d;
  priority = priority;
  work = 0;
  enqueued_at = 0;
  started_at = none;
  finished_at = none;
  worker_id = none;
}

abbrev worker : ℕ → WorkerState → Worker ℕ
worker id state = record {
  id = id;
  state = state;
  current_task = none;
  tasks_processed = 0;
  busy_ms = 0;
  started_at = none;
}

-- The cursor is at a busy worker.
abbrev pool : WorkerPool ℕ
pool = record {
  workers = worker 1 WorkerState.idle ∷ worker 2 WorkerState.busy ∷ worker 3 WorkerState.idle ∷ [];
  cursor = 1;
}

acquire-cases_example :
    ((Workers.acquire pool ≡ (pool, none)) × ((i : ℕ) → i < 3 → idle_at pool.workers i ≡ false))
    ⊎ ((j : ℕ) × (j < 3)
        × (idle_at pool.workers (place pool j) ≡ true)
        × ((k : ℕ) → k < j → idle_at pool.workers (place pool k) ≡ false)
        × (Workers.acquire pool ≡ taken pool j))
acquire-cases_example = acquire-cases pool

-- Two documents, the first of which has no task left.
abbrev turning : Scheduler ℕ
turning = record {
  policy = round_robin;
  worker_pool = pool;
  queue = [];
  document_queues = (7, []) ∷ (8, task 5 8 false ∷ []) ∷ [];
  rotation = 7 ∷ 8 ∷ [];
  rotation_index = 0;
  next_task_id = 6;
  running = true;
  completed = [];
  settled = [];
  stats = no_stats;
}

dequeue-Turned_example : Turned 2 turning (dequeue turning)
dequeue-Turned_example = dequeue-Turned turning refl

abbrev calls : List (Call ℕ)
calls =
    submits 0 7 false 0
    ∷ submits 1 8 true 0
    ∷ starts 2
    ∷ submits 3 7 false 0
    ∷ finishes 4 0 (task 1 7 false) false
    ∷ sets_policy round_robin
    ∷ submits 5 7 false 0
    ∷ submits 6 8 false 0
    ∷ []

work_conserving_example :
    let s = run_calls calls (create_over fifo pool) in
    ((s.running ≡ false)
      ⊎ (queue_length s ≡ 0)
      ⊎ ((i : ℕ) → i < length s.worker_pool.workers → idle_at s.worker_pool.workers i ≡ false))
    × (length s.queue + total s.document_queues ≡ queue_length s)
work_conserving_example = work_conserving fifo pool calls
