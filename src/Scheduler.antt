-- ===== src/Scheduler.antt =====
-- src/engine/scheduler/Scheduler.js: the queue of edit requests and the workers that execute them.
-- A running task is the task of a busy worker; that its promise settles is the call `finish` of the
-- environment. Times are in milliseconds.
pub mod Tasks
pub mod Workers
pub mod Rotation
pub mod Dispatch
pub mod Service
pub mod Tests
use collab_write.Prelude.{
  ℕ, zero, suc, ◌+◌, ◌-◌, ◌%◌, Bool, true, false, Option, none, some, List, [], ◌∷◌, ◌++◌,
  if◌then◌else◌, eqb, length, get_elem?, nat_key, max,
}
use collab_write.Prelude.Map
use collab_write.Prelude.Map.{Map}
use collab_write.Scheduler.Tasks.{Task, insert_by_priority}
use collab_write.Scheduler.Workers
use collab_write.Scheduler.Workers.{Worker, WorkerPool, on_worker}

pub data Policy : Type 0 where
  fifo round_robin : Policy

pub record Stats : Type 0 where
  pub submitted : ℕ
  pub dispatched : ℕ
  pub succeeded : ℕ
  pub failed : ℕ

abbrev pub no_stats : Stats
no_stats = record { submitted = 0; dispatched = 0; succeeded = 0; failed = 0 }

-- A record of `completed`.
pub record Completed : Type 0 where
  pub task_id : ℕ
  pub doc_id : ℕ
  pub priority : Bool
  pub worker_id : Option ℕ
  pub waiting_ms : ℕ
  pub service_ms : ℕ
  pub turnaround_ms : ℕ
  pub failed : Bool

pub record Scheduler (W : Type 0) : Type 0 where
  pub policy : Policy
  pub worker_pool : WorkerPool W
  pub queue : List (Task W)
  pub document_queues : Map ℕ (List (Task W))
  pub rotation : List ℕ
  pub rotation_index : ℕ
  pub next_task_id : ℕ
  pub running : Bool
  pub completed : List Completed
  -- The tasks whose promise is settled, with whether it is rejected.
  pub settled : List (ℕ × Bool)
  pub stats : Stats

-- A time that is not set counts as 0.
at : Option ℕ → ℕ
at none = 0
at (some t) = t

count : Bool → Stats → Stats
count true stats = record stats { failed = stats.failed + 1 }
count false stats = record stats { succeeded = stats.succeeded + 1 }

module _ {W : Type 0} where
  -- The scheduler over the pool of workers that it is given.
  unfoldable pub create_over : Policy → WorkerPool W → Scheduler W
  create_over policy p = record {
    policy = policy;
    worker_pool = p;
    queue = [];
    document_queues = [];
    rotation = [];
    rotation_index = 0;
    next_task_id = 1;
    running = false;
    completed = [];
    settled = [];
    stats = no_stats;
  }

  -- None when the pool cannot be created.
  unfoldable pub create : Policy → ℕ → Option (Scheduler W)
  unfolding create_over
  create policy workers = elim (Workers.create workers) [
    | none ↦ none
    | some p ↦ some (create_over policy p)
  ]

  -- The tasks in the sub-queues.
  unfoldable pub total : Map ℕ (List (Task W)) → ℕ
  total [] = 0
  total ((d, q) ∷ m) = length q + total m

  unfoldable pub queue_length : Scheduler W → ℕ
  unfolding total
  queue_length s = elim s.policy [ fifo ↦ length s.queue | round_robin ↦ total s.document_queues ]

  -- False when tasks are queued, where the call throws.
  unfoldable pub set_policy : Policy → Scheduler W → Scheduler W × Bool
  unfolding queue_length
  set_policy policy s =
      if eqb (queue_length s) 0 then (record s { policy = policy }, true) else (s, false)

  -- The sub-queue of a document, made when there is none.
  unfoldable pub enqueue_in : Option (List (Task W)) → Task W → Scheduler W → Scheduler W
  enqueue_in none t s = record s {
    document_queues = Map.set t.doc_id (insert_by_priority [] t) s.document_queues;
    rotation = s.rotation ++ t.doc_id ∷ [];
  }
  enqueue_in (some q) t s = record s {
    document_queues = Map.set t.doc_id (insert_by_priority q t) s.document_queues;
  }

  unfoldable pub enqueue : Task W → Scheduler W → Scheduler W
  unfolding enqueue_in
  enqueue t s = elim s.policy [
    | fifo ↦ record s { queue = insert_by_priority s.queue t }
    | round_robin ↦ enqueue_in (Map.get t.doc_id s.document_queues) t s
  ]

  -- `queue.shift() || null`
  unfoldable pub shift : List (Task W) → Scheduler W → Scheduler W × Option (Task W)
  shift [] s = (s, none)
  shift (t ∷ q) s = (record s { queue = q }, some t)

  -- The tasks that wait for the document whose turn it is.
  unfoldable pub waiting : Option ℕ → Map ℕ (List (Task W)) → List (Task W)
  waiting none m = []
  waiting (some d) m = elim (Map.get d m) [ none ↦ [] | some q ↦ q ]

  unfoldable pub turn : Scheduler W → Option ℕ
  turn s = get_elem? s.rotation (s.rotation_index % length s.rotation)

  unfoldable pub advance : Scheduler W → Scheduler W
  advance s = record s { rotation_index = (s.rotation_index + 1) % max 1 (length s.rotation) }

  unfoldable pub put_back : Option ℕ → List (Task W) → Scheduler W → Scheduler W
  put_back none q s = s
  put_back (some d) q s = record s { document_queues = Map.set d q s.document_queues }

  -- The loop of `dequeue`, with the attempts that are left.
  unfoldable pub rotate : ℕ → Scheduler W → Scheduler W × Option (Task W)
  unfolding waiting turn advance put_back
  rotate zero s = (s, none)
  rotate (suc n) s = elim (waiting (turn s) s.document_queues) [
    | [] ↦ rotate n (advance s)
    | t ∷ q ↦ (put_back (turn s) q (advance s), some t)
  ]

  unfoldable pub dequeue : Scheduler W → Scheduler W × Option (Task W)
  unfolding shift rotate
  dequeue s = elim s.policy [ fifo ↦ shift s.queue s | round_robin ↦ rotate (length s.rotation) s ]

  id_of : Option (Worker W) → Option ℕ
  id_of none = none
  id_of (some w) = some w.id

  -- Up to the call of `execute`.
  unfoldable pub run : ℕ → ℕ → Task W → Scheduler W → Scheduler W
  unfolding id_of
  run now i t s =
      let t' = record t {
        started_at = some now;
        worker_id = id_of (get_elem? s.worker_pool.workers i);
      } in
      record s {
        worker_pool = on_worker (Workers.assign now t') i s.worker_pool;
        stats = record s.stats { dispatched = s.stats.dispatched + 1 };
      }

  -- The loop of `dispatch`. The tasks that are queued bound its turns.
  unfoldable pub dispatch_loop : ℕ → ℕ → Scheduler W → Scheduler W
  unfolding run dequeue queue_length
  dispatch_loop zero now s = s
  dispatch_loop (suc n) now s = elim (eqb (queue_length s) 0) [
    | true ↦ s
    | false ↦
        let (p, r) = Workers.acquire s.worker_pool in
        elim r [
          | none ↦ record s { worker_pool = p }
          | some i ↦
              let (s', next) = dequeue (record s { worker_pool = p }) in
              elim next [ none ↦ s' | some t ↦ dispatch_loop n now (run now i t s') ]
        ]
  ]

  unfoldable pub dispatch : ℕ → Scheduler W → Scheduler W
  unfolding dispatch_loop queue_length
  dispatch now s = if s.running then dispatch_loop (queue_length s) now s else s

  unfoldable pub start : ℕ → Scheduler W → Scheduler W
  unfolding dispatch
  start now s = dispatch now (record s { running = true })

  unfoldable pub stop : Scheduler W → Scheduler W
  stop s = record s { running = false }

  unfoldable pub submit : ℕ → ℕ → Bool → W → Scheduler W → Scheduler W
  unfolding enqueue dispatch
  submit now doc_id priority work s =
      let t : Task W = record {
        task_id = s.next_task_id;
        doc_id = doc_id;
        priority = priority;
        work = work;
        enqueued_at = now;
        started_at = none;
        finished_at = none;
        worker_id = none;
      } in
      dispatch now (
        enqueue t (record s {
          next_task_id = s.next_task_id + 1;
          stats = record s.stats { submitted = s.stats.submitted + 1 };
        }))

  unfoldable pub finish : ℕ → ℕ → Task W → Bool → Scheduler W → Scheduler W
  unfolding at count dispatch
  finish now i t error s =
      let entry : Completed = record {
        task_id = t.task_id;
        doc_id = t.doc_id;
        priority = t.priority;
        worker_id = t.worker_id;
        waiting_ms = at t.started_at - t.enqueued_at;
        service_ms = now - at t.started_at;
        turnaround_ms = now - t.enqueued_at;
        failed = error;
      } in
      dispatch now (record s {
        completed = s.completed ++ entry ∷ [];
        stats = count error s.stats;
        settled = s.settled ++ (t.task_id, error) ∷ [];
        worker_pool = on_worker (Workers.release now) i s.worker_pool;
      })

  unfoldable pub reset_metrics : Scheduler W → Scheduler W
  reset_metrics s = record s { completed = []; stats = no_stats }
