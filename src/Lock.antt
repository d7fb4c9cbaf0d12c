-- ===== src/Lock.antt =====
-- src/engine/lock/LockManager.js: the lock table of two-phase locking. A resource id is a value of
-- any type with an equality test. A promise is named by its request's number, and what settles it is
-- recorded in `settled`, newest first. Time is an argument, and does not run backwards.
pub mod Entry
pub mod Holders
pub mod Queue
pub mod Table
pub mod Reach
pub mod Deadlock
pub mod Tests
use collab_write.Prelude.{
  ℕ, ◌+◌, ◌-◌, Bool, true, false, ◌&&◌, ◌||◌, not, Option, none, some, List, [], ◌∷◌, ◌++◌,
  if◌then◌else◌, eqb, ltb, length, filter, map, nat_key, Key,
}
use collab_write.Prelude.Map
use collab_write.Prelude.Map.{Map}
use Entry.{
  Mode, shared, exclusive, Request, LockInfo, Ledger, Settlement, LockError, timed_out, aborted,
  drain, cancel_in, cancel_each, can_grant, is_upgrade, is_compatible, mode_eqb, no_stats,
}

pub record LockManager (R : Type 0) : Type 0 where
  pub timeout_ms : ℕ
  pub lock_table : Map R LockInfo
  pub ledger : Ledger
  pub next_request : ℕ

pub data Acquired : Type 0 where
  granted : (waited_ms : ℕ) (upgraded : Bool) → Acquired
  pending : (request : ℕ) → Acquired

-- The mode that `holders.get(txId)` gives is equal or stronger.
pub covers : Option Mode → Mode → Bool
covers none mode = false
covers (some held) mode = mode_eqb held mode || mode_eqb held exclusive

-- The body of the loop of `releaseAll`, on one entry.
pub release_entry : ℕ → ℕ → LockInfo → Ledger → LockInfo × Ledger
release_entry tx_id now info ledger =
    let (info', ledger') =
      cancel_each now (λ r. aborted tx_id) (filter (λ r. eqb r.tx_id tx_id) info.wait_queue) info
        ledger in
    if Map.has tx_id info'.holders
    then drain now (record info' { holders = Map.delete tx_id info'.holders }) ledger'
    else (info', ledger')

pub is_used : LockInfo → Bool
is_used info = not (eqb (length info.holders) 0 && eqb (length info.wait_queue) 0)

pub record Edge (R : Type 0) : Type 0 where
  pub waiter : ℕ
  pub holder : ℕ
  pub resource_id : R
  pub mode : Mode

module _ {R : Type 0} ⦃e : Key R⦄ where
  unfoldable pub create : ℕ → LockManager R
  create timeout_ms = record {
    timeout_ms = timeout_ms;
    lock_table = [];
    ledger = no_stats;
    next_request = 0;
  }

  -- `getOrCreate`: the entry, which the caller then stores under the id.
  pub get_or_create : R → Map R LockInfo → LockInfo
  get_or_create r t = elim (Map.get r t) [
    | none ↦ record { holders = []; wait_queue = [] }
    | some info ↦ info
  ]

  pub store : R → LockInfo → Ledger → LockManager R → LockManager R
  store r info ledger m = record m { lock_table = Map.set r info m.lock_table; ledger = ledger }

  pub grant_now : ℕ → R → Mode → Bool → LockInfo → LockManager R → LockManager R × Acquired
  unfolding store
  grant_now tx_id r mode upgraded info m = (
    store r (record info { holders = Map.set tx_id mode info.holders })
        (record m.ledger { granted = m.ledger.granted + 1 }) m,
    granted 0 upgraded,
  )

  pub enqueue : ℕ → R → Mode → ℕ → LockInfo → LockManager R → LockManager R × Acquired
  unfolding store
  enqueue tx_id r mode now info m = (
    record (store r
        (record info {
          wait_queue =
              info.wait_queue
              ++ record {
                request_id = m.next_request;
                tx_id = tx_id;
                mode = mode;
                enqueued_at = now;
              }
                ∷ [];
        })
        (record m.ledger { waited = m.ledger.waited + 1 }) m) { next_request = m.next_request + 1 },
    pending m.next_request,
  )

  -- The branches of `acquire`, on the entry of the resource.
  pub acquire_in : ℕ → R → Mode → ℕ → LockInfo → LockManager R → LockManager R × Acquired
  unfolding covers grant_now enqueue store
  acquire_in tx_id r mode now info m =
      let held = Map.get tx_id info.holders in
      if covers held mode
      then (store r info (record m.ledger { granted = m.ledger.granted + 1 }) m, granted 0 false)
      else if is_upgrade held mode info.holders
      then grant_now tx_id r mode true info m
      else if can_grant info tx_id mode
      then grant_now tx_id r mode false info m
      else enqueue tx_id r mode now info m

  unfoldable pub acquire : ℕ → R → Mode → ℕ → LockManager R → LockManager R × Acquired
  unfolding get_or_create acquire_in
  acquire tx_id r mode now m = acquire_in tx_id r mode now (get_or_create r m.lock_table) m

  unfoldable pub release : ℕ → R → ℕ → LockManager R → LockManager R
  unfolding store
  release tx_id r now m = elim (Map.get r m.lock_table) [
    | none ↦ m
    | some info ↦
        let (info', ledger) =
          drain now (record info { holders = Map.delete tx_id info.holders }) m.ledger in
        store r info' ledger m
  ]

  unfoldable pub cancel_request : R → Request → LockError → ℕ → LockManager R → LockManager R
  unfolding store
  cancel_request r request error now m = elim (Map.get r m.lock_table) [
    | none ↦ m
    | some info ↦
        let (info', ledger) = cancel_in now request error info m.ledger in store r info' ledger m
  ]

  -- The callback of a request's timer.
  unfoldable pub time_out : R → Request → ℕ → LockManager R → LockManager R
  unfolding cancel_request
  time_out r request now m =
      let m' = cancel_request r request (timed_out request.tx_id m.timeout_ms) now m in
      record m' { ledger = record m'.ledger { timeouts = m'.ledger.timeouts + 1 } }

  pub release_entries : ℕ → ℕ → Map R LockInfo → Ledger → Map R LockInfo × Ledger
  unfolding release_entry
  release_entries tx_id now [] ledger = ([], ledger)
  release_entries tx_id now ((r, info) ∷ t) ledger =
      let (info', ledger') = release_entry tx_id now info ledger in
      let (t', ledger'') = release_entries tx_id now t ledger' in ((r, info') ∷ t', ledger'')

  -- `pruneEmpty`
  unfoldable pub prune_empty : Map R LockInfo → Map R LockInfo
  unfolding is_used
  prune_empty = filter (λ p. is_used p.1)

  unfoldable pub release_all : ℕ → ℕ → LockManager R → LockManager R
  unfolding release_entries prune_empty
  release_all tx_id now m =
      let (t, ledger) = release_entries tx_id now m.lock_table m.ledger in
      record m { lock_table = prune_empty t; ledger = ledger }

  -- The innermost loop of `getWaitForEdges`.
  pub edges_to : R → Request → Map ℕ Mode → List (Edge R)
  edges_to r request [] = []
  edges_to r request ((holder, held) ∷ rest) =
      if eqb holder request.tx_id || is_compatible request.mode held
      then edges_to r request rest
      else record { waiter = request.tx_id; holder = holder; resource_id = r; mode = request.mode }
        ∷ edges_to r request rest

  pub edges_of : R → List Request → Map ℕ Mode → List (Edge R)
  edges_of r [] holders = []
  edges_of r (request ∷ queue) holders = edges_to r request holders ++ edges_of r queue holders

  pub edges_in : Map R LockInfo → List (Edge R)
  edges_in [] = []
  edges_in ((r, info) ∷ t) = edges_of r info.wait_queue info.holders ++ edges_in t

  unfoldable pub wait_for_edges : LockManager R → List (Edge R)
  unfolding edges_to edges_of edges_in
  wait_for_edges m = edges_in m.lock_table

  -- `getLocksHeldBy`
  unfoldable pub locks_held_by : ℕ → LockManager R → List R
  locks_held_by tx_id m = map (λ p. p.0) (filter (λ p. Map.has tx_id p.1.holders) m.lock_table)

  pub reset_entries : ℕ → Map R LockInfo → Ledger → Ledger
  reset_entries now [] ledger = ledger
  reset_entries now ((r, info) ∷ t) ledger =
      reset_entries now t
        (cancel_each now (λ request. aborted request.tx_id) info.wait_queue info ledger).1

  -- `reset`: the settlements stay, the table and the counters do not.
  unfoldable pub reset : ℕ → LockManager R → LockManager R
  unfolding reset_entries
  reset now m = record m {
    lock_table = [];
    ledger = record no_stats { settled = (reset_entries now m.lock_table m.ledger).settled };
  }
