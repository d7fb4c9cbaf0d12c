-- ===== src/Transaction/Manager.antt =====
-- src/engine/transaction/TransactionManager.js over the lock manager, the log, the conflict resolver
-- and what it uses of the buffer pool and the storage manager. The transaction that a call is given
-- is an object that its caller holds: the call returns it as it leaves it. The map `active` is the
-- list of its keys. `await` splits `acquireLock`: the request, and what follows when it is granted.
pub mod Access
pub mod Ending
pub mod Abort
mod Tests
pub mod Counts
pub mod Reasons
pub mod Accounting
pub mod Written
pub mod Logging
use mathlib.Core.List.{reverse}
use collab_write.Prelude.{
  ℕ, ◌+◌, ◌≡◌, Bool, true, false, not, Option, none, some, List, [], ◌∷◌, if◌then◌else◌, ltb, eqb,
  mem, without, add, length, Key,
}
use collab_write.Conflict
use collab_write.Conflict.{ConflictError, assert_no_conflict}
use collab_write.Lock.{LockManager, Acquired, acquire, release_all}
use collab_write.Lock.Entry.{Mode}
use collab_write.Recovery.Manager.{Pages}
use collab_write.Recovery.Wal.{Wal, append, begin_code, update_code, commit_code, abort_code}
use collab_write.Storage.Page.{
  Page, Record, Outcome, returned, page_full, range_error, list_records,
}
use collab_write.Storage.Page.Checksum.{serialize}
use collab_write.Transaction.{
  Transaction, TxState, active, committed, aborted, is_active, record_lock, record_read,
  record_write, duration_ms, create,
}

-- What reads and writes ask of the buffer pool. A call that throws gives none; `install` is the
-- change of the page object that the pool holds.
pub record Frames (State Pool : Type 0) : Type 0 where
  pub fetch_page : ℕ → Pool → State → Option Page × Pool × State
  pub install : ℕ → Page → Pool → Pool
  pub unpin_page : ℕ → Bool → Pool → Pool
  pub flush_page : ℕ → Pool → State → Option (Pool × State)

-- What is thrown.
pub data Fault : Type 0 where
  deadlock : Fault
  not_active : TxState → Fault
  conflict : ConflictError → Fault
  log_failed : Fault
  page_failed : Fault

pub data Reply {ℓ} (A : Type ℓ) : Type ℓ where
  ok : A → Reply A
  thrown : Fault → Reply A

pub record Stats : Type 0 where
  pub begun : ℕ
  pub committed : ℕ
  pub aborted : ℕ
  pub total_commit_ms : ℕ

pub record TransactionManager (State Pool R : Type 0) : Type 0 where
  pub storage : State
  pub buffer_pool : Pool
  pub lock_manager : LockManager R
  pub wal : Wal
  pub conflict_resolver : Option Conflict.Stats
  pub next_tx_id : ℕ
  pub active_ids : List ℕ
  pub stats : Stats
  pub deadlock_victims : List ℕ

-- The loop of `pageVersion`.
unfoldable pub max_version : List Record → ℕ → ℕ
max_version [] version = version
max_version (r ∷ rs) version = max_version rs (if ltb version r.version then r.version else version)

unfoldable pub page_version : Page → Option ℕ
page_version p = elim (list_records p.buffer) [ none ↦ none | some rs ↦ some (max_version rs 0) ]

module _ {State Pool R : Type 0} where
  -- A logged record, or the throw of the log.
  unfoldable pub log :
      ℕ
      → ℕ
      → ℕ
      → Option (List ℕ)
      → Option (List ℕ)
      → Bool
      → TransactionManager State Pool R
      → TransactionManager State Pool R × Option ℕ
  log type tx_id page_id before_image after_image sync m =
      let (wal, lsn) = append type tx_id page_id before_image after_image sync m.wal in
      (record m { wal = wal }, lsn)

  unfoldable pub begin :
      ℕ
      → TransactionManager State Pool R
      → TransactionManager State Pool R × Reply (Transaction R (List ℕ))
  begin now m0 =
      let tx : Transaction R (List ℕ) = create now m0.next_tx_id in
      let (m, lsn) =
        log begin_code tx.tx_id 0 none none false (record m0 { next_tx_id = m0.next_tx_id + 1 }) in
      elim lsn [
        | none ↦ (m, thrown log_failed)
        | some n ↦ (
          record m {
            active_ids = add tx.tx_id m.active_ids;
            stats = record m.stats { begun = m.stats.begun + 1 };
          },
          ok (record tx { start_lsn = some n }),
        )
      ]

  -- `get`: whether the id is that of a transaction in the map.
  unfoldable pub is_registered : ℕ → TransactionManager State Pool R → Bool
  is_registered tx_id m = mem tx_id m.active_ids

  unfoldable pub assert_active :
      Transaction R (List ℕ)
      → TransactionManager State Pool R
      → TransactionManager State Pool R × Option Fault
  assert_active t m =
      if mem t.tx_id m.deadlock_victims
      then (record m { deadlock_victims = without t.tx_id m.deadlock_victims }, some deadlock)
      else if is_active t
      then (m, none)
      else (m, some (not_active t.state))

  -- `acquireLock` up to its `await`.
  unfoldable pub request_lock :
      ⦃key : Key R⦄
      → ℕ
      → Transaction R (List ℕ)
      → R
      → Mode
      → TransactionManager State Pool R
      → TransactionManager State Pool R × Reply Acquired
  request_lock now t r mode m0 =
      let (m, fault) = assert_active t m0 in
      elim fault [
        | some f ↦ (m, thrown f)
        | none ↦
            let (locks, a) = acquire t.tx_id r mode now m.lock_manager in
            (record m { lock_manager = locks }, ok a)
      ]

  -- What follows when the lock is granted.
  unfoldable pub lock_granted :
      ⦃key : Key R⦄
      → ℕ
      → R
      → Transaction R (List ℕ)
      → TransactionManager State Pool R
      → TransactionManager State Pool R × Transaction R (List ℕ) × Reply R
  lock_granted waited_ms r t m0 =
      let u = record_lock r (record t { lock_wait_ms = t.lock_wait_ms + waited_ms }) in
      let (m, fault) = assert_active u m0 in (m, u, elim fault [ some f ↦ thrown f | none ↦ ok r ])

  unfoldable pub mark_deadlock_victim :
      ⦃key : Key R⦄ → ℕ → ℕ → TransactionManager State Pool R → TransactionManager State Pool R
  mark_deadlock_victim tx_id now m =
      if mem tx_id m.active_ids
      then record m {
        deadlock_victims = add tx_id m.deadlock_victims;
        lock_manager = release_all tx_id now m.lock_manager;
      }
      else m

  -- The optimistic check of `write`, when a version is expected and there is a resolver.
  unfoldable pub check_version :
      ℕ
      → ℕ
      → Option ℕ
      → ℕ
      → TransactionManager State Pool R
      → TransactionManager State Pool R × Option ConflictError
  check_version tx_id page_id expected actual m = elim expected [
    | none ↦ (m, none)
    | some v ↦ elim m.conflict_resolver [
      | none ↦ (m, none)
      | some s ↦
          let (s', c) = assert_no_conflict s (record {
            tx_id = tx_id;
            page_id = page_id;
            expected_version = v;
            actual_version = actual;
          }) in
          (record m { conflict_resolver = some s' }, c)
    ]
  ]
