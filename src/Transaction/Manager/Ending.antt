-- ===== src/Transaction/Manager/Ending.antt =====
-- `commit`, `abort` and the end of `runInTransaction` in
-- src/engine/transaction/TransactionManager.js.
use mathlib.Core.List.{reverse}
use collab_write.Prelude.{
  ℕ, ◌+◌, Bool, true, false, not, Option, none, some, List, [], ◌∷◌, if◌then◌else◌, eqb, without,
  length, Key,
}
use collab_write.Lock.{release_all}
use collab_write.Recovery.Manager.{Pages}
use collab_write.Recovery.Wal.{commit_code, abort_code}
use collab_write.Transaction.{Transaction, committed, aborted, duration_ms}
use collab_write.Transaction.Manager.{
  TransactionManager, Frames, Fault, page_failed, log_failed, log, assert_active,
}

module _ (pages : Pages) (frames : Frames pages.State pages.Pool) {R : Type 0} where
  -- The loop of `commit`; none when a flush throws, with what was flushed before it.
  unfoldable pub flush_pages :
      List ℕ
      → TransactionManager pages.State pages.Pool R
      → TransactionManager pages.State pages.Pool R × Bool
  flush_pages [] m = (m, true)
  flush_pages (k ∷ ks) m = elim (frames.flush_page k m.buffer_pool m.storage) [
    | none ↦ (m, false)
    | some (pool, state) ↦ flush_pages ks (record m { buffer_pool = pool; storage = state })
  ]

  unfoldable pub sync_after :
      Bool
      → TransactionManager pages.State pages.Pool R
      → TransactionManager pages.State pages.Pool R
  sync_after changed m = if changed then record m { storage = pages.sync m.storage } else m

  -- The end of `commit`.
  unfoldable pub settle_commit :
      ⦃key : Key R⦄
      → ℕ
      → Transaction R (List ℕ)
      → TransactionManager pages.State pages.Pool R
      → TransactionManager pages.State pages.Pool R × Transaction R (List ℕ)
  settle_commit now t m =
      let u : Transaction R (List ℕ) = record t { state = committed; finished_at = some now } in
      (
        record m {
          lock_manager = release_all t.tx_id now m.lock_manager;
          active_ids = without t.tx_id m.active_ids;
          stats = record m.stats {
            committed = m.stats.committed + 1;
            total_commit_ms = m.stats.total_commit_ms + duration_ms now u;
          };
        },
        u,
      )

  unfoldable pub commit :
      ⦃key : Key R⦄
      → ℕ
      → Transaction R (List ℕ)
      → TransactionManager pages.State pages.Pool R
      → TransactionManager pages.State pages.Pool R × Transaction R (List ℕ) × Option Fault
  unfolding settle_commit sync_after
  commit now t m0 =
      let (m1, fault) = assert_active t m0 in
      elim fault [
        | some f ↦ (m1, t, some f)
        | none ↦
            let (m2, lsn) = log commit_code t.tx_id 0 none none m1.wal.sync_on_commit m1 in
            elim lsn [
              | none ↦ (m2, t, some log_failed)
              | some n ↦
                  let u : Transaction R (List ℕ) = record t { end_lsn = some n } in
                  let (m3, flushed) = flush_pages t.modified_pages m2 in
                  if flushed
                  then (let (m4, w) =
                        settle_commit now u
                          (sync_after (not (eqb (length t.modified_pages) 0)) m3) in
                      (m4, w, none))
                  else (m3, u, some page_failed)
            ]
      ]

  -- The loop of `abort`, over the undo log from its end; false when a write throws.
  unfoldable pub restore_images :
      List (ℕ × List ℕ)
      → TransactionManager pages.State pages.Pool R
      → TransactionManager pages.State pages.Pool R × Bool
  restore_images [] m = (m, true)
  restore_images ((k, before) ∷ rest) m =
      let pool = pages.invalidate k m.buffer_pool in
      elim (pages.write_image before m.storage) [
        | none ↦ (record m { buffer_pool = pool }, false)
        | some state ↦ restore_images rest (record m { buffer_pool = pool; storage = state })
      ]

  unfoldable pub settle_abort :
      ⦃key : Key R⦄
      → ℕ
      → ℕ
      → ℕ
      → Transaction R (List ℕ)
      → TransactionManager pages.State pages.Pool R
      → TransactionManager pages.State pages.Pool R × Transaction R (List ℕ)
  settle_abort reason now lsn t m = (
    record m {
      lock_manager = release_all t.tx_id now m.lock_manager;
      active_ids = without t.tx_id m.active_ids;
      deadlock_victims = without t.tx_id m.deadlock_victims;
      stats = record m.stats { aborted = m.stats.aborted + 1 };
    },
    record t {
      end_lsn = some lsn;
      state = aborted;
      abort_reason = some reason;
      finished_at = some now;
    },
  )

  -- `abort` of a transaction that is not aborted yet.
  unfoldable pub abort_running :
      ⦃key : Key R⦄
      → ℕ
      → ℕ
      → Transaction R (List ℕ)
      → TransactionManager pages.State pages.Pool R
      → TransactionManager pages.State pages.Pool R × Transaction R (List ℕ) × Option Fault
  unfolding settle_abort sync_after
  abort_running reason now t m0 =
      let (m1, restored) = restore_images (reverse t.undo_log) m0 in
      if restored
      then (let (m2, lsn) =
            log abort_code t.tx_id 0 none none false
              (sync_after (not (eqb (length t.undo_log) 0)) m1) in
          elim lsn [
            | none ↦ (m2, t, some log_failed)
            | some n ↦ let (m3, u) = settle_abort reason now n t m2 in (m3, u, none)
          ])
      else (m1, t, some page_failed)

  unfoldable pub abort :
      ⦃key : Key R⦄
      → ℕ
      → ℕ
      → Transaction R (List ℕ)
      → TransactionManager pages.State pages.Pool R
      → TransactionManager pages.State pages.Pool R × Transaction R (List ℕ) × Option Fault
  abort reason now t m = elim t.state [ aborted ↦ (m, t, none) | _ ↦ abort_running reason now t m ]

  -- `runInTransaction` from the end of the work on, which has returned, or thrown with a reason: true
  -- when the call returns, and false when it throws.
  unfoldable pub conclude :
      ⦃key : Key R⦄
      → ℕ
      → Option ℕ
      → ℕ
      → Transaction R (List ℕ)
      → TransactionManager pages.State pages.Pool R
      → TransactionManager pages.State pages.Pool R × Transaction R (List ℕ) × Bool
  conclude now (some reason) commit_reason t m =
      let (m', u, fault) = abort reason now t m in (m', u, false)
  conclude now none commit_reason t m =
      let (m1, u, fault) = commit now t m in
      elim fault [
        | none ↦ (m1, u, true)
        | some f ↦ let (m2, v, g) = abort commit_reason now u m1 in (m2, v, false)
      ]
