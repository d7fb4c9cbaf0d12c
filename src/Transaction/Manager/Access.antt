-- ===== src/Transaction/Manager/Access.antt =====
-- `read` and `write` of src/engine/transaction/TransactionManager.js, from the grant of the lock on.
use collab_write.Prelude.{ℕ, Bool, true, false, Option, none, some, List}
use collab_write.Recovery.Manager.{Pages}
use collab_write.Recovery.Wal.{update_code}
use collab_write.Storage.Page.{
  Page, Record, Outcome, returned, page_full, range_error, list_records,
}
use collab_write.Storage.Page.Checksum.{serialize}
use collab_write.Transaction.{Transaction, record_read, record_write}
use collab_write.Transaction.Manager.{
  TransactionManager, Frames, Reply, ok, thrown, page_failed, conflict, log_failed, log,
  page_version, max_version, check_version,
}

module _ (pages : Pages) (frames : Frames pages.State pages.Pool) {R : Type 0} where
  -- `finally`: the page is unpinned.
  unfoldable pub finish {ℓ} :
      {A : Type ℓ}
      → ℕ
      → Bool
      → TransactionManager pages.State pages.Pool R
      → Transaction R (List ℕ)
      → Reply A
      → TransactionManager pages.State pages.Pool R × Transaction R (List ℕ) × Reply A
  finish page_id dirty m t reply =
      (record m { buffer_pool = frames.unpin_page page_id dirty m.buffer_pool }, t, reply)

  -- `read` when the lock is granted: the version and the records.
  unfoldable pub read_locked :
      ℕ
      → Transaction R (List ℕ)
      → TransactionManager pages.State pages.Pool R
      → TransactionManager pages.State pages.Pool R
        × Transaction R (List ℕ)
        × Reply (ℕ × List Record)
  read_locked page_id t m0 =
      let (o, pool, state) = frames.fetch_page page_id m0.buffer_pool m0.storage in
      let m : TransactionManager pages.State pages.Pool R = record m0 {
        buffer_pool = pool;
        storage = state;
      } in
      elim o [
        | none ↦ (m, t, thrown page_failed)
        | some p ↦ elim (list_records p.buffer) [
          | none ↦ finish page_id false m t (thrown page_failed)
          | some rs ↦
              let version = max_version rs 0 in
              finish page_id false m (record_read page_id version t) (ok (version, rs))
        ]
      ]

  -- `write` from the change of the page on.
  unfoldable pub change :
      ℕ
      → (Page → Outcome {0} Unit)
      → Page
      → List ℕ
      → Transaction R (List ℕ)
      → TransactionManager pages.State pages.Pool R
      → TransactionManager pages.State pages.Pool R × Transaction R (List ℕ) × Reply (ℕ × ℕ)
  change page_id mutator p before t m0 =
      let put = λ (buf : List ℕ). record m0 {
        buffer_pool = frames.install page_id (record p { buffer = buf }) m0.buffer_pool;
      } in
      elim (mutator p) [
        | page_full k n a buf ↦ finish page_id false (put buf) t (thrown page_failed)
        | range_error buf ↦ finish page_id false (put buf) t (thrown page_failed)
        | returned u buf ↦
            let q : Page = record p { buffer = buf } in
            elim (serialize q) [
              | none ↦ finish page_id true (put buf) t (thrown page_failed)
              | some after ↦
                  let (m, lsn) =
                    log update_code t.tx_id page_id (some before) (some after) false (put buf) in
                  elim lsn [
                    | none ↦ finish page_id true m t (thrown log_failed)
                    | some n ↦ elim (page_version q) [
                      | none ↦
                          finish page_id true m (record_write page_id before t) (thrown page_failed)
                      | some v ↦ finish page_id true m (record_write page_id before t) (ok (v, n))
                    ]
                  ]
            ]
      ]

  -- `write` when the lock is granted: the version and the number of the log record.
  unfoldable pub write_locked :
      ℕ
      → (Page → Outcome {0} Unit)
      → Option ℕ
      → Transaction R (List ℕ)
      → TransactionManager pages.State pages.Pool R
      → TransactionManager pages.State pages.Pool R × Transaction R (List ℕ) × Reply (ℕ × ℕ)
  write_locked page_id mutator expected t m0 =
      let (o, pool, state) = frames.fetch_page page_id m0.buffer_pool m0.storage in
      let m1 : TransactionManager pages.State pages.Pool R = record m0 {
        buffer_pool = pool;
        storage = state;
      } in
      elim o [
        | none ↦ (m1, t, thrown page_failed)
        | some p ↦ elim (serialize p) [
          | none ↦ finish page_id false m1 t (thrown page_failed)
          | some before ↦ elim (page_version p) [
            | none ↦ finish page_id false m1 t (thrown page_failed)
            | some version ↦
                let u = record_read page_id version t in
                let (m2, refused) = check_version t.tx_id page_id expected version m1 in
                elim refused [
                  | some c ↦ finish page_id false m2 u (thrown (conflict c))
                  | none ↦ change page_id mutator p before u m2
                ]
          ]
        ]
      ]
