-- ===== src/Transaction/Manager/Accounting.antt =====
-- What `begin`, `commit` and `abort` of src/engine/transaction/TransactionManager.js do to the
-- counters and to the map of the active transactions.
use mathlib.Core.List.{reverse}
use collab_write.Prelude.{
  ℕ, ◌+◌, ◌≡◌, refl, ap, sym, subst, ◌∙◌, true, false, not, Option, none, some, List, ◌⊎◌, inl, inr,
  eqb, mem, without, length, Key, arith, if_intro, option_intro,
}
use collab_write.Recovery.Manager.{Pages}
use collab_write.Recovery.Wal.{append, abort_code, commit_code}
use collab_write.Transaction.{Transaction, TxState, active, committed, aborted}
use collab_write.Transaction.Manager.{
  TransactionManager, Stats, Frames, Fault, log_failed, page_failed, log, begin, assert_active,
}
use collab_write.Transaction.Manager.Ending.{
  commit, abort, abort_running, flush_pages, restore_images, settle_abort, settle_commit,
  sync_after,
}
use collab_write.Transaction.Manager.Counts.{
  Accounted, Same, Begun, Ended, begin-Begun, Begun-Accounted, Ended-Accounted, assert_active-Same,
}
use collab_write.Transaction.Manager.Reasons.{
  flush_pages-Same, restore_images-Same, sync_after-Same, CommitThrows, AbortThrows, checked_fault,
  flush_failed, restore_failed, restore_images-wal, sync_after-wal,
}

module _ (pages : Pages) {R : Type 0} where
  -- The counters after a commit and after an abort.
  abbrev pub one_committed : TransactionManager pages.State pages.Pool R → Stats
  one_committed m = record m.stats { committed = m.stats.committed + 1 }

  abbrev pub one_aborted : TransactionManager pages.State pages.Pool R → Stats
  one_aborted m = record m.stats { aborted = m.stats.aborted + 1 }

  Same-trans :
      (m m' m'' : TransactionManager pages.State pages.Pool R)
      → Same m m'
      → Same m' m''
      → Same m m''
  Same-trans m m' m'' (s, a, n) (s', a', n') = (s' ∙ s, a' ∙ a, n' ∙ n)

  settle_commit-Ended :
      ⦃key : Key R⦄ (frames : Frames pages.State pages.Pool) (now n : ℕ)
      (t : Transaction R (List ℕ)) (m m4 : TransactionManager pages.State pages.Pool R)
      → Same m m4
      → let (m', u) = settle_commit pages frames now (record t { end_lsn = some n }) m4 in
        Ended (CommitThrows pages frames t m) committed (one_committed m) t m (m', u, none)
  unfolding settle_commit Ended
  settle_commit-Ended frames now n t m m4 (s, a, next) = inl (
    refl,
    refl,
    ap (without t.tx_id) a,
    ap (λ x. x.begun) s,
    ap (λ x. x.committed + 1) s,
    ap (λ x. x.aborted) s,
    next,
  )

  settle_abort-Ended :
      ⦃key : Key R⦄ (frames : Frames pages.State pages.Pool) (reason now lsn : ℕ)
      (t : Transaction R (List ℕ)) (m m3 : TransactionManager pages.State pages.Pool R)
      → Same m m3
      → let (m', u) = settle_abort pages frames reason now lsn t m3 in
        Ended (AbortThrows pages t m) aborted (one_aborted m) t m (m', u, none)
  unfolding settle_abort Ended
  settle_abort-Ended frames reason now lsn t m m3 (s, a, n) = inl (
    refl,
    refl,
    ap (without t.tx_id) a,
    ap (λ x. x.begun) s,
    ap (λ x. x.committed) s,
    ap (λ x. x.aborted + 1) s,
    n,
  )

  commit-Ended :
      ⦃key : Key R⦄ (frames : Frames pages.State pages.Pool) (now : ℕ) (t : Transaction R (List ℕ))
      (m : TransactionManager pages.State pages.Pool R)
      → Ended
          (CommitThrows pages frames t m)
          committed
          (one_committed m)
          t
          m
          (commit pages frames now t m)
  unfolding commit log Ended CommitThrows
  commit-Ended frames now t m =
      let P = Ended (CommitThrows pages frames t m) committed (one_committed m) t m in
      let (m1, fault) = assert_active t m in
      let w = append commit_code t.tx_id 0 none none m1.wal.sync_on_commit m1.wal in
      let m2 : TransactionManager pages.State pages.Pool R = record m1 { wal = w.0 } in
      let s1 = assert_active-Same t m in
      let (same_wal, blame) = checked_fault pages frames t m in
      option_intro P fault _ _
        (λ e.
          option_intro P w.1 _ _
            (λ f. inr (
              log_failed,
              refl,
              inr (
                  inr (
                    inl (
                      refl,
                      subst
                          (λ x.
                            (append commit_code t.tx_id 0 none none x.sync_on_commit x).1 ≡ none)
                          same_wal f,
                    ))),
              refl,
              s1,
            ))
            (λ n f.
              let m3 = (flush_pages pages frames t.modified_pages m2).0 in
              let s3 = Same-trans m m2 m3 s1 (flush_pages-Same pages frames t.modified_pages m2) in
              let c = not (eqb (length t.modified_pages) 0) in
              let m4 = sync_after pages frames c m3 in
              let s4 = Same-trans m m3 m4 s3 (sync_after-Same pages frames c m3) in
              if_intro P (flush_pages pages frames t.modified_pages m2).1 _ _
                (λ g. settle_commit-Ended frames now n t m m4 s4)
                (λ g. inr (
                  page_failed,
                  refl,
                  inr (inr (inr (refl, flush_failed pages frames t.modified_pages m2 g))),
                  refl,
                  s3,
                ))))
        (λ f e. inr (f, refl, blame f e, refl, s1))

  abort_running-Ended :
      ⦃key : Key R⦄ (frames : Frames pages.State pages.Pool) (reason now : ℕ)
      (t : Transaction R (List ℕ)) (m : TransactionManager pages.State pages.Pool R)
      → Ended
          (AbortThrows pages t m)
          aborted
          (one_aborted m)
          t
          m
          (abort_running pages frames reason now t m)
  unfolding abort_running log Ended AbortThrows
  abort_running-Ended frames reason now t m =
      let P = Ended (AbortThrows pages t m) aborted (one_aborted m) t m in
      let images = reverse t.undo_log in
      let m1 = (restore_images pages frames images m).0 in
      let s1 = restore_images-Same pages frames images m in
      let c = not (eqb (length t.undo_log) 0) in
      let m2 = sync_after pages frames c m1 in
      let s2 = Same-trans m m1 m2 s1 (sync_after-Same pages frames c m1) in
      let w = append abort_code t.tx_id 0 none none false m2.wal in
      let m3 : TransactionManager pages.State pages.Pool R = record m2 { wal = w.0 } in
      if_intro P (restore_images pages frames images m).1 _ _
        (λ g.
          option_intro P w.1 _ _
            (λ f. inr (
              log_failed,
              refl,
              inl (
                refl,
                subst (λ x. (append abort_code t.tx_id 0 none none false x).1 ≡ none)
                    (sync_after-wal pages frames c m1 ∙ restore_images-wal pages frames images m) f,
              ),
              refl,
              s2,
            ))
            (λ n f. settle_abort-Ended frames reason now n t m m3 s2))
        (λ g. inr (page_failed, refl, inr (refl, restore_failed pages frames images m g), refl, s1))

  -- An abort ends the transaction, or finds it aborted already and changes nothing.
  unfoldable pub AbortEnded :
      Transaction R (List ℕ)
      → TransactionManager pages.State pages.Pool R
      → TransactionManager pages.State pages.Pool R × Transaction R (List ℕ) × Option Fault
      → Type 0
  AbortEnded t m r =
      ((t.state ≡ aborted) × (r ≡ (m, t, none)))
      ⊎ Ended (AbortThrows pages t m) aborted (one_aborted m) t m r

  abort-Ended :
      ⦃key : Key R⦄ (frames : Frames pages.State pages.Pool) (reason now : ℕ)
      (t : Transaction R (List ℕ)) (m : TransactionManager pages.State pages.Pool R)
      → AbortEnded t m (abort pages frames reason now t m)
  unfolding abort AbortEnded
  abort-Ended frames reason now t m =
      let running = abort_running-Ended frames reason now t m in
      state_cases t.state
        (λ (x : TxState).
          let r : TransactionManager pages.State pages.Pool R
              × Transaction R (List ℕ)
              × Option Fault =
            elim x [ aborted ↦ (m, t, none) | _ ↦ abort_running pages frames reason now t m ] in
          ((x ≡ aborted) × (r ≡ (m, t, none)))
          ⊎ Ended (AbortThrows pages t m) aborted (one_aborted m) t m r)
        (inr running) (inr running) (inl (refl, refl))
    where
      state_cases : (x : TxState) (Q : TxState → Type 0) → Q active → Q committed → Q aborted → Q x
      state_cases active Q a c d = a
      state_cases committed Q a c d = c
      state_cases aborted Q a c d = d

  AbortEnded-Accounted :
      (t : Transaction R (List ℕ)) (m : TransactionManager pages.State pages.Pool R)
      (r : TransactionManager pages.State pages.Pool R × Transaction R (List ℕ) × Option Fault)
      → Accounted m
      → mem t.tx_id m.active_ids ≡ true
      → AbortEnded t m r
      → Accounted r.0
  unfolding AbortEnded
  AbortEnded-Accounted t m r h i (inl (_, e)) = subst (λ x. Accounted x.0) (sym e) h
  AbortEnded-Accounted t m r h i (inr e) =
      Ended-Accounted (AbortThrows pages t m) aborted (one_aborted m) t m r refl (omega arith) h i e

  -- In a manager where the map has each id once, all ids were given out, and as many transactions
  -- began as were committed, were aborted or are in the map: begin adds to the map the transaction
  -- that it returns, under a new id, or throws and leaves the map; commit and abort of a
  -- transaction in the map take it and no other out of the map and count it once, as committed or
  -- as aborted, which is then its state, or throw, for a reason of theirs, and leave its state, the map and the counters;
  -- an abort of an aborted one changes nothing. The manager is then again as it was supposed.
  pub begin-commit-abort :
      ⦃key : Key R⦄ (frames : Frames pages.State pages.Pool) (reason now : ℕ)
      (t : Transaction R (List ℕ)) (m : TransactionManager pages.State pages.Pool R)
      → Accounted m
      → mem t.tx_id m.active_ids ≡ true
      → (Begun m (begin now m) × Accounted (begin now m).0)
        × (Ended
              (CommitThrows pages frames t m)
              committed
              (one_committed m)
              t
              m
              (commit pages frames now t m)
            × Accounted (commit pages frames now t m).0)
        × (AbortEnded t m (abort pages frames reason now t m)
            × Accounted (abort pages frames reason now t m).0)
  begin-commit-abort frames reason now t m h i =
      let b = begin-Begun now m h in
      let c = commit-Ended frames now t m in
      let a = abort-Ended frames reason now t m in
      (
        (b, Begun-Accounted m (begin now m) h b),
        (
          c,
          Ended-Accounted (CommitThrows pages frames t m) committed (one_committed m) t m
              (commit pages frames now t m) refl (omega arith) h i c,
        ),
        (a, AbortEnded-Accounted t m (abort pages frames reason now t m) h i a),
      )
