-- ===== src/Transaction/Manager/Logging.antt =====
-- The write-ahead rule of src/engine/transaction/TransactionManager.js: `write` logs what it changes.
use collab_write.Prelude.{
  ℕ, ◌≡◌, refl, ap, sym, ◌∙◌, eqb, nat_key, Bool-cases, Option-cases, inl, inr, false, Option, none,
  some, List, [], ◌∷◌, ◌++◌, arith, if_intro, option_intro,
}
use collab_write.Prelude.Map
use collab_write.Conflict.{ConflictError, assert_no_conflict}
use collab_write.Recovery.Manager.{Pages}
use collab_write.Recovery.Wal.{Wal, append, update_code}
use collab_write.Storage.Page.{Page, Outcome}
use collab_write.Storage.Page.Checksum.{serialize}
use collab_write.Transaction.{Transaction, record_read, record_write}
use collab_write.Transaction.Manager.{
  TransactionManager, Frames, Reply, thrown, page_failed, log_failed, conflict, log, check_version,
  page_version,
}
use collab_write.Transaction.Manager.Access.{finish, change, write_locked}
use collab_write.Transaction.Manager.Written.{
  outcome_intro, append-none, with_buffer, WriteThrows, Logged, WriteCall,
}

module _ (pages : Pages) {R : Type 0} where
  read-undo_log :
      (page_id v : ℕ) (t : Transaction R (List ℕ))
      → ((record_read page_id v t).undo_log ≡ t.undo_log)
        × ((record_read page_id v t).tx_id ≡ t.tx_id)
  unfolding record_read
  read-undo_log page_id v t =
      if_intro (λ (u : Transaction R (List ℕ)). (u.undo_log ≡ t.undo_log) × (u.tx_id ≡ t.tx_id))
        (Map.has page_id t.read_versions) _ _ (λ h. (refl, refl)) (λ h. (refl, refl))

  change-Logged :
      (frames : Frames pages.State pages.Pool) (page_id tx_id : ℕ) (expected : Option ℕ)
      (mutator : Page → Outcome {0} Unit) (p : Page) (before : List ℕ)
      (undo_log : List (ℕ × List ℕ)) (wal : Wal) (t : Transaction R (List ℕ))
      (m : TransactionManager pages.State pages.Pool R)
      → serialize p ≡ some before
      → t.undo_log ≡ undo_log
      → t.tx_id ≡ tx_id
      → m.wal ≡ wal
      → Logged
          (record {
            page_id = page_id;
            tx_id = tx_id;
            expected = expected;
            mutator = mutator;
            fetched = some p;
            undo_log = undo_log;
            wal = wal;
          })
          (change pages frames page_id mutator p before t m)
  unfolding change finish log Logged WriteThrows record_write
  change-Logged frames page_id tx_id expected mutator p before undo_log wal t m i eu et ew =
      let c : WriteCall = record {
        page_id = page_id;
        tx_id = tx_id;
        expected = expected;
        mutator = mutator;
        fetched = some p;
        undo_log = undo_log;
        wal = wal;
      } in
      let P = Logged c in
      outcome_intro P (mutator p) _ _ _
        (λ u buf h.
          let q : Page = with_buffer p buf in
          option_intro P (serialize q) _ _
            (λ e. inl (
              page_failed,
              refl,
              inr (p, refl, inr (inr (inl (refl, inr (inr (buf, h, e)))))),
              eu,
              ew,
            ))
            (λ after e.
              let r = append update_code t.tx_id page_id (some before) (some after) false m.wal in
              let same : append update_code tx_id page_id (some before) (some after) false wal ≡ r =
                sym (
                  ap (λ x. append update_code x page_id (some before) (some after) false m.wal) et
                  ∙ ap (λ x. append update_code tx_id page_id (some before) (some after) false x)
                      ew) in
              option_intro P r.1 _ _
                (λ f. inl (
                  log_failed,
                  refl,
                  inr (
                    p,
                    refl,
                    inr (inr (inr (inr (refl, before, after, ap (λ x. x.1) same ∙ f)))),
                  ),
                  eu,
                  append-none update_code t.tx_id page_id (some before) (some after) false m.wal f
                      ∙ ew,
                ))
                (λ lsn f.
                  let logged = same ∙ (λ i. (r.0, f i)) in
                  let undone = ap (λ x. x ++ (page_id, before) ∷ []) eu in
                  option_intro P (page_version q) _ _
                    (λ g.
                      inr
                        (p, buf, before, after, lsn, refl, i, h, e, undone, logged, inr (g, refl)))
                    (λ v g. inr (
                      p,
                      buf,
                      before,
                      after,
                      lsn,
                      refl,
                      i,
                      h,
                      e,
                      undone,
                      logged,
                      inl (v, g, refl),
                    )))))
        (λ k n a b h.
          inl
            (page_failed, refl, inr (p, refl, inr (inr (inl (refl, inl (k, n, a, b, h))))), eu, ew))
        (λ b h.
          inl (page_failed, refl, inr (p, refl, inr (inr (inl (refl, inr (inl (b, h)))))), eu, ew))

  check_version-wal :
      (tx_id page_id : ℕ) (expected : Option ℕ) (actual : ℕ)
      (m : TransactionManager pages.State pages.Pool R)
      → (check_version tx_id page_id expected actual m).0.wal ≡ m.wal
  unfolding check_version
  check_version-wal tx_id page_id expected actual m =
      let P = λ (r : TransactionManager pages.State pages.Pool R × Option ConflictError).
        r.0.wal ≡ m.wal in
      option_intro P expected _ _ (λ e. refl)
        (λ v e. option_intro P m.conflict_resolver _ _ (λ f. refl) (λ s f. refl))

  -- A conflict is thrown of two versions that differ.
  check_version-conflict :
      (tx_id page_id : ℕ) (expected : Option ℕ) (actual : ℕ)
      (m : TransactionManager pages.State pages.Pool R) (c : ConflictError)
      → (check_version tx_id page_id expected actual m).1 ≡ some c
      → (v : ℕ) × (expected ≡ some v) × (eqb v actual ≡ false)
  unfolding check_version assert_no_conflict
  check_version-conflict tx_id page_id none actual m c h = absurd (cc)
  check_version-conflict tx_id page_id (some v) actual m c h = elim (Bool-cases (eqb v actual)) [
    | inl e ↦ elim (Option-cases m.conflict_resolver) [
      | inl f ↦ absurd (ground (arith, e, f, h))
      | inr (s, f) ↦ absurd (ground (arith, e, f, h))
    ]
    | inr e ↦ (v, refl, e)
  ]

  -- What a write finds.
  abbrev pub write_call :
      Frames pages.State pages.Pool
      → ℕ
      → (Page → Outcome {0} Unit)
      → Option ℕ
      → Transaction R (List ℕ)
      → TransactionManager pages.State pages.Pool R
      → WriteCall
  write_call frames page_id mutator expected t m = record {
    page_id = page_id;
    tx_id = t.tx_id;
    expected = expected;
    mutator = mutator;
    fetched = (frames.fetch_page page_id m.buffer_pool m.storage).0;
    undo_log = t.undo_log;
    wal = m.wal;
  }

  -- A write that holds its lock either logs one update record, of the images of its page before
  -- and after the mutator changed it, adds the first of them to the undo log, and returns the
  -- number of the record and the version of the changed page, or throws when that version cannot
  -- be read; or it throws and logs nothing, in the undo log neither, and then there is no page,
  -- it has no image or no version, the expected version is another one, the mutator throws or
  -- leaves a page without an image, or the log throws.
  pub write_locked-Logged :
      (frames : Frames pages.State pages.Pool) (page_id : ℕ) (mutator : Page → Outcome {0} Unit)
      (expected : Option ℕ) (t : Transaction R (List ℕ))
      (m : TransactionManager pages.State pages.Pool R)
      → Logged
          (write_call frames page_id mutator expected t m)
          (write_locked pages frames page_id mutator expected t m)
  unfolding write_locked finish Logged WriteThrows
  write_locked-Logged frames page_id mutator expected t m =
      let (o, pool, state) = frames.fetch_page page_id m.buffer_pool m.storage in
      let m1 : TransactionManager pages.State pages.Pool R = record m {
        buffer_pool = pool;
        storage = state;
      } in
      let Q =
        λ (x : Option Page)
            (r : TransactionManager pages.State pages.Pool R
              × Transaction R (List ℕ)
              × Reply (ℕ × ℕ)).
          Logged (record (write_call frames page_id mutator expected t m) { fetched = x }) r in
      elim o
        as (λ x. Q x (elim x [
          | none ↦ (m1, t, thrown page_failed)
          | some p ↦ elim (serialize p) [
            | none ↦ finish pages frames page_id false m1 t (thrown page_failed)
            | some before ↦ elim (page_version p) [
              | none ↦ finish pages frames page_id false m1 t (thrown page_failed)
              | some version ↦
                  let u = record_read page_id version t in
                  let (m2, refused) = check_version t.tx_id page_id expected version m1 in
                  elim refused [
                    | some c ↦ finish pages frames page_id false m2 u (thrown (conflict c))
                    | none ↦ change pages frames page_id mutator p before u m2
                  ]
            ]
          ]
        ])) [
          | none ↦ inl (page_failed, refl, inl (refl, refl), refl, refl)
          | some p ↦
              option_intro (Q (some p)) (serialize p) _ _
                (λ f. inl (page_failed, refl, inr (p, refl, inl (refl, f)), refl, refl))
                (λ before f.
                  option_intro (Q (some p)) (page_version p) _ _
                    (λ g. inl (page_failed, refl, inr (p, refl, inr (inl (refl, g))), refl, refl))
                    (λ version g.
                      let u = record_read page_id version t in
                      let (l, i) = read-undo_log page_id version t in
                      let (m2, refused) = check_version t.tx_id page_id expected version m1 in
                      let w = check_version-wal t.tx_id page_id expected version m1 in
                      option_intro (Q (some p)) refused _ _
                        (λ h.
                          change-Logged frames page_id t.tx_id expected mutator p before t.undo_log
                            m.wal u m2 f l i w)
                        (λ c h.
                          let (v, e, d) =
                            check_version-conflict t.tx_id page_id expected version m1 c h in
                          inl (
                            conflict c,
                            refl,
                            inr (p, refl, inr (inr (inr (inl (v, version, e, g, d, c, refl))))),
                            l,
                            w,
                          ))))
        ]
