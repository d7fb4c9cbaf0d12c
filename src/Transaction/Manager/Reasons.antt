-- ===== src/Transaction/Manager/Reasons.antt =====
-- Why `commit` and `abort` of src/engine/transaction/TransactionManager.js throw.
use mathlib.Core.Option.{some-injective}
use collab_write.Prelude.{
  ℕ, ◌≡◌, refl, sym, ◌∙◌, Bool, true, false, Option, none, some, List, [], ◌∷◌, ◌⊎◌, inl, inr, mem,
  if_intro, option_intro, Option-cases,
}
use collab_write.Recovery.Manager.{Pages}
use collab_write.Recovery.Wal.{append, abort_code, commit_code}
use collab_write.Transaction.{Transaction, is_active}
use collab_write.Transaction.Manager.{
  TransactionManager, Frames, Fault, log_failed, page_failed, deadlock, not_active, assert_active,
}
use collab_write.Transaction.Manager.Ending.{flush_pages, restore_images, sync_after}
use collab_write.Transaction.Manager.Counts.{Same}

module _ (pages : Pages) {R : Type 0} where
  pub flush_pages-Same :
      (frames : Frames pages.State pages.Pool) (ks : List ℕ)
      (m : TransactionManager pages.State pages.Pool R)
      → Same m (flush_pages pages frames ks m).0
  unfolding flush_pages
  flush_pages-Same frames [] m = (refl, refl, refl)
  flush_pages-Same frames (k ∷ ks) m =
      option_intro (λ (x : TransactionManager pages.State pages.Pool R × Bool). Same m x.0)
        (frames.flush_page k m.buffer_pool m.storage) _ _ (λ h. (refl, refl, refl))
        (λ (pool, state) h.
          flush_pages-Same frames ks (record m { buffer_pool = pool; storage = state }))

  pub restore_images-Same :
      (frames : Frames pages.State pages.Pool) (images : List (ℕ × List ℕ))
      (m : TransactionManager pages.State pages.Pool R)
      → Same m (restore_images pages frames images m).0
  unfolding restore_images
  restore_images-Same frames [] m = (refl, refl, refl)
  restore_images-Same frames ((k, b) ∷ images) m =
      let pool = pages.invalidate k m.buffer_pool in
      option_intro (λ (x : TransactionManager pages.State pages.Pool R × Bool). Same m x.0)
        (pages.write_image b m.storage) _ _ (λ h. (refl, refl, refl))
        (λ state h.
          restore_images-Same frames images (record m { buffer_pool = pool; storage = state }))

  pub sync_after-Same :
      (frames : Frames pages.State pages.Pool) (c : Bool)
      (m : TransactionManager pages.State pages.Pool R)
      → Same m (sync_after pages frames c m)
  unfolding sync_after
  sync_after-Same frames true m = (refl, refl, refl)
  sync_after-Same frames false m = (refl, refl, refl)

  -- Why a commit throws: its transaction is a victim, or is not active, or the log throws, or the
  -- flush of a page does.
  unfoldable pub CommitThrows :
      Frames pages.State pages.Pool
      → Transaction R (List ℕ)
      → TransactionManager pages.State pages.Pool R
      → Fault
      → Type 0
  CommitThrows frames t m f =
      ((f ≡ deadlock) × (mem t.tx_id m.deadlock_victims ≡ true))
      ⊎ ((f ≡ not_active t.state) × (is_active t ≡ false))
      ⊎ ((f ≡ log_failed)
          × ((append commit_code t.tx_id 0 none none m.wal.sync_on_commit m.wal).1 ≡ none))
      ⊎ ((f ≡ page_failed)
          × ((k : ℕ) × (q : pages.Pool) × (s : pages.State) × (frames.flush_page k q s ≡ none)))

  -- Why an abort throws: the log does, or the write of an image.
  unfoldable pub AbortThrows :
      Transaction R (List ℕ) → TransactionManager pages.State pages.Pool R → Fault → Type 0
  AbortThrows t m f =
      ((f ≡ log_failed) × ((append abort_code t.tx_id 0 none none false m.wal).1 ≡ none))
      ⊎ ((f ≡ page_failed) × ((b : List ℕ) × (s : pages.State) × (pages.write_image b s ≡ none)))

  -- A call that throws on the check of the transaction, or goes on with the same log.
  pub checked_fault :
      (frames : Frames pages.State pages.Pool) (t : Transaction R (List ℕ))
      (m : TransactionManager pages.State pages.Pool R)
      → ((assert_active t m).0.wal ≡ m.wal)
        × ((f : Fault) → (assert_active t m).1 ≡ some f → CommitThrows frames t m f)
  unfolding assert_active CommitThrows
  checked_fault frames t m =
      let P = λ (x : TransactionManager pages.State pages.Pool R × Option Fault).
        (x.0.wal ≡ m.wal) × ((f : Fault) → x.1 ≡ some f → CommitThrows frames t m f) in
      if_intro P (mem t.tx_id m.deadlock_victims) _ _
        (λ h. (refl, λ f e. inl (sym (some-injective _ _ e), h)))
        (λ h.
          if_intro P (is_active t) _ _ (λ g. (refl, λ f e. absurd (cc)))
            (λ g. (refl, λ f e. inr (inl (sym (some-injective _ _ e), g)))))

  pub flush_failed :
      (frames : Frames pages.State pages.Pool) (ks : List ℕ)
      (m : TransactionManager pages.State pages.Pool R)
      → (flush_pages pages frames ks m).1 ≡ false
      → (k : ℕ) × (q : pages.Pool) × (s : pages.State) × (frames.flush_page k q s ≡ none)
  unfolding flush_pages
  flush_failed frames [] m e = absurd (cc)
  flush_failed frames (k ∷ ks) m e =
      elim (Option-cases (frames.flush_page k m.buffer_pool m.storage)) [
        | inl h ↦ (k, m.buffer_pool, m.storage, h)
        | inr ((q, s), h) ↦
            flush_failed frames ks (record m { buffer_pool = q; storage = s })
              (sym (rw (flush_pages, h) refl) ∙ e)
      ]

  pub restore_failed :
      (frames : Frames pages.State pages.Pool) (images : List (ℕ × List ℕ))
      (m : TransactionManager pages.State pages.Pool R)
      → (restore_images pages frames images m).1 ≡ false
      → (b : List ℕ) × (s : pages.State) × (pages.write_image b s ≡ none)
  unfolding restore_images
  restore_failed frames [] m e = absurd (cc)
  restore_failed frames ((k, b) ∷ images) m e =
      elim (Option-cases (pages.write_image b m.storage)) [
        | inl h ↦ (b, m.storage, h)
        | inr (s, h) ↦
            restore_failed frames images
              (record m { buffer_pool = pages.invalidate k m.buffer_pool; storage = s })
              (sym (rw (restore_images, h) refl) ∙ e)
      ]

  pub restore_images-wal :
      (frames : Frames pages.State pages.Pool) (images : List (ℕ × List ℕ))
      (m : TransactionManager pages.State pages.Pool R)
      → (restore_images pages frames images m).0.wal ≡ m.wal
  unfolding restore_images
  restore_images-wal frames [] m = refl
  restore_images-wal frames ((k, b) ∷ images) m =
      let pool = pages.invalidate k m.buffer_pool in
      option_intro (λ (x : TransactionManager pages.State pages.Pool R × Bool). x.0.wal ≡ m.wal)
        (pages.write_image b m.storage) _ _ (λ h. refl)
        (λ state h.
          restore_images-wal frames images (record m { buffer_pool = pool; storage = state }))

  pub sync_after-wal :
      (frames : Frames pages.State pages.Pool) (c : Bool)
      (m : TransactionManager pages.State pages.Pool R)
      → (sync_after pages frames c m).wal ≡ m.wal
  unfolding sync_after
  sync_after-wal frames true m = refl
  sync_after-wal frames false m = refl
