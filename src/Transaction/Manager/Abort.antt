-- ===== src/Transaction/Manager/Abort.antt =====
-- An abort of src/engine/transaction/TransactionManager.js puts the pages back.
use mathlib.Core.List.{reverse, reverse_aux}
use collab_write.Prelude.{
  ℕ, ◌≡◌, refl, ap, sym, subst, ◌∙◌, ◌⊎◌, inl, inr, Bool, true, false, not, Option, none, some,
  List, [], ◌∷◌, if◌then◌else◌, eqb, eqb_iff, mem, without, length, Key, All, Bool-cases, arith,
  mem-without, if_intro, nat_key,
}
use collab_write.Prelude.Map
use collab_write.Lock.{release_all}
use collab_write.Recovery.Manager.{Pages}
use collab_write.Recovery.Wal.{append, abort_code}
use collab_write.Transaction.{Transaction, active, aborted}
use collab_write.Transaction.Manager.{TransactionManager, Frames, Fault, log_failed, log}
use collab_write.Transaction.Manager.Ending.{
  abort_running, abort, restore_images, settle_abort, sync_after,
}

-- The image that an undo log has of a page first, or what there is without one.
unfoldable pub first_image : ℕ → List (ℕ × List ℕ) → Option (List ℕ) → Option (List ℕ)
first_image k [] o = o
first_image k ((j, b) ∷ log) o = if eqb j k then some b else first_image k log o

-- The image that is written last.
last_written : ℕ → List (ℕ × List ℕ) → Option (List ℕ) → Option (List ℕ)
last_written k [] o = o
last_written k ((j, b) ∷ log) o = last_written k log (if eqb j k then some b else o)

last_written-reverse :
    (k : ℕ) (log acc : List (ℕ × List ℕ)) (o : Option (List ℕ))
    → last_written k (reverse_aux log acc) o ≡ last_written k acc (first_image k log o)
unfolding last_written first_image
last_written-reverse k [] acc o = refl
last_written-reverse k ((j, b) ∷ log) acc o = last_written-reverse k log ((j, b) ∷ acc) o

-- What the drops of the pages of a log leave of what the pool has of a page.
dropped {ℓ} : {A : Type ℓ} → ℕ → List (ℕ × List ℕ) → Option A → Option A
dropped k [] o = o
dropped k ((j, b) ∷ log) o = dropped k log (if eqb j k then none else o)

dropped-reverse {ℓ} :
    {A : Type ℓ} (k : ℕ) (log acc : List (ℕ × List ℕ)) (o : Option A)
    → dropped k (reverse_aux log acc) o ≡ dropped k acc (if Map.has k log then none else o)
unfolding dropped Map.has
dropped-reverse k [] acc o = refl
dropped-reverse k ((j, b) ∷ log) acc o =
    dropped-reverse k log ((j, b) ∷ acc) o
    ∙ ap (dropped k acc) (elim (Bool-cases (eqb j k)) [
      | inl here ↦ ground (arith, here)
      | inr other ↦ ground (arith, other)
    ])

without_self : (t : ℕ) (xs : List ℕ) → mem t (without t xs) ≡ false
without_self t xs = ground (arith, mem-without t t xs, eqb_iff t t)

reverse-All :
    (P : ℕ × List ℕ → Type 0) (xs acc : List (ℕ × List ℕ))
    → All P xs
    → All P acc
    → All P (reverse_aux xs acc)
reverse-All P [] acc h g = g
reverse-All P (x ∷ xs) acc (h, hs) g = reverse-All P xs (x ∷ acc) hs (h, g)

-- What an abort relies on of the pool: the image that it has of a page, and that `invalidate` drops
-- the frame of its page and no other.
pub record Residency (pages : Pages) : Type 0 where
  pub resident : ℕ → pages.Pool → Option (List ℕ)
  pub resident-invalidate :
      (k j : ℕ) (q : pages.Pool)
      → resident k (pages.invalidate j q) ≡ (if eqb j k then none else resident k q)

module _ (pages : Pages) where
  -- The before-images are images of their pages.
  abbrev pub Fits : ℕ × List ℕ → Type 0
  Fits w = pages.IsImage w.1 × (pages.id_of w.1 ≡ w.0)

  written_one :
      (k j : ℕ) (b : List ℕ) (s s' : pages.State)
      → pages.id_of b ≡ j
      → pages.look (pages.id_of b) s' ≡ some b
      → (k ≡ pages.id_of b) ⊎ (pages.look k s' ≡ pages.look k s)
      → pages.look k s' ≡ (if eqb j k then some b else pages.look k s)
  written_one k j b s s' e at others = elim (Bool-cases (eqb j k)) [
    | inl i ↦ ground (
      arith,
      i,
      e,
      at,
      ap (λ n. pages.look n s') e,
      ap (λ n. pages.look n s') ((eqb_iff j k).0 i),
    )
    | inr i ↦ ground (arith, i, e, others)
  ]

module _ (pages : Pages) (pool : Residency pages) {R : Type 0} where
  Restored :
      List (ℕ × List ℕ)
      → TransactionManager pages.State pages.Pool R
      → TransactionManager pages.State pages.Pool R × Bool
      → Type 0
  Restored log m (m', done) =
      (done ≡ true)
      × (m'.active_ids ≡ m.active_ids)
      × (m'.lock_manager ≡ m.lock_manager)
      × (m'.wal ≡ m.wal)
      × ((k : ℕ) → pool.resident k m'.buffer_pool ≡ dropped k log (pool.resident k m.buffer_pool))
      × ((k : ℕ) → pages.look k m'.storage ≡ last_written k log (pages.look k m.storage))

  restore_images-Restored :
      (frames : Frames pages.State pages.Pool) (images : List (ℕ × List ℕ))
      (m : TransactionManager pages.State pages.Pool R)
      → All (Fits pages) images
      → Restored images m (restore_images pages frames images m)
  unfolding Restored restore_images last_written dropped
  restore_images-Restored frames [] m h = (refl, refl, refl, refl, λ k. refl, λ k. refl)
  restore_images-Restored frames ((j, b) ∷ images) m ((v, e), hs) =
      let (s', w, at, others) = pages.write-look b m.storage v in
      let m1 : TransactionManager pages.State pages.Pool R = record m {
        buffer_pool = pages.invalidate j m.buffer_pool;
        storage = s';
      } in
      let (d, a, l, n, gone, looks) = restore_images-Restored frames images m1 hs in
      rw (restore_images, w)
        (
          d,
          a,
          l,
          n,
          λ k. gone k ∙ ap (dropped k images) (pool.resident-invalidate k j m.buffer_pool),
          λ k.
              looks k
              ∙ ap (last_written k images) (written_one pages k j b m.storage s' e at (others k)),
        )

  -- The two outcomes of an abort: it is over, or the log could not be written.
  unfoldable pub Aborted :
      ⦃key : Key R⦄
      → ℕ
      → Transaction R (List ℕ)
      → TransactionManager pages.State pages.Pool R
      → TransactionManager pages.State pages.Pool R × Transaction R (List ℕ) × Option Fault
      → Type 0
  Aborted now t m (m', u, fault) =
      ((k : ℕ) → pages.look k m'.storage ≡ first_image k t.undo_log (pages.look k m.storage))
      × ((k : ℕ)
          → pool.resident k m'.buffer_pool
            ≡ (if Map.has k t.undo_log then none else pool.resident k m.buffer_pool))
      × (((fault ≡ none)
            × (u.state ≡ aborted)
            × (mem t.tx_id m'.active_ids ≡ false)
            × (m'.lock_manager ≡ release_all t.tx_id now m.lock_manager))
          ⊎ ((fault ≡ some log_failed)
              × ((append abort_code t.tx_id 0 none none false m.wal).1 ≡ none)
              × (u ≡ t)
              × (m'.lock_manager ≡ m.lock_manager)))

  synced-look :
      (c : Bool) (m : TransactionManager pages.State pages.Pool R)
      (frames : Frames pages.State pages.Pool) (k : ℕ)
      → pages.look k (sync_after pages frames c m).storage ≡ pages.look k m.storage
  unfolding sync_after
  synced-look true m frames k = pages.look-sync k m.storage
  synced-look false m frames k = refl

  synced_rest :
      (c : Bool) (m : TransactionManager pages.State pages.Pool R)
      (frames : Frames pages.State pages.Pool)
      → ((sync_after pages frames c m).active_ids ≡ m.active_ids)
        × ((sync_after pages frames c m).lock_manager ≡ m.lock_manager)
        × ((sync_after pages frames c m).wal ≡ m.wal)
        × ((sync_after pages frames c m).buffer_pool ≡ m.buffer_pool)
  unfolding sync_after
  synced_rest true m frames = (refl, refl, refl, refl)
  synced_rest false m frames = (refl, refl, refl, refl)

  -- The end of an abort, when the pages are back.
  abort_end :
      ⦃key : Key R⦄ (frames : Frames pages.State pages.Pool) (reason now : ℕ)
      (t : Transaction R (List ℕ)) (m m2 : TransactionManager pages.State pages.Pool R)
      (lsn : Option ℕ)
      → ((k : ℕ) → pages.look k m2.storage ≡ first_image k t.undo_log (pages.look k m.storage))
      → ((k : ℕ)
          → pool.resident k m2.buffer_pool
            ≡ (if Map.has k t.undo_log then none else pool.resident k m.buffer_pool))
      → ((lsn ≡ none) → (append abort_code t.tx_id 0 none none false m.wal).1 ≡ none)
      → m2.lock_manager ≡ m.lock_manager
      → Aborted now t m (elim lsn [
        | none ↦ (m2, t, some log_failed)
        | some n ↦ let (m3, u) = settle_abort pages frames reason now n t m2 in (m3, u, none)
      ])
  unfolding Aborted settle_abort
  abort_end frames reason now t m m2 none looks gone why l =
      (looks, gone, inr (refl, why refl, refl, l))
  abort_end frames reason now t m m2 (some n) looks gone why l = (
    looks,
    gone,
    inl (refl, refl, without_self t.tx_id m2.active_ids, ap (release_all t.tx_id now) l),
  )

  -- An abort of an active transaction, whose before-images are images of their pages, leaves every
  -- page in the storage as the first before-image that the transaction logged of it, and the pool
  -- without the page, so that the next reader finds this image; every other page is as it was, in
  -- the storage and in the pool. Then the transaction is aborted, out of the map, and its locks
  -- are released, or the log throws, and the transaction and the locks are as before.
  pub abort-Aborted :
      ⦃key : Key R⦄ (frames : Frames pages.State pages.Pool) (reason now : ℕ)
      (t : Transaction R (List ℕ)) (m : TransactionManager pages.State pages.Pool R)
      → t.state ≡ active
      → All (Fits pages) t.undo_log
      → Aborted now t m (abort pages frames reason now t m)
  unfolding abort abort_running log Restored last_written dropped
  abort-Aborted frames reason now t m s h =
      let images = reverse t.undo_log in
      let (d, a, l, n, gone, looks) =
        restore_images-Restored frames images m (reverse-All (Fits pages) t.undo_log [] h tt) in
      let m1 = (restore_images pages frames images m).0 in
      let c = not (eqb (length t.undo_log) 0) in
      let m2 = sync_after pages frames c m1 in
      let running : Aborted now t m (abort_running pages frames reason now t m) =
        if_intro (Aborted now t m) (restore_images pages frames images m).1 _ _
          (λ q.
            let (m3, lsn) = log abort_code t.tx_id 0 none none false m2 in
            abort_end frames reason now t m m3 lsn
              (λ k.
                synced-look c m1 frames k
                ∙ looks k
                ∙ last_written-reverse k t.undo_log [] (pages.look k m.storage))
              (λ k.
                ap (pool.resident k) (synced_rest c m1 frames).3
                ∙ gone k
                ∙ dropped-reverse k t.undo_log [] (pool.resident k m.buffer_pool))
              (λ e.
                ap (λ x. (append abort_code t.tx_id 0 none none false x).1)
                  (sym ((synced_rest c m1 frames).2 ∙ n))
                ∙ e)
              ((synced_rest c m1 frames).1 ∙ l))
          (λ q. absurd (ground (arith, d, q))) in
      subst
        (λ x.
          Aborted now t m
            (elim x [ aborted ↦ (m, t, none) | _ ↦ abort_running pages frames reason now t m ]))
        (sym s) running
