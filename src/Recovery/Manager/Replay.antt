-- ===== src/Recovery/Manager/Replay.antt =====
-- The pages after the two passes of src/engine/recovery/RecoveryManager.js.
use mathlib.Core.List.{reverse, reverse_aux}
use collab_write.Prelude.{
  ℕ, ◌+◌, ◌≡◌, refl, ap, sym, subst, ◌∙◌, ◌⊎◌, inl, inr, Option, Option-cases, none, some, List, [],
  ◌∷◌, if◌then◌else◌, eqb, eqb_iff, arith, All, if_intro,
}
use collab_write.Recovery.Wal.{LogRecord}
use collab_write.Recovery.Manager.{
  Pages, Disk, forget, restore, replay, redo, undo, redo_image, undo_image, repair, analyse,
}

-- The second where the first is absent.
unfoldable pub or_else : Option (List ℕ) → Option (List ℕ) → Option (List ℕ)
or_else none o = o
or_else (some b) o = some b

-- The image that the last of the records with one leaves on page `p`.
unfoldable pub last_image : (LogRecord → Option (List ℕ)) → ℕ → List LogRecord → Option (List ℕ)
unfolding or_else
last_image f p [] = none
last_image f p (r ∷ rs) = or_else (last_image f p rs) (if eqb r.page_id p then f r else none)

module _ (pages : Pages) where
  -- The images that `f` picks are images of the pages that their records name.
  unfoldable pub Fitting : (LogRecord → Option (List ℕ)) → LogRecord → Type 0
  Fitting f r = elim (f r) [ none ↦ Unit | some b ↦ pages.IsImage b × (pages.id_of b ≡ r.page_id) ]

  -- Page `p` holds the image `o`, or without one what it held, if that could be read.
  unfoldable pub Holds : Option (List ℕ) → ℕ → Disk pages → Disk pages → Type 0
  Holds none p d d' = (pages.look p d.state ≡ none) ⊎ (pages.look p d'.state ≡ pages.look p d.state)
  Holds (some b) p d d' = pages.look p d'.state ≡ some b

  restore-Holds :
      (p : ℕ) (b : List ℕ) (d : Disk pages)
      → pages.IsImage b
      → pages.id_of b ≡ p
      → (d' : Disk pages) × (restore pages p b d ≡ some d')
        × ((k : ℕ) → Holds (if eqb p k then some b else none) k d d')
  unfolding restore Holds
  restore-Holds p b d v e =
      let s = pages.ensure_capacity p d.state in
      let (s', w, at, others) = pages.write-look b s v in
      let d' : Disk pages = record { state = s'; pool = forget pages p d.pool } in
      (
        d',
        ap
            (λ (o : Option pages.State). elim o [
              | none ↦ none
              | some x ↦ some (record { state = x; pool = forget pages p d.pool })
            ])
            w,
        λ k.
            if_intro (λ (o : Option (List ℕ)). Holds o k d d') (eqb p k) (some b) none
              (λ q. ap (λ i. pages.look i s') (sym ((eqb_iff p k).0 q) ∙ sym e) ∙ at)
              (λ q. elim (others k) [
                | inl i ↦ ground (arith, q, i, e)
                | inr i ↦ elim (Option-cases (pages.look k d.state)) [
                  | inl n ↦ inl n
                  | inr (x, n) ↦ inr (i ∙ pages.look-ensure_capacity k p d.state x n ∙ sym n)
                ]
              ]),
      )

  Holds-trans :
      (k : ℕ) (o u : Option (List ℕ)) (d d' d'' : Disk pages)
      → Holds o k d d'
      → Holds u k d' d''
      → Holds (or_else u o) k d d''
  unfolding Holds or_else
  Holds-trans k none none d d' d'' h g = elim h [
    | inl e ↦ inl e
    | inr e ↦ elim g [ inl f ↦ inl (sym e ∙ f) | inr f ↦ inr (f ∙ e) ]
  ]
  Holds-trans k (some b) none d d' d'' h g = elim g [ inl f ↦ ground (arith, h, f) | inr f ↦ f ∙ h ]
  Holds-trans k o (some b) d d' d'' h g = g

  -- The replay gives a disk, and each page holds what the last of its images says.
  Replayed :
      (LogRecord → Option (List ℕ)) → List LogRecord → Disk pages → Option (Disk pages × ℕ) → Type 0
  Replayed f rs d result =
      (d' : Disk pages) × (m : ℕ) × (result ≡ some (d', m))
      × ((k : ℕ) → Holds (last_image f k rs) k d d')

  replay_turn :
      (f : LogRecord → Option (List ℕ)) (r : LogRecord) (rs : List LogRecord) (n : ℕ)
      (d : Disk pages) (o : Option (List ℕ))
      → f r ≡ o
      → Fitting f r
      → ((n : ℕ) (d : Disk pages) → Replayed f rs d (replay pages f rs n d))
      → Replayed f (r ∷ rs) d (elim o [
        | none ↦ replay pages f rs n d
        | some b ↦ elim (restore pages r.page_id b d) [
          | none ↦ none
          | some d1 ↦ replay pages f rs (n + 1) d1
        ]
      ])
  unfolding Replayed last_image Holds Fitting
  replay_turn f r rs n d none e v ih =
      let (d', m, q, all) = ih n d in
      let kept = λ (k : ℕ).
        if_intro (λ (o : Option (List ℕ)). Holds o k d d) (eqb r.page_id k) none none
          (λ _. inr refl) (λ _. inr refl) in
      (
        d',
        m,
        q,
        λ k.
            Holds-trans k (if eqb r.page_id k then f r else none) (last_image f k rs) d d d'
              (subst (λ (x : Option (List ℕ)). Holds (if eqb r.page_id k then x else none) k d d)
                (sym e) (kept k))
              (all k),
      )
  replay_turn f r rs n d (some b) e v ih =
      let fits : pages.IsImage b × (pages.id_of b ≡ r.page_id) =
        subst (λ o. elim o [ none ↦ Unit | some x ↦ pages.IsImage x × (pages.id_of x ≡ r.page_id) ])
          e v in
      let (d1, q1, h1) = restore-Holds r.page_id b d fits.0 fits.1 in
      let (d', m, q, all) = ih (n + 1) d1 in
      (
        d',
        m,
        ap
              (λ (o : Option (Disk pages)). elim o [
                | none ↦ none
                | some x ↦ replay pages f rs (n + 1) x
              ])
              q1
            ∙ q,
        λ k.
            Holds-trans k (if eqb r.page_id k then f r else none) (last_image f k rs) d d1 d'
              (subst (λ (x : Option (List ℕ)). Holds (if eqb r.page_id k then x else none) k d d1)
                (sym e) (h1 k))
              (all k),
      )

  replay-Holds :
      (f : LogRecord → Option (List ℕ)) (rs : List LogRecord) (n : ℕ) (d : Disk pages)
      → All (Fitting f) rs
      → Replayed f rs d (replay pages f rs n d)
  unfolding Replayed replay last_image Holds
  replay-Holds f [] n d h = (d, n, refl, λ k. inr refl)
  replay-Holds f (r ∷ rs) n d (v, h) =
      replay_turn f r rs n d (f r) refl v (λ n d. replay-Holds f rs n d h)

  reverse_aux-All :
      (f : LogRecord → Option (List ℕ)) (rs acc : List LogRecord)
      → All (Fitting f) rs
      → All (Fitting f) acc
      → All (Fitting f) (reverse_aux rs acc)
  reverse_aux-All f [] acc h g = g
  reverse_aux-All f (r ∷ rs) acc (v, h) g = reverse_aux-All f rs (r ∷ acc) h (v, g)

  pub repair-Holds :
      (rs : List LogRecord) (d : Disk pages)
      → All (Fitting (redo_image (analyse rs).winners)) rs
      → All (Fitting (undo_image (analyse rs).losers)) rs
      → (d' : Disk pages) × (redone : ℕ) × (undone : ℕ) × (repair pages rs d
          ≡ some (d', redone, undone))
        × ((k : ℕ)
            → Holds
                (or_else
                  (last_image (undo_image (analyse rs).losers) k (reverse rs))
                  (last_image (redo_image (analyse rs).winners) k rs))
                k
                d
                d')
  unfolding repair redo undo Replayed
  repair-Holds rs d h g =
      let v = analyse rs in
      let (d1, n, q, all) = replay-Holds (redo_image v.winners) rs 0 d h in
      let (d2, m, q', all') =
        replay-Holds (undo_image v.losers) (reverse rs) 0 d1
          (reverse_aux-All (undo_image v.losers) rs [] g tt) in
      (
        d2,
        n,
        m,
        ap
              (λ (o : Option (Disk pages × ℕ)). elim o [
                | none ↦ none
                | some r ↦ elim (undo pages rs v.losers r.0) [
                  | none ↦ none
                  | some u ↦ some (u.0, r.1, u.1)
                ]
              ])
              q
            ∙ ap
                (λ (o : Option (Disk pages × ℕ)). elim o [
                  | none ↦ none
                  | some u ↦ some (u.0, n, u.1)
                ])
                q',
        λ k.
            Holds-trans k (last_image (redo_image v.winners) k rs)
              (last_image (undo_image v.losers) k (reverse rs)) d d1 d2 (all k) (all' k),
      )
