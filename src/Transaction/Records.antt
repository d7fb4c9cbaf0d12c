-- ===== src/Transaction/Records.antt =====
-- What a transaction of src/engine/transaction/Transaction.js knows after it read and wrote pages.
use collab_write.Prelude.{
  ℕ, ◌≡◌, refl, ap, sym, ◌∙◌, inl, inr, false, Bool-cases, Option-cases, Option, none, some, List,
  [], ◌∷◌, ◌++◌, if◌then◌else◌, if_intro, eqb, eqb_iff, mem, mem-append, append-nil, append_assoc,
  map, any, Nodup, Key, ◌===◌, nat_key, arith,
}
use collab_write.Prelude.Map
use collab_write.Prelude.Map.{Map, get-set, has-get, get_absent}
use collab_write.Transaction.{Transaction, create, record_lock, record_read, record_write}
use mathlib.Core.List.{map-append}

-- The calls that record what a transaction does.
pub data Access (R I : Type 0) : Type 0 where
  locks : R → Access R I
  reads : ℕ → ℕ → Access R I
  writes : ℕ → I → Access R I

-- The first where it is there, else the second.
or_first : Option ℕ → Option ℕ → Option ℕ
or_first none o = o
or_first (some v) o = some v

-- The pages that are modified are those of the undo log, each once.
pub record IsTracked {R I : Type 0} (t : Transaction R I) : Type 0 where
  pub once : Nodup t.modified_pages
  pub tracked : (p : ℕ) → mem p t.modified_pages ≡ mem p (map (λ w. w.0) t.undo_log)

append-Nodup : (xs : List ℕ) (x : ℕ) → Nodup xs → mem x xs ≡ false → Nodup (xs ++ x ∷ [])
append-Nodup [] x h e = (refl, tt)
append-Nodup (y ∷ xs) x (f, h) e = (
  mem-append y xs (x ∷ []) ∙ ground (arith, f, e, eqb_iff x y, eqb_iff y x),
  append-Nodup xs x h (ground (arith, e)),
)

module _ {R I : Type 0} ⦃key : Key R⦄ where
  unfoldable pub step : Access R I → Transaction R I → Transaction R I
  step (locks r) t = record_lock r t
  step (reads p v) t = record_read p v t
  step (writes p b) t = record_write p b t

  unfoldable pub run : List (Access R I) → Transaction R I → Transaction R I
  run [] t = t
  run (a ∷ rest) t = run rest (step a t)

  -- The version of the first read of a page.
  unfoldable pub first_read : ℕ → List (Access R I) → Option ℕ
  first_read p [] = none
  first_read p (locks r ∷ rest) = first_read p rest
  first_read p (writes q b ∷ rest) = first_read p rest
  first_read p (reads q v ∷ rest) = if eqb q p then some v else first_read p rest

  -- The pages written, with their images, in order.
  unfoldable pub written : List (Access R I) → List (ℕ × I)
  written [] = []
  written (locks r ∷ rest) = written rest
  written (reads p v ∷ rest) = written rest
  written (writes p b ∷ rest) = (p, b) ∷ written rest

  step-read_versions :
      (a : Access R I) (rest : List (Access R I)) (p : ℕ) (t : Transaction R I)
      → or_first (Map.get p (step a t).read_versions) (first_read p rest)
        ≡ or_first (Map.get p t.read_versions) (first_read p (a ∷ rest))
  unfolding step first_read record_lock record_read record_write or_first
  step-read_versions (locks r) rest p t =
      if_intro
        (λ (u : Transaction R I).
          or_first (Map.get p u.read_versions) (first_read p rest)
          ≡ or_first (Map.get p t.read_versions) (first_read p rest))
        _ _ _ (λ _. refl) (λ _. refl)
  step-read_versions (writes q b) rest p t = refl
  step-read_versions (reads q v) rest p t =
      let first = λ (o : Option ℕ). or_first o (if eqb q p then some v else first_read p rest) in
      if_intro
        (λ (u : Transaction R I).
          or_first (Map.get p u.read_versions) (first_read p rest)
          ≡ first (Map.get p t.read_versions))
        (Map.has q t.read_versions) _ _
        (λ e. elim (Bool-cases (eqb q p)) [
          | inl i ↦ elim (Option-cases (Map.get p t.read_versions)) [
            | inl n ↦ ground (
              arith,
              e,
              n,
              has-get p t.read_versions,
              ap (λ j. Map.has j t.read_versions) ((eqb_iff q p).0 i),
            )
            | inr (x, n) ↦ ground (arith, n)
          ]
          | inr i ↦ ground (arith, i)
        ])
        (λ e. elim (Bool-cases (eqb q p)) [
          | inl i ↦ ground (
            arith,
            i,
            get-set q p v t.read_versions,
            get_absent q t.read_versions e,
            ap (λ j. Map.get j t.read_versions) ((eqb_iff q p).0 i),
          )
          | inr i ↦ ground (arith, i, get-set q p v t.read_versions)
        ])

  run-read_versions :
      (calls : List (Access R I)) (p : ℕ) (t : Transaction R I)
      → Map.get p (run calls t).read_versions
        ≡ or_first (Map.get p t.read_versions) (first_read p calls)
  unfolding run first_read or_first
  run-read_versions [] p t = ground arith
  run-read_versions (a ∷ rest) p t =
      run-read_versions rest p (step a t) ∙ step-read_versions a rest p t

  step-undo_log :
      (a : Access R I) (rest : List (Access R I)) (t : Transaction R I)
      → (step a t).undo_log ++ written rest ≡ t.undo_log ++ written (a ∷ rest)
  unfolding step written record_lock record_read record_write
  step-undo_log (locks r) rest t =
      if_intro (λ (u : Transaction R I). u.undo_log ++ written rest ≡ t.undo_log ++ written rest) _
        _ _ (λ _. refl) (λ _. refl)
  step-undo_log (reads p v) rest t =
      if_intro (λ (u : Transaction R I). u.undo_log ++ written rest ≡ t.undo_log ++ written rest) _
        _ _ (λ _. refl) (λ _. refl)
  step-undo_log (writes p b) rest t = append_assoc t.undo_log ((p, b) ∷ []) (written rest)

  track :
      (t u : Transaction R I)
      → u.modified_pages ≡ t.modified_pages
      → u.undo_log ≡ t.undo_log
      → IsTracked t
      → IsTracked u
  track t u e f h = record { once = rw e h.once; tracked = rw (e, f) h.tracked }

  step-IsTracked : (a : Access R I) (t : Transaction R I) → IsTracked t → IsTracked (step a t)
  unfolding step record_lock record_read record_write
  step-IsTracked (locks r) t h =
      let u : Transaction R I = record t { locks_held = t.locks_held ++ r ∷ [] } in
      if_intro IsTracked (any (λ x. x === r) t.locks_held) t u (λ _. h) (λ _. track t u refl refl h)
  step-IsTracked (reads p v) t h =
      let u : Transaction R I = record t { read_versions = Map.set p v t.read_versions } in
      if_intro IsTracked (Map.has p t.read_versions) t u (λ _. h) (λ _. track t u refl refl h)
  step-IsTracked (writes p b) t h =
      let apart = λ (q : ℕ).
        ap (mem q) (map-append (λ (w : ℕ × I). w.0) t.undo_log ((p, b) ∷ []))
        ∙ mem-append q (map (λ (w : ℕ × I). w.0) t.undo_log) (p ∷ []) in
      if_intro
        (λ (pages : List ℕ).
          IsTracked (record t { modified_pages = pages; undo_log = t.undo_log ++ (p, b) ∷ [] }))
        (mem p t.modified_pages) _ _
        (λ e. record {
          once = h.once;
          tracked = λ q. ground (
            arith,
            apart q,
            h.tracked q,
            h.tracked p,
            e,
            eqb_iff p q,
            λ (i : p ≡ q). ap (λ x. mem x t.modified_pages) i,
          );
        })
        (λ e. record {
          once = append-Nodup t.modified_pages p h.once e;
          tracked =
              λ q. mem-append q t.modified_pages (p ∷ []) ∙ ground (arith, apart q, h.tracked q);
        })

  run-IsTracked :
      (calls : List (Access R I)) (t : Transaction R I) → IsTracked t → IsTracked (run calls t)
  unfolding run
  run-IsTracked [] t h = h
  run-IsTracked (a ∷ rest) t h = run-IsTracked rest (step a t) (step-IsTracked a t h)

  run-undo_log :
      (calls : List (Access R I)) (t : Transaction R I)
      → (run calls t).undo_log ≡ t.undo_log ++ written calls
  unfolding run written
  run-undo_log [] t = sym (append-nil t.undo_log)
  run-undo_log (a ∷ rest) t = run-undo_log rest (step a t) ∙ step-undo_log a rest t

  -- After any locks, reads and writes of a new transaction the version kept of a page is that of
  -- its first read, the undo log has every write in order, and the modified pages are those of
  -- the undo log, each once.
  pub run-records :
      (now tx_id : ℕ) (calls : List (Access R I)) (p : ℕ)
      → let t = run calls (create now tx_id) in
        (Map.get p t.read_versions ≡ first_read p calls)
        × (t.undo_log ≡ written calls)
        × (mem p t.modified_pages ≡ mem p (map (λ w. w.0) (written calls)))
        × Nodup t.modified_pages
  unfolding create or_first Map.get
  run-records now tx_id calls p =
      let t : Transaction R I = create now tx_id in
      let u = run calls t in
      let h : IsTracked u = run-IsTracked calls t (record { once = tt; tracked = λ q. refl }) in
      let e : u.undo_log ≡ written calls = run-undo_log calls t in
      (
        run-read_versions calls p t,
        e,
        h.tracked p ∙ ap (λ (l : List (ℕ × I)). mem p (map (λ w. w.0) l)) e,
        h.once,
      )
