-- ===== src/Metrics/Series.antt =====
-- The samples that src/engine/metrics/Metrics.js keeps of a name.
use collab_write.Prelude.{
  ℕ, zero, suc, ◌+◌, ◌-◌, ◌≤◌, ◌≡◌, refl, ap, sym, subst, ◌∙◌, inl, inr, Bool, true, Bool-cases,
  Option, none, some, List, [], ◌∷◌, ◌++◌, if◌then◌else◌, if_intro, ltb, length, append-nil,
  append_assoc, length-append, length-drop, drop, arith, Key, ◌===◌,
}
use collab_write.Prelude.Map
use collab_write.Prelude.Map.{Map, get-set}
use collab_write.Metrics.{Metrics, shift, push, series_of, record_sample}

-- The last `n` values.
unfoldable pub latest : {V : Type 0} → ℕ → List V → List V
latest n vs = drop (length vs - n) vs

drop_early :
    {V : Type 0} (k : ℕ) (vs ws : List V) → k ≤ length vs → drop k vs ++ ws ≡ drop k (vs ++ ws)
drop_early zero vs ws h = refl
drop_early (suc k) [] ws h = ground (arith, h)
drop_early (suc k) (v ∷ vs) ws h = drop_early k vs ws (ground (arith, h))

drop_nothing : {V : Type 0} (k : ℕ) → drop {A = V} k [] ≡ []
drop_nothing zero = refl
drop_nothing (suc k) = refl

shift-drop : {V : Type 0} (k : ℕ) (vs : List V) → shift (drop k vs) ≡ drop (suc k) vs
unfolding shift
shift-drop zero [] = refl
shift-drop (suc k) [] = refl
shift-drop zero (v ∷ vs) = refl
shift-drop (suc k) (v ∷ vs) = shift-drop k vs

push-latest :
    {V : Type 0} (n : ℕ) (vs : List V) (v : V) → push n (latest n vs) v ≡ latest n (vs ++ v ∷ [])
unfolding push latest
push-latest n vs v =
    let k = length vs - n in
    let longer = drop k vs ++ v ∷ [] in
    let size : length longer ≡ length vs - k + 1 =
      length-append (drop k vs) (v ∷ []) ∙ ap (λ x. x + 1) (length-drop k vs) in
    let early : longer ≡ drop k (vs ++ v ∷ []) = drop_early k vs (v ∷ []) (omega arith) in
    let grown : length (vs ++ v ∷ []) ≡ length vs + 1 = length-append vs (v ∷ []) in
    if_intro (λ r. r ≡ drop (length (vs ++ v ∷ []) - n) (vs ++ v ∷ [])) (ltb n (length longer))
      (shift longer) longer
      (λ e.
        let i : suc k ≡ length (vs ++ v ∷ []) - n = ground (arith, e, size, grown) in
        ap shift early ∙ shift-drop k (vs ++ v ∷ []) ∙ ap (λ x. drop x (vs ++ v ∷ [])) i)
      (λ e.
        let i : k ≡ length (vs ++ v ∷ []) - n = ground (arith, e, size, grown) in
        early ∙ ap (λ x. drop x (vs ++ v ∷ [])) i)

module _ {N V : Type 0} ⦃key : Key N⦄ where
  unfoldable pub run : List (N × V) → Metrics N V → Metrics N V
  run [] m = m
  run ((n, v) ∷ rest) m = run rest (record_sample n v m).0

  -- The values recorded under a name, in order.
  unfoldable pub values : N → List (N × V) → List V
  values n [] = []
  values n ((k, v) ∷ rest) = if k === n then v ∷ values n rest else values n rest

  series_of-set :
      (n k : N) (s : List V) (m : Map N (List V))
      → series_of n (Map.set k s m) ≡ (if k === n then s else series_of n m)
  unfolding series_of
  series_of-set n k s m =
      ap (λ (o : Option (List V)). elim o [ none ↦ [] | some x ↦ x ]) (get-set k n s m)
      ∙ if_intro
          (λ (o : Option (List V)).
            elim o [ none ↦ [] | some x ↦ x ]
            ≡ (if k === n then s else elim (Map.get n m) [ none ↦ [] | some x ↦ x ]))
          (k === n) (some s) (Map.get n m)
          (λ e. sym (ap (λ b. if b then s else elim (Map.get n m) [ none ↦ [] | some x ↦ x ]) e))
          (λ e. sym (ap (λ b. if b then s else elim (Map.get n m) [ none ↦ [] | some x ↦ x ]) e))

  recorded :
      (k : N) (v : V) (m : Metrics N V)
      → m.enabled ≡ true
      → (record_sample k v m).0
        ≡ record m { samples = Map.set k (push m.retain (series_of k m.samples) v) m.samples }
  unfolding record_sample
  recorded k v m e =
      let m' : Metrics N V = record m {
        samples = Map.set k (push m.retain (series_of k m.samples) v) m.samples;
      } in
      if_intro (λ (r : Metrics N V × Option (N × V)). r.0 ≡ m') m.enabled _ _ (λ _. refl)
        (λ f. ground (arith, e, f))

  run-latest :
      (calls : List (N × V)) (n : N) (m : Metrics N V) (before : List V)
      → m.enabled ≡ true
      → series_of n m.samples ≡ latest m.retain before
      → series_of n (run calls m).samples ≡ latest m.retain (before ++ values n calls)
  unfolding run values
  run-latest [] n m before e h = h ∙ ap (latest m.retain) (sym (append-nil before))
  run-latest ((k, v) ∷ rest) n m before e h =
      let m' : Metrics N V = record m {
        samples = Map.set k (push m.retain (series_of k m.samples) v) m.samples;
      } in
      subst
        (λ (r : Metrics N V).
          series_of n (run rest r).samples ≡ latest m.retain (before ++ values n ((k, v) ∷ rest)))
        (sym (recorded k v m e))
        (elim (Bool-cases (k === n)) [
          | inl i ↦
              run-latest rest n m' (before ++ v ∷ []) e (
                series_of-set n k (push m.retain (series_of k m.samples) v) m.samples
                ∙ ap
                    (λ b.
                      if b then push m.retain (series_of k m.samples) v else series_of n m.samples)
                    i
                ∙ ap (λ j. push m.retain (series_of j m.samples) v) ((key.same_iff k n).0 i)
                ∙ ap (λ l. push m.retain l v) h
                ∙ push-latest m.retain before v)
              ∙ ap (latest m.retain) (
                  append_assoc before (v ∷ []) (values n rest)
                  ∙ ap (λ b. before ++ (if b then v ∷ values n rest else values n rest)) (sym i))
          | inr i ↦
              run-latest rest n m' before e (
                series_of-set n k (push m.retain (series_of k m.samples) v) m.samples
                ∙ ap
                    (λ b.
                      if b then push m.retain (series_of k m.samples) v else series_of n m.samples)
                    i
                ∙ h)
              ∙ ap
                  (λ b.
                    latest m.retain (before ++ (if b then v ∷ values n rest else values n rest)))
                  (sym i)
        ])

  -- After any records on a new, enabled Metrics the series of a name is the last values recorded
  -- under it, in order, as many as are retained.
  pub series-latest :
      (file : Bool) (retain : ℕ) (calls : List (N × V)) (n : N)
      → series_of n
          (run calls
            (record { file = file; enabled = true; retain = retain; samples = [] })).samples
        ≡ latest retain (values n calls)
  unfolding series_of latest Map.get
  series-latest file retain calls n =
      run-latest calls n (record { file = file; enabled = true; retain = retain; samples = [] }) []
        refl (sym (drop_nothing (0 - retain)))
