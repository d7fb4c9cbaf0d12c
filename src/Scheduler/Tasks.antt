-- ===== src/Scheduler/Tasks.antt =====
-- The tasks of src/engine/scheduler/Scheduler.js and `insertByPriority`. What a task does, its
-- label and its payload are of any type. Times are in milliseconds.
use collab_write.Prelude.{
  ℕ, zero, suc, eqb, Bool-cases, ◌+◌, ◌≡◌, ◌⊎◌, inl, inr, refl, if_intro, ap, subst, sym, ◌∙◌, Bool,
  true, false, not, Option, none, some, List, [], ◌∷◌, ◌++◌, if◌then◌else◌, filter, take, drop,
  get_elem?, length, arith, append_assoc, length-append, length-take, length-drop, append-nil,
  filter-append,
}

pub record Task (W : Type 0) : Type 0 where
  pub task_id : ℕ
  pub doc_id : ℕ
  pub priority : Bool
  pub work : W
  pub enqueued_at : ℕ
  pub started_at : Option ℕ
  pub finished_at : Option ℕ
  pub worker_id : Option ℕ

module _ {W : Type 0} where
  -- `splice(position, 0, task)`
  splice : ℕ → Task W → List (Task W) → List (Task W)
  splice position t q = take position q ++ t ∷ drop position q

  is_urgent : Option (Task W) → Bool
  is_urgent none = false
  is_urgent (some t) = t.priority

  -- The loop that moves `position` down past the tasks without priority.
  find_position : ℕ → List (Task W) → ℕ
  unfolding is_urgent
  find_position zero q = 0
  find_position (suc n) q =
      let rest = find_position n q in if is_urgent (get_elem? q n) then suc n else rest

  unfoldable pub insert_by_priority : List (Task W) → Task W → List (Task W)
  unfolding splice find_position
  insert_by_priority q t =
      if not t.priority then q ++ t ∷ [] else splice (find_position (length q) q) t q

  abbrev pub urgent : List (Task W) → List (Task W)
  urgent = filter (λ (t : Task W). t.priority)

  abbrev pub normal : List (Task W) → List (Task W)
  normal = filter (λ (t : Task W). not t.priority)

  -- The urgent tasks stand before the others.
  abbrev pub IsPartitioned : List (Task W) → Type 0
  IsPartitioned [] = Unit
  IsPartitioned (x ∷ q) = ((x.priority ≡ true) ⊎ (urgent q ≡ [])) × IsPartitioned q

  find_position-cons :
      (n : ℕ) (x : Task W) (q : List (Task W))
      → find_position (suc n) (x ∷ q) ≡ (
          if eqb (find_position n q) 0
          then (if x.priority then 1 else 0)
          else suc (find_position n q))
  unfolding find_position is_urgent
  find_position-cons zero x q = ground arith
  find_position-cons (suc n) x q = ground (arith, find_position-cons n x q)

  find_position_none : (q : List (Task W)) → urgent q ≡ [] → find_position (length q) q ≡ 0
  unfolding find_position is_urgent
  find_position_none [] e = refl
  find_position_none (x ∷ q) e = elim (Bool-cases x.priority) [
    | inl t ↦ ground (arith, t, e)
    | inr t ↦ find_position-cons (length q) x q ∙ ground (arith, t, e, find_position_none q)
  ]

  normal_all : (q : List (Task W)) → urgent q ≡ [] → normal q ≡ q
  normal_all [] e = refl
  normal_all (x ∷ q) e = elim (Bool-cases x.priority) [
    | inl t ↦ ground (arith, t, e)
    | inr t ↦ ground (arith, t, e, normal_all q)
  ]

  partition : (q : List (Task W)) → IsPartitioned q → q ≡ urgent q ++ normal q
  partition [] h = refl
  partition (x ∷ q) (inl t, h) = ground (arith, t, partition q h)
  partition (x ∷ q) (inr e, h) = elim (Bool-cases x.priority) [
    | inl t ↦ ground (arith, t, partition q h)
    | inr t ↦ ground (arith, t, e, normal_all q e)
  ]

  insert_head :
      (x : Task W) (q : List (Task W)) (t : Task W)
      → x.priority ≡ true
      → splice (find_position (length q) q) t q ≡ urgent q ++ t ∷ normal q
      → splice (find_position (suc (length q)) (x ∷ q)) t (x ∷ q)
        ≡ urgent (x ∷ q) ++ t ∷ normal (x ∷ q)
  unfolding splice
  insert_head x q t u e =
      let p : find_position (suc (length q)) (x ∷ q) ≡ suc (find_position (length q) q) =
        find_position-cons (length q) x q ∙ ground (arith, u) in
      ap (λ n. take n (x ∷ q) ++ t ∷ drop n (x ∷ q)) p ∙ ap (◌∷◌ x) e ∙ ground (arith, u)

  insert_urgent :
      (q : List (Task W)) (t : Task W)
      → IsPartitioned q
      → splice (find_position (length q) q) t q ≡ urgent q ++ t ∷ normal q
  unfolding splice find_position
  insert_urgent [] t h = refl
  insert_urgent (x ∷ q) t (inl e, h) = insert_head x q t e (insert_urgent q t h)
  insert_urgent (x ∷ q) t (inr e, h) = elim (Bool-cases x.priority) [
    | inl u ↦ insert_head x q t u (insert_urgent q t h)
    | inr u ↦
        let p : find_position (suc (length q)) (x ∷ q) ≡ 0 =
          find_position-cons (length q) x q ∙ ground (arith, u, find_position_none q e) in
        ap (λ n. take n (x ∷ q) ++ t ∷ drop n (x ∷ q)) p ∙ ground (arith, u, e, normal_all q e)
  ]

  urgent-normal : (q : List (Task W)) → urgent (normal q) ≡ []
  urgent-normal [] = refl
  urgent-normal (x ∷ q) = elim (Bool-cases x.priority) [
    | inl u ↦ ground (arith, u, urgent-normal q)
    | inr u ↦ ground (arith, u, urgent-normal q)
  ]

  normal-IsPartitioned : (q : List (Task W)) → IsPartitioned (normal q)
  normal-IsPartitioned [] = tt
  normal-IsPartitioned (x ∷ q) = elim (Bool-cases x.priority) [
    | inl u ↦ ground (arith, u, normal-IsPartitioned q)
    | inr u ↦ ground (arith, u, urgent-normal q, normal-IsPartitioned q)
  ]

  urgent-IsPartitioned : (q r : List (Task W)) → IsPartitioned r → IsPartitioned (urgent q ++ r)
  urgent-IsPartitioned [] r h = h
  urgent-IsPartitioned (x ∷ q) r h = elim (Bool-cases x.priority) [
    | inl u ↦ ground (arith, u, urgent-IsPartitioned q r h)
    | inr u ↦ ground (arith, u, urgent-IsPartitioned q r h)
  ]

  insert-sorted :
      (q : List (Task W)) (t : Task W)
      → IsPartitioned q
      → insert_by_priority q t ≡ urgent (q ++ t ∷ []) ++ normal (q ++ t ∷ [])
  unfolding insert_by_priority
  insert-sorted q t h =
      let e : urgent (q ++ t ∷ []) ≡ urgent q ++ urgent (t ∷ []) = filter-append _ q (t ∷ []) in
      let f : normal (q ++ t ∷ []) ≡ normal q ++ normal (t ∷ []) = filter-append _ q (t ∷ []) in
      if_intro (λ r. r ≡ urgent (q ++ t ∷ []) ++ normal (q ++ t ∷ [])) (not t.priority) _ _
        (λ (n : not t.priority ≡ true).
          let eu : urgent (t ∷ []) ≡ [] = ground (arith, n) in
          let en : normal (t ∷ []) ≡ t ∷ [] = ground (arith, n) in
          ap (λ l. l ++ t ∷ []) (partition q h)
          ∙ append_assoc (urgent q) (normal q) (t ∷ [])
          ∙ sym (
              ap (λ l. l ++ normal (q ++ t ∷ []))
                (e ∙ ap (λ l. urgent q ++ l) eu ∙ append-nil (urgent q))
              ∙ ap (λ l. urgent q ++ l) (f ∙ ap (λ l. normal q ++ l) en)))
        (λ (n : not t.priority ≡ false).
          let eu : urgent (t ∷ []) ≡ t ∷ [] = ground (arith, n) in
          let en : normal (t ∷ []) ≡ [] = ground (arith, n) in
          insert_urgent q t h
          ∙ sym (
              ap (λ l. l ++ normal (q ++ t ∷ [])) (e ∙ ap (λ l. urgent q ++ l) eu)
              ∙ append_assoc (urgent q) (t ∷ []) _
              ∙ ap (λ l. urgent q ++ t ∷ l)
                  (f ∙ ap (λ l. normal q ++ l) en ∙ append-nil (normal q))))

  -- Where the urgent tasks of a queue stand before the others, insertByPriority gives the urgent
  -- tasks, old and new, before the others, each class in the order of arrival, so that the
  -- urgent ones stand first again.
  pub insert_by_priority-IsPartitioned :
      (q : List (Task W)) (t : Task W)
      → IsPartitioned q
      → (insert_by_priority q t ≡ urgent (q ++ t ∷ []) ++ normal (q ++ t ∷ []))
        × IsPartitioned (insert_by_priority q t)
  insert_by_priority-IsPartitioned q t h =
      let e = insert-sorted q t h in
      (
        e,
        subst IsPartitioned (sym e)
            (urgent-IsPartitioned (q ++ t ∷ []) _ (normal-IsPartitioned (q ++ t ∷ []))),
      )

  pub length-insert_by_priority :
      (q : List (Task W)) (t : Task W) → length (insert_by_priority q t) ≡ length q + 1
  unfolding insert_by_priority splice
  length-insert_by_priority q t =
      let n = find_position (length q) q in
      if_intro (λ (r : List (Task W)). length r ≡ length q + 1) (not t.priority) _ _
        (λ _. length-append q (t ∷ []) ∙ ground arith)
        (λ _.
          length-append (take n q) (t ∷ drop n q)
          ∙ ground (arith, length-take n q, length-drop n q))
