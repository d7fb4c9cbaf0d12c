-- ===== src/Index/Tree/Rebalance.antt =====
-- The rebalancing of src/engine/index/BPlusTree.js moves entries and loses none.
use collab_write.Prelude.{
  ℕ, ◌≡◌, refl, ap, sym, ◌∙◌, Bool, inl, inr, Option, none, some, List, [], ◌∷◌, ◌++◌, if_intro,
  ltb, append-nil, append_assoc, Bool-cases,
}
use collab_write.Index.Tree.{Entry, Tree, leaf, node, Forest, end, link, entries, entries_of}
use collab_write.Index.Tree.Delete.{
  Siblings, Fixed, size_of, min_keys_for, pop_entry, pop_link, push_links, borrow_from_left,
  borrow_from_right, merge_nodes, merge_into, put_back, rebalance_first, rich_right,
  borrow_or_merge, rebalance_next,
}
use collab_write.Index.Tree.Insert.{pair_entries}

abbrev pub omap {ℓ κ} : {A : Type ℓ} {B : Type κ} → (A → B) → Option A → Option B
omap f none = none
omap f (some a) = some (f a)

module _ {K : Type 0} where
  siblings_entries : Siblings K → List (Entry K)
  siblings_entries (l, k, r) = entries l ++ entries r

  pop_entry-append :
      (e : Entry K) (es : List (Entry K)) → (pop_entry e es).0 ++ (pop_entry e es).1 ∷ [] ≡ e ∷ es
  unfolding pop_entry
  pop_entry-append e [] = refl
  pop_entry-append e (x ∷ es) = ap (◌∷◌ e) (pop_entry-append x es)

  pop_link-entries :
      (k : K) (u : Tree K) (f : Forest K)
      → entries_of (pop_link k u f).0 ++ entries (pop_link k u f).2 ≡ entries u ++ entries_of f
  unfolding pop_link entries
  pop_link-entries k u end = sym (append-nil (entries u))
  pop_link-entries k u (link j v f) =
      append_assoc (entries u) (entries_of (pop_link j v f).0) (entries (pop_link j v f).2)
      ∙ ap (entries u ++◌) (pop_link-entries j v f)

  push_links-entries : (f g : Forest K) → entries_of (push_links f g) ≡ entries_of f ++ entries_of g
  unfolding push_links entries
  push_links-entries end g = refl
  push_links-entries (link k u f) g =
      ap (entries u ++◌) (push_links-entries f g)
      ∙ sym (append_assoc (entries u) (entries_of f) (entries_of g))

  borrow_from_left-entries :
      (l : Tree K) (k : K) (r : Tree K)
      → siblings_entries (borrow_from_left l k r) ≡ entries l ++ entries r
  unfolding borrow_from_left siblings_entries entries
  borrow_from_left-entries (leaf []) k (leaf ys) = refl
  borrow_from_left-entries (leaf []) k (node u g) = refl
  borrow_from_left-entries (leaf (e ∷ es)) k (leaf ys) =
      sym (append_assoc (pop_entry e es).0 ((pop_entry e es).1 ∷ []) ys)
      ∙ ap (◌++ ys) (pop_entry-append e es)
  borrow_from_left-entries (leaf (e ∷ es)) k (node u g) = refl
  borrow_from_left-entries (node t end) k (leaf ys) = refl
  borrow_from_left-entries (node t end) k (node u g) = refl
  borrow_from_left-entries (node t (link j v f)) k (leaf ys) = refl
  borrow_from_left-entries (node t (link j v f)) k (node u g) =
      let (rest, i, w) = pop_link j v f in
      append_assoc (entries t) (entries_of rest) (entries w ++ (entries u ++ entries_of g))
      ∙ ap (entries t ++◌) (
          sym (append_assoc (entries_of rest) (entries w) (entries u ++ entries_of g))
          ∙ ap (◌++ (entries u ++ entries_of g)) (pop_link-entries j v f))
      ∙ sym (append_assoc (entries t) (entries v ++ entries_of f) (entries u ++ entries_of g))

  borrow_from_right-entries :
      (l : Tree K) (k : K) (r : Tree K)
      → siblings_entries (borrow_from_right l k r) ≡ entries l ++ entries r
  unfolding borrow_from_right siblings_entries entries
  borrow_from_right-entries (leaf xs) k (leaf []) = refl
  borrow_from_right-entries (leaf xs) k (leaf (e ∷ [])) = refl
  borrow_from_right-entries (leaf xs) k (leaf (e ∷ (j, ds) ∷ es)) =
      append_assoc xs (e ∷ []) ((j, ds) ∷ es)
  borrow_from_right-entries (leaf xs) k (node u g) = refl
  borrow_from_right-entries (node t f) k (leaf ys) = refl
  borrow_from_right-entries (node t f) k (node u end) = refl
  borrow_from_right-entries (node t f) k (node u (link j v g)) =
      ap (λ z. (entries t ++ z) ++ (entries v ++ entries_of g))
        (push_links-entries f (link k u end) ∙ ap (entries_of f ++◌) (append-nil (entries u)))
      ∙ ap (◌++ (entries v ++ entries_of g))
          (sym (append_assoc (entries t) (entries_of f) (entries u)))
      ∙ append_assoc (entries t ++ entries_of f) (entries u) (entries v ++ entries_of g)

  put_back-entries :
      (s : Siblings K) (f : Forest K)
      → pair_entries (put_back s f).0 ≡ siblings_entries s ++ entries_of f
  unfolding put_back pair_entries siblings_entries entries
  put_back-entries (l, k, r) f = sym (append_assoc (entries l) (entries r) (entries_of f))

  merge_into-entries :
      (l : Tree K) (k : K) (r : Tree K) (f : Forest K)
      → pair_entries (merge_into l k r f).0 ≡ (entries l ++ entries r) ++ entries_of f
  unfolding merge_into merge_nodes pair_entries entries
  merge_into-entries (leaf xs) k (leaf ys) f = refl
  merge_into-entries (leaf xs) k (node u g) f =
      sym (append_assoc xs (entries u ++ entries_of g) (entries_of f))
  merge_into-entries (node t h) k (leaf ys) f =
      sym (append_assoc (entries t ++ entries_of h) ys (entries_of f))
  merge_into-entries (node t h) k (node u g) f = ap (◌++ entries_of f) (
      ap (entries t ++◌) (push_links-entries h (link k u g))
      ∙ sym (append_assoc (entries t) (entries_of h) (entries u ++ entries_of g)))

  pub rebalance_first-entries :
      (m : ℕ) (t : Tree K) (f : Forest K)
      → pair_entries (rebalance_first m t f).0 ≡ entries t ++ entries_of f
  unfolding rebalance_first pair_entries entries
  rebalance_first-entries m t end = refl
  rebalance_first-entries m t (link k u f) =
      if_intro (λ (x : Fixed K). pair_entries x.0 ≡ entries t ++ (entries u ++ entries_of f))
        (ltb (min_keys_for m t) (size_of u)) (put_back (borrow_from_right t k u) f)
        (merge_into t k u f)
        (λ _.
          put_back-entries (borrow_from_right t k u) f
          ∙ ap (◌++ entries_of f) (borrow_from_right-entries t k u)
          ∙ append_assoc (entries t) (entries u) (entries_of f))
        (λ _. merge_into-entries t k u f ∙ append_assoc (entries t) (entries u) (entries_of f))

  -- A borrow from the right sibling behind a left one.
  borrowed_right :
      (l : Tree K) (k : K) (u : Tree K) (j : K) (v : Tree K) (g : Forest K)
      → let (u', j', v') = borrow_from_right u j v in
        pair_entries (l, link k u' (link j' v' g))
        ≡ entries l ++ (entries u ++ (entries v ++ entries_of g))
  unfolding pair_entries entries siblings_entries
  borrowed_right l k u j v g =
      let (u', j', v') = borrow_from_right u j v in
      ap (entries l ++◌) (
        sym (append_assoc (entries u') (entries v') (entries_of g))
        ∙ ap (◌++ entries_of g) (borrow_from_right-entries u j v)
        ∙ append_assoc (entries u) (entries v) (entries_of g))

  borrow_or_merge-entries :
      (m : ℕ) (l : Tree K) (k : K) (u : Tree K) (f : Forest K)
      → pair_entries (borrow_or_merge m l k u f).0 ≡ entries l ++ (entries u ++ entries_of f)
  unfolding borrow_or_merge rich_right entries
  borrow_or_merge-entries m l k u end =
      merge_into-entries l k u end ∙ append_assoc (entries l) (entries u) []
  borrow_or_merge-entries m l k u (link j v g) =
      elim (Bool-cases (ltb (min_keys_for m u) (size_of v))) [
        | inl e ↦ rw (borrow_or_merge, rich_right, e) (borrowed_right l k u j v g)
        | inr e ↦
            rw (borrow_or_merge, rich_right, e)
              (merge_into-entries l k u (link j v g)
                ∙ append_assoc (entries l) (entries u) (entries v ++ entries_of g))
      ]

  pub rebalance_next-entries :
      (m : ℕ) (l : Tree K) (k : K) (u : Tree K) (f : Forest K)
      → pair_entries (rebalance_next m l k u f).0 ≡ entries l ++ (entries u ++ entries_of f)
  unfolding rebalance_next
  rebalance_next-entries m l k u f =
      if_intro (λ (x : Fixed K). pair_entries x.0 ≡ entries l ++ (entries u ++ entries_of f))
        (ltb (min_keys_for m u) (size_of l)) (put_back (borrow_from_left l k u) f)
        (borrow_or_merge m l k u f)
        (λ _.
          put_back-entries (borrow_from_left l k u) f
          ∙ ap (◌++ entries_of f) (borrow_from_left-entries l k u)
          ∙ append_assoc (entries l) (entries u) (entries_of f))
        (λ _. borrow_or_merge-entries m l k u f)

  -- The entries of a result.
  unfoldable pub of_leaf : Option (List (Entry K) × Bool) → Option (List (Entry K))
  of_leaf none = none
  of_leaf (some (es, gone)) = some es

  unfoldable pub of_tree : Option (Tree K × Bool) → Option (List (Entry K))
  of_tree none = none
  of_tree (some (t, check)) = some (entries t)

  unfoldable pub of_fixed : Option (Fixed K) → Option (List (Entry K))
  of_fixed none = none
  of_fixed (some (p, check)) = some (pair_entries p)
