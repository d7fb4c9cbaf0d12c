-- ===== src/Index/Tree/Leaves.antt =====
-- The deletion of src/engine/index/BPlusTree.js, seen on the list of the entries of the leaves.
use collab_write.Prelude.{
  ℕ, ◌≡◌, refl, ap, sym, ◌∙◌, Bool, true, false, ◌&&◌, inl, inr, Option, none, some, List, [], ◌∷◌,
  ◌++◌, length, if◌then◌else◌, if_intro, ltb, append-nil, Bool-cases, Option-cases, mem, without,
  arith,
}
use collab_write.Index.Tree.{
  KeyOrder, Entry, Tree, leaf, node, Forest, end, link, entries, entries_of,
}
use collab_write.Index.Tree.Delete.{
  Fixed, underfull, rebalance_first, rebalance_next, delete_doc, delete_entry, at_leaf, at_node,
  after_first, after_next, behind, stops_before, delete_tree, delete_forest, collapse, tree_delete,
}
use collab_write.Index.Tree.Order.{
  entry_keys, children-All, Below, Above, IsOrdered, Follows, Below-From, From-Above, less_irrefl,
  less_irrefl',
}
use collab_write.Index.Tree.Insert.{pair_entries}
use collab_write.Index.Tree.Rebalance.{
  omap, rebalance_first-entries, rebalance_next-entries, of_leaf, of_tree, of_fixed,
}

module _ {K : Type 0} ⦃o : KeyOrder K⦄ where
  at_leaf-entries : (r : Option (List (Entry K) × Bool)) → of_tree (at_leaf r) ≡ of_leaf r
  unfolding of_tree of_leaf at_leaf entries
  at_leaf-entries none = refl
  at_leaf-entries (some (es, gone)) = refl

  at_node-entries : (r : Option (Fixed K)) → of_tree (at_node r) ≡ of_fixed r
  unfolding of_tree of_fixed at_node entries pair_entries
  at_node-entries none = refl
  at_node-entries (some ((t, f), check)) = refl

  after_first-entries :
      (m : ℕ) (r : Option (Tree K × Bool)) (f : Forest K)
      → of_fixed (after_first m r f) ≡ omap (λ es. es ++ entries_of f) (of_tree r)
  unfolding of_tree of_fixed after_first pair_entries
  after_first-entries m none f = refl
  after_first-entries m (some (t, check)) f = ap some (
      if_intro (λ (x : Fixed K). pair_entries x.0 ≡ entries t ++ entries_of f)
        (check && underfull m t) (rebalance_first m t f) ((t, f), false)
        (λ _. rebalance_first-entries m t f) (λ _. refl))

  after_next-entries :
      (m : ℕ) (l : Tree K) (k : K) (r : Option (Tree K × Bool)) (f : Forest K)
      → of_fixed (after_next m l k r f)
        ≡ omap (λ es. entries l ++ es) (omap (λ es. es ++ entries_of f) (of_tree r))
  unfolding of_tree of_fixed after_next pair_entries entries
  after_next-entries m l k none f = refl
  after_next-entries m l k (some (u, check)) f = ap some (
      if_intro (λ (x : Fixed K). pair_entries x.0 ≡ entries l ++ (entries u ++ entries_of f))
        (check && underfull m u) (rebalance_next m l k u f) ((l, link k u f), false)
        (λ _. rebalance_next-entries m l k u f) (λ _. refl))

  behind-entries :
      (l : Tree K) (k : K) (r : Option (Fixed K))
      → of_fixed (behind l k r) ≡ omap (λ es. entries l ++ es) (of_fixed r)
  unfolding of_fixed behind pair_entries entries
  behind-entries l k none = refl
  behind-entries l k (some ((u, f), check)) = refl

  -- A deletion behind smaller keys, and before larger ones.
  delete_entry-right :
      (key : K) (d : Option ℕ) (xs ys : List (Entry K))
      → Below key (entry_keys xs)
      → of_leaf (delete_entry key d (xs ++ ys))
        ≡ omap (λ es. xs ++ es) (of_leaf (delete_entry key d ys))
  unfolding delete_entry of_leaf entry_keys
  delete_entry-right key d [] ys h = elim (Option-cases (delete_entry key d ys)) [
    | inl e ↦ ground (arith, e)
    | inr ((es, g), e) ↦ ground (arith, e)
  ]
  delete_entry-right key d ((k, ds) ∷ xs) ys (h, hs) =
      elim (Option-cases (delete_entry key d (xs ++ ys))) [
        | inl e ↦ elim (Option-cases (delete_entry key d ys)) [
          | inl f ↦ ground (arith, e, f, less_irrefl' k key h, delete_entry-right key d xs ys hs)
          | inr ((es, g), f) ↦
              ground (arith, e, f, less_irrefl' k key h, delete_entry-right key d xs ys hs)
        ]
        | inr ((zs, c), e) ↦ elim (Option-cases (delete_entry key d ys)) [
          | inl f ↦ ground (arith, e, f, less_irrefl' k key h, delete_entry-right key d xs ys hs)
          | inr ((es, g), f) ↦
              ground (arith, e, f, less_irrefl' k key h, delete_entry-right key d xs ys hs)
        ]
      ]

  delete_entry-Above :
      (key : K) (d : Option ℕ) (ys : List (Entry K))
      → Above key (entry_keys ys)
      → delete_entry key d ys ≡ none
  unfolding delete_entry entry_keys
  delete_entry-Above key d [] h = refl
  delete_entry-Above key d ((k, ds) ∷ ys) (h, hs) =
      ground (arith, less_irrefl key k h, delete_entry-Above key d ys hs)

  delete_doc-left :
      (k : K) (d : Option ℕ) (ds : List ℕ) (xs ys : List (Entry K))
      → of_leaf (delete_doc k d ds (xs ++ ys))
        ≡ omap (λ es. es ++ ys) (of_leaf (delete_doc k d ds xs))
  unfolding delete_doc of_leaf
  delete_doc-left k none ds xs ys = refl
  delete_doc-left k (some d) ds xs ys = elim (Bool-cases (mem d ds)) [
    | inl e ↦ elim (Bool-cases (ltb 0 (length (without d ds)))) [
      | inl f ↦ rw (delete_doc, e, f) refl
      | inr f ↦ rw (delete_doc, e, f) refl
    ]
    | inr e ↦ rw (delete_doc, e) refl
  ]

  delete_entry-left :
      (key : K) (d : Option ℕ) (xs ys : List (Entry K))
      → Above key (entry_keys ys)
      → of_leaf (delete_entry key d (xs ++ ys))
        ≡ omap (λ es. es ++ ys) (of_leaf (delete_entry key d xs))
  unfolding delete_entry of_leaf
  delete_entry-left key d [] ys h = ap of_leaf (delete_entry-Above key d ys h)
  delete_entry-left key d ((k, ds) ∷ xs) ys h = elim (Bool-cases (o.same k key)) [
    | inl same ↦ ground (arith, same, delete_doc-left k d ds xs ys)
    | inr other ↦ elim (Option-cases (delete_entry key d (xs ++ ys))) [
      | inl e ↦ elim (Option-cases (delete_entry key d xs)) [
        | inl f ↦ ground (arith, e, f, other, delete_entry-left key d xs ys h)
        | inr ((es, g), f) ↦ ground (arith, e, f, other, delete_entry-left key d xs ys h)
      ]
      | inr ((zs, c), e) ↦ elim (Option-cases (delete_entry key d xs)) [
        | inl f ↦ ground (arith, e, f, other, delete_entry-left key d xs ys h)
        | inr ((es, g), f) ↦ ground (arith, e, f, other, delete_entry-left key d xs ys h)
      ]
    ]
  ]

  stops_before-first :
      (m : ℕ) (key : K) (d : Option ℕ) (here : Option (Tree K × Bool)) (t : Tree K) (f : Forest K)
      → stops_before key f ≡ true
      → delete_forest m key d here t f ≡ after_first m here f
  unfolding stops_before delete_tree
  stops_before-first m key d here t end h = refl
  stops_before-first m key d here t (link k u f) h = ground (arith, h)

  mutual
    unfolding delete_tree entries IsOrdered entry_keys

    delete_tree-entries :
        (m : ℕ) (key : K) (d : Option ℕ) (t : Tree K)
        → IsOrdered t
        → of_tree (delete_tree m key d t) ≡ of_leaf (delete_entry key d (entries t))
    delete_tree-entries m key d (leaf es) h = at_leaf-entries (delete_entry key d es)
    delete_tree-entries m key d (node t f) (h, g) =
        at_node-entries (delete_forest m key d (delete_tree m key d t) t f)
        ∙ delete_forest-entries m key d (delete_tree m key d t) t f
            (delete_tree-entries m key d t h) g

    delete_forest-entries :
        (m : ℕ) (key : K) (d : Option ℕ) (here : Option (Tree K × Bool)) (t : Tree K) (f : Forest K)
        → of_tree here ≡ of_leaf (delete_entry key d (entries t))
        → Follows t f
        → of_fixed (delete_forest m key d here t f)
          ≡ of_leaf (delete_entry key d (entries t ++ entries_of f))
    delete_forest-entries m key d here t end e h =
        after_first-entries m here end
        ∙ ap (omap (λ es. es ++ [])) e
        ∙ sym (delete_entry-left key d (entries t) [] tt)
    delete_forest-entries m key d here t (link k u f) e (b, _, from, ordered, rest) =
        let z = entries u ++ entries_of f in
        let there = delete_tree m key d u in
        let below = λ (l : o.less key k ≡ false).
          delete_entry-right key d (entries t) z (Below-From key k (entry_keys (entries t)) l b) in
        let further =
          delete_forest-entries m key d there u f (delete_tree-entries m key d u ordered) rest in
        let P =
          λ (x : Option (Fixed K)). of_fixed x ≡ of_leaf (delete_entry key d (entries t ++ z)) in
        if_intro P (o.less key k) (after_first m here (link k u f)) _
          (λ l.
            after_first-entries m here (link k u f)
            ∙ ap (omap (λ es. es ++ z)) e
            ∙ sym (
                delete_entry-left key d (entries t) z
                  (From-Above key k (entry_keys z) l (children-All _ u f from))))
          (λ l.
            if_intro P (stops_before key f) (after_next m t k there f)
              (behind t k (delete_forest m key d there u f))
              (λ q.
                after_next-entries m t k there f
                ∙ ap (omap (λ es. entries t ++ es)) (
                    sym (after_first-entries m there f)
                    ∙ ap of_fixed (sym (stops_before-first m key d there u f q))
                    ∙ further)
                ∙ sym (below l))
              (λ q.
                behind-entries t k (delete_forest m key d there u f)
                ∙ ap (omap (λ es. entries t ++ es)) further
                ∙ sym (below l)))

  -- The list after a deletion, and whether something was removed.
  unfoldable pub deleted : Option (List (Entry K)) → List (Entry K) → List (Entry K) × Bool
  deleted none es = (es, false)
  deleted (some es') es = (es', true)

  collapse-entries : (t : Tree K) → entries (collapse t) ≡ entries t
  unfolding collapse entries
  collapse-entries (leaf es) = refl
  collapse-entries (node t end) = sym (append-nil (entries t))
  collapse-entries (node t (link k u f)) = refl

  result-entries :
      (t : Tree K) (r : Option (Tree K × Bool))
      → let (t', removed) : Tree K × Bool = elim r [
        | none ↦ (t, false)
        | some (t', check) ↦ (if check then collapse t' else t', true)
      ] in
        (entries t', removed) ≡ deleted (of_tree r) (entries t)
  unfolding deleted of_tree
  result-entries t none = refl
  result-entries t (some (t', true)) = ap (λ es. (es, true)) (collapse-entries t')
  result-entries t (some (t', false)) = refl

  pub tree_delete-entries :
      (m : ℕ) (key : K) (d : Option ℕ) (t : Tree K)
      → IsOrdered t
      → let (t', removed) = tree_delete m key d t in
        (entries t', removed) ≡ deleted (of_leaf (delete_entry key d (entries t))) (entries t)
  unfolding tree_delete
  tree_delete-entries m key d t h =
      result-entries t (delete_tree m key d t)
      ∙ ap (λ r. deleted r (entries t)) (delete_tree-entries m key d t h)
