-- ===== src/Index/Tree/Insert.antt =====
-- The insertion of src/engine/index/BPlusTree.js is the insertion into the list of the entries.
use collab_write.Prelude.{
  ℕ, zero, suc, ◌+◌, ◌≡◌, refl, ap, sym, ◌∙◌, List, [], ◌∷◌, ◌++◌, length, take, drop, if_intro,
  ltb, append-nil, append_assoc, take-append-drop,
}
use Prim.Native.Nat.{◌/◌}
use collab_write.Index.Tree.{
  KeyOrder, Entry, Tree, leaf, node, Forest, end, link, Grown, one, two, key_count, take_links,
  drop_links, split_at, split_leaf, split_links, split_internal, attach, grow_leaf, grow_node,
  entries, entries_of, insert_entry, insert_tree, insert_forest, insert_root, tree_insert,
}
use collab_write.Index.Tree.Order.{
  entry_keys, marks, children-All, IsOrdered, Follows, Below-From, From-Above, insert_entry-left,
  insert_entry-right,
}

module _ {K : Type 0} where
  -- The entries of a node that has grown.
  unfoldable pub grown_entries : Grown K → List (Entry K)
  grown_entries (one t) = entries t
  grown_entries (two l s r) = entries l ++ entries r

  split_at-entries : (xs ys : List (Entry K)) → grown_entries (split_at xs ys) ≡ xs ++ ys
  unfolding split_at grown_entries entries
  split_at-entries xs [] = sym (append-nil xs)
  split_at-entries xs ((k, ds) ∷ ys) = refl

  grow_leaf-entries : (m : ℕ) (es : List (Entry K)) → grown_entries (grow_leaf m es) ≡ es
  unfolding grow_leaf split_leaf grown_entries entries
  grow_leaf-entries m es =
      if_intro (λ (g : Grown K). grown_entries g ≡ es) (ltb m (length es)) (split_leaf es)
        (one (leaf es))
        (λ h.
          split_at-entries (take ((length es + 1) / 2) es) (drop ((length es + 1) / 2) es)
          ∙ take-append-drop ((length es + 1) / 2) es)
        (λ h. refl)

  links-entries :
      (n : ℕ) (f : Forest K)
      → entries_of (take_links n f) ++ entries_of (drop_links n f) ≡ entries_of f
  unfolding entries take_links drop_links
  links-entries zero f = refl
  links-entries (suc n) end = refl
  links-entries (suc n) (link k u f) =
      append_assoc (entries u) (entries_of (take_links n f)) (entries_of (drop_links n f))
      ∙ ap (entries u ++◌) (links-entries n f)

  split_links-entries :
      (t : Tree K) (f g : Forest K)
      → grown_entries (split_links t f g) ≡ entries t ++ (entries_of f ++ entries_of g)
  unfolding split_links grown_entries entries
  split_links-entries t f end = ap (entries t ++◌) (sym (append-nil (entries_of f)))
  split_links-entries t f (link k u g) =
      append_assoc (entries t) (entries_of f) (entries u ++ entries_of g)

  grow_node-entries :
      (m : ℕ) (t : Tree K) (f : Forest K)
      → grown_entries (grow_node m (t, f)) ≡ entries t ++ entries_of f
  unfolding grow_node split_internal grown_entries entries
  grow_node-entries m t f =
      if_intro (λ (g : Grown K). grown_entries g ≡ entries t ++ entries_of f) (ltb m (key_count f))
        (split_internal t f) (one (node t f))
        (λ h.
          split_links-entries t (take_links (key_count f / 2) f) (drop_links (key_count f / 2) f)
          ∙ ap (entries t ++◌) (links-entries (key_count f / 2) f))
        (λ h. refl)

  -- The entries of a first child and its siblings.
  unfoldable pub pair_entries : Tree K × Forest K → List (Entry K)
  pair_entries (t, f) = entries t ++ entries_of f

  attach-entries :
      (g : Grown K) (f : Forest K) → pair_entries (attach g f) ≡ grown_entries g ++ entries_of f
  unfolding attach grown_entries entries pair_entries
  attach-entries (one t) f = refl
  attach-entries (two l s r) f = sym (append_assoc (entries l) (entries r) (entries_of f))

module _ {K : Type 0} ⦃o : KeyOrder K⦄ where
  mutual
    unfolding insert_tree entries IsOrdered marks pair_entries

    pub insert_tree-entries :
        (m : ℕ) (key : K) (d : ℕ) (t : Tree K)
        → IsOrdered t
        → grown_entries (insert_tree m key d t) ≡ insert_entry key d (entries t)
    insert_tree-entries m key d (leaf es) h = grow_leaf-entries m (insert_entry key d es)
    insert_tree-entries m key d (node t f) (h, g) =
        let (t', f') = insert_forest m key d (insert_tree m key d t) t f in
        grow_node-entries m t' f'
        ∙ insert_forest-entries m key d (insert_tree m key d t) t f
            (insert_tree-entries m key d t h) g

    pub insert_forest-entries :
        (m : ℕ) (key : K) (d : ℕ) (here : Grown K) (t : Tree K) (f : Forest K)
        → grown_entries here ≡ insert_entry key d (entries t)
        → Follows t f
        → pair_entries (insert_forest m key d here t f)
          ≡ insert_entry key d (entries t ++ entries_of f)
    insert_forest-entries m key d here t end e h =
        attach-entries here end
        ∙ append-nil (grown_entries here)
        ∙ e
        ∙ ap (insert_entry key d) (sym (append-nil (entries t)))
    insert_forest-entries m key d here t (link k u f) e (below, _, from, ordered, rest) =
        let z = entries u ++ entries_of f in
        let (u', f') = insert_forest m key d (insert_tree m key d u) u f in
        if_intro (λ (p : Tree K × Forest K). pair_entries p ≡ insert_entry key d (entries t ++ z))
          (o.less key k) (attach here (link k u f)) (t, link k u' f')
          (λ l.
            attach-entries here (link k u f)
            ∙ ap (◌++ z) e
            ∙ sym (
                insert_entry-left key d (entries t) z
                  (From-Above key k (entry_keys z) l (children-All _ u f from))))
          (λ l.
            ap (entries t ++◌) (
              insert_forest-entries m key d (insert_tree m key d u) u f
                (insert_tree-entries m key d u ordered) rest)
            ∙ sym (
                insert_entry-right key d (entries t) z
                  (Below-From key k (entry_keys (entries t)) l below)))

  insert_root-entries : (g : Grown K) → entries (insert_root g) ≡ grown_entries g
  unfolding insert_root entries grown_entries
  insert_root-entries (one t) = refl
  insert_root-entries (two l s r) = ap (entries l ++◌) (append-nil (entries r))

  pub tree_insert-entries :
      (m : ℕ) (key : K) (d : ℕ) (t : Tree K)
      → IsOrdered t
      → entries (tree_insert m key d t) ≡ insert_entry key d (entries t)
  unfolding tree_insert
  tree_insert-entries m key d t h =
      insert_root-entries (insert_tree m key d t) ∙ insert_tree-entries m key d t h
