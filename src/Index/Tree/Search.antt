-- ===== src/Index/Tree/Search.antt =====
-- The lookup of src/engine/index/BPlusTree.js finds what stands in the leaves.
use collab_write.Prelude.{ℕ, ◌≡◌, refl, ap, sym, ◌∙◌, List, ◌++◌, if_intro, append-nil}
use collab_write.Index.Tree.{
  KeyOrder, Tree, leaf, node, Forest, end, link, entries, entries_of, lookup, search, search_forest,
}
use collab_write.Index.Tree.Order.{
  entry_keys, marks, children-All, IsOrdered, Follows, Below-From, From-Above, lookup-left,
  lookup-right,
}

module _ {K : Type 0} ⦃o : KeyOrder K⦄ where
  mutual
    unfolding search entries IsOrdered marks

    search-lookup : (key : K) (t : Tree K) → IsOrdered t → search key t ≡ lookup key (entries t)
    search-lookup key (leaf es) h = refl
    search-lookup key (node t f) (h, g) =
        search_forest-lookup key (search key t) t f (search-lookup key t h) g

    search_forest-lookup :
        (key : K) (here : List ℕ) (t : Tree K) (f : Forest K)
        → here ≡ lookup key (entries t)
        → Follows t f
        → search_forest key here f ≡ lookup key (entries t ++ entries_of f)
    search_forest-lookup key here t end e h = e ∙ ap (lookup key) (sym (append-nil (entries t)))
    search_forest-lookup key here t (link k u f) e (below, _, from, ordered, rest) =
        let es = entries t in
        let z = entries u ++ entries_of f in
        if_intro (λ (r : List ℕ). r ≡ lookup key (es ++ z)) (o.less key k) here
          (search_forest key (search key u) f)
          (λ l.
            e
            ∙ sym (
                lookup-left key es z (From-Above key k (entry_keys z) l (children-All _ u f from))))
          (λ l.
            search_forest-lookup key (search key u) u f (search-lookup key u ordered) rest
            ∙ sym (lookup-right key es z (Below-From key k (entry_keys es) l below)))

  -- `search` in an ordered tree gives the documents that stand beside the key in the leaves.
  pub search-entries : (key : K) (t : Tree K) → IsOrdered t → search key t ≡ lookup key (entries t)
  search-entries key t h = search-lookup key t h
