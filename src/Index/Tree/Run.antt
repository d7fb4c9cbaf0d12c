-- ===== src/Index/Tree/Run.antt =====
-- The tree of src/engine/index/BPlusTree.js after any insertions into a new one.
use collab_write.Prelude.{
  ℕ, ◌≡◌, ap, sym, subst, ◌∙◌, true, false, inl, inr, List, [], ◌∷◌, if◌then◌else◌, arith,
  Bool-cases, add,
}
use collab_write.Index.Tree.{
  KeyOrder, Entry, Tree, leaf, entries, insert_entry, lookup, search, tree_insert,
}
use collab_write.Index.Tree.Order.{
  entry_keys, IsSorted, IsOrdered, lookup-Above, From-Above, map-All,
}
use collab_write.Index.Tree.Ordered.{insert_entry-IsSorted}
use collab_write.Index.Tree.Search.{search-entries}
use collab_write.Index.Tree.Insert.{tree_insert-entries}
use collab_write.Index.Tree.Kept.{tree_insert-IsOrdered}

module _ {K : Type 0} ⦃o : KeyOrder K⦄ where
  lookup_less :
      (j k : K) (ds : List ℕ) (es : List (Entry K))
      → o.less j k ≡ true
      → IsSorted ((k, ds) ∷ es)
      → lookup j ((k, ds) ∷ es) ≡ []
  unfolding IsSorted entry_keys
  lookup_less j k ds es l (h, hs) = lookup-Above j ((k, ds) ∷ es) (
    l,
    From-Above j k (entry_keys es) l (map-All _ _ (entry_keys es) (λ x i. o.less-asymm k x i) h),
  )

  -- A lookup after an insertion.
  lookup-insert_entry :
      (j key : K) (d : ℕ) (es : List (Entry K))
      → IsSorted es
      → lookup j (insert_entry key d es)
        ≡ (if o.same key j then add d (lookup j es) else lookup j es)
  unfolding lookup insert_entry IsSorted entry_keys
  lookup-insert_entry j key d [] h = ground arith
  lookup-insert_entry j key d ((k, ds) ∷ es) (h, hs) = elim (Bool-cases (o.same key k)) [
    | inl e ↦
        let q : o.same k j ≡ o.same key j = ap (λ x. o.same x j) (sym ((o.same_iff key k).0 e)) in
        ground (arith, e, q)
    | inr e ↦ elim (Bool-cases (o.less key k)) [
      | inr l ↦ elim (Bool-cases (o.same k j)) [
        | inl i ↦
            let q : o.same key j ≡ false = ap (o.same key) (sym ((o.same_iff k j).0 i)) ∙ e in
            ground (arith, e, l, i, q)
        | inr i ↦ ground (arith, e, l, i, lookup-insert_entry j key d es hs)
      ]
      | inl l ↦ elim (Bool-cases (o.same key j)) [
        | inl i ↦
            let q : o.less j k ≡ true = ap (λ x. o.less x k) (sym ((o.same_iff key j).0 i)) ∙ l in
            ground (arith, e, l, i, lookup_less j k ds es q (h, hs))
        | inr i ↦ ground (arith, e, l, i)
      ]
    ]
  ]

  -- The insertions of keys with documents, one after the other.
  unfoldable pub run : ℕ → List (K × ℕ) → Tree K → Tree K
  run max_keys [] t = t
  run max_keys ((key, d) ∷ calls) t = run max_keys calls (tree_insert max_keys key d t)

  pub run-IsOrdered :
      (m : ℕ) (calls : List (K × ℕ)) (t : Tree K)
      → IsOrdered t
      → IsSorted (entries t)
      → IsOrdered (run m calls t) × IsSorted (entries (run m calls t))
  unfolding run
  run-IsOrdered m [] t h s = (h, s)
  run-IsOrdered m ((k, d) ∷ calls) t h s =
      run-IsOrdered m calls (tree_insert m k d t) (tree_insert-IsOrdered m k d t h) (
        subst IsSorted (sym (tree_insert-entries m k d t h))
          (insert_entry-IsSorted k d (entries t) s))

  -- The documents inserted under a key, each once, in the order of their first insertion.
  unfoldable pub documents : K → List (K × ℕ) → List ℕ → List ℕ
  documents key [] ds = ds
  documents key ((k, d) ∷ calls) ds = documents key calls (if o.same k key then add d ds else ds)

  run-search :
      (m : ℕ) (key : K) (calls : List (K × ℕ)) (t : Tree K)
      → IsOrdered t
      → IsSorted (entries t)
      → search key (run m calls t) ≡ documents key calls (lookup key (entries t))
  unfolding run documents
  run-search m key [] t h s = search-entries key t h
  run-search m key ((k, d) ∷ calls) t h s =
      let e = tree_insert-entries m k d t h in
      run-search m key calls (tree_insert m k d t) (tree_insert-IsOrdered m k d t h)
        (subst IsSorted (sym e) (insert_entry-IsSorted k d (entries t) s))
      ∙ ap (documents key calls) (ap (lookup key) e ∙ lookup-insert_entry key k d (entries t) s)

  -- After any insertions into a new tree, with any bound on the keys of a node, a search for a key
  -- gives the documents inserted under it, each once, in the order of their first insertion.
  pub search-documents :
      (m : ℕ) (key : K) (calls : List (K × ℕ))
      → search key (run m calls (leaf [])) ≡ documents key calls []
  unfolding entries IsOrdered IsSorted lookup
  search-documents m key calls = run-search m key calls (leaf []) tt tt
