-- ===== src/Index/Tree/Kept.antt =====
-- The splits of inner nodes and the way back of the insertion in src/engine/index/BPlusTree.js keep
-- the order.
use collab_write.Prelude.{
  ℕ, zero, suc, ◌≡◌, sym, subst, true, false, inl, inr, List, [], ◌∷◌, ◌++◌, if◌then◌else◌,
  if_intro, ltb, Bool-cases,
}
use Prim.Native.Nat.{◌/◌}
use collab_write.Index.Tree.{
  KeyOrder, Tree, leaf, node, Forest, end, link, Grown, one, two, key_count, take_links, drop_links,
  split_links, split_internal, attach, grow_node, entries, entries_of, insert_entry, insert_tree,
  insert_forest, insert_root, tree_insert,
}
use collab_write.Index.Tree.Order.{
  entry_keys, entry_keys-append, marks, marks_of, append-All, All-left, All-right, map-All, Below,
  From, UpTo, IsOrdered, Follows,
}
use collab_write.Index.Tree.Marks.{
  grown_marks, pair_marks, insert_entry-All, insert_tree-All, insert_forest-All, take_links-All,
  drop_links-All,
}
use collab_write.Index.Tree.Insert.{grown_entries, insert_tree-entries}
use collab_write.Index.Tree.Ordered.{
  not_above, IsGrown, IsPair, insert_entry-IsSorted, grow_leaf-IsGrown,
}

module _ {K : Type 0} ⦃o : KeyOrder K⦄ where
  -- Keys up to one separator are up to a later one.
  UpTo-later : (k s : K) (xs : List K) → o.less s k ≡ false → UpTo k xs → UpTo s xs
  UpTo-later k s xs h = map-All _ _ xs (λ x l. not_above x k s l h)

  take_links-Follows :
      (n : ℕ) (t : Tree K) (f : Forest K) → Follows t f → Follows t (take_links n f)
  unfolding take_links IsOrdered marks
  take_links-Follows zero t f h = tt
  take_links-Follows (suc n) t end h = tt
  take_links-Follows (suc n) t (link k u f) (b, q, from, ordered, rest) = (
    b,
    q,
    append-All _ (marks u) (marks_of (take_links n f)) (All-left _ (marks u) (marks_of f) from)
        (take_links-All _ n f (All-right _ (marks u) (marks_of f) from)),
    ordered,
    take_links-Follows n u f rest,
  )

  -- What stands before the first of the links that are left, and that link.
  unfoldable Cut : Tree K → Forest K → Forest K → Type 0
  Cut t f end = Unit
  Cut t f (link s u g) =
      Below s (entry_keys (entries t ++ entries_of f))
      × UpTo s (marks t ++ marks_of f)
      × From s (marks u ++ marks_of g)
      × IsOrdered u
      × Follows u g

  no_links : (t : Tree K) (f : Forest K) → Follows t f → Cut t end f
  unfolding Cut IsOrdered marks entries entry_keys
  no_links t end h = tt
  no_links t (link k u f) (b, q, from, ordered, rest) = (
    subst (Below k) (sym (entry_keys-append (entries t) []))
        (append-All _ (entry_keys (entries t)) [] b tt),
    append-All _ (marks t) [] q tt,
    from,
    ordered,
    rest,
  )

  Cut-further :
      (t : Tree K) (k : K) (u : Tree K) (f g : Forest K)
      → Below k (entry_keys (entries t))
      → UpTo k (marks t)
      → From k (marks_of g)
      → Cut u f g
      → Cut t (link k u f) g
  unfolding Cut marks entries
  Cut-further t k u f end b q from c = tt
  Cut-further t k u f (link s v g) b q (later, _) (below, upto, from', ordered, rest) = (
    subst (Below s) (sym (entry_keys-append (entries t) (entries u ++ entries_of f))) (
        append-All _ (entry_keys (entries t)) (entry_keys (entries u ++ entries_of f))
          (map-All _ _ (entry_keys (entries t)) (λ x l. o.less-between x k s l later) b) below),
    append-All _ (marks t) (k ∷ marks u ++ marks_of f) (UpTo-later k s (marks t) later q)
        (later, upto),
    from',
    ordered,
    rest,
  )

  links-Cut :
      (n : ℕ) (t : Tree K) (f : Forest K) → Follows t f → Cut t (take_links n f) (drop_links n f)
  unfolding take_links drop_links IsOrdered
  links-Cut zero t f h = no_links t f h
  links-Cut (suc n) t end h = no_links t end h
  links-Cut (suc n) t (link k u f) (b, q, from, ordered, rest) =
      Cut-further t k u (take_links n f) (drop_links n f) b q
        (drop_links-All _ n f (All-right _ (marks u) (marks_of f) from)) (links-Cut n u f rest)

  split_links-IsGrown :
      (t : Tree K) (f g : Forest K)
      → IsOrdered t
      → Follows t f
      → Cut t f g
      → IsGrown (split_links t f g)
  unfolding split_links IsGrown IsOrdered Cut marks entries
  split_links-IsGrown t f end h i c = (h, i)
  split_links-IsGrown t f (link s u g) h i (b, q, from, ordered, rest) =
      ((h, i), (ordered, rest), b, q, from)

  grow_node-IsGrown : (m : ℕ) (p : Tree K × Forest K) → IsPair p → IsGrown (grow_node m p)
  unfolding grow_node split_internal IsGrown IsPair IsOrdered
  grow_node-IsGrown m (t, f) (h, i) =
      let n = key_count f / 2 in
      if_intro IsGrown (ltb m (key_count f)) (split_internal t f) (one (node t f))
        (λ _.
          split_links-IsGrown t (take_links n f) (drop_links n f) h (take_links-Follows n t f i)
            (links-Cut n t f i))
        (λ _. (h, i))

  -- What follows a node that has grown.
  unfoldable Succeeds : Grown K → Forest K → Type 0
  Succeeds g end = Unit
  Succeeds g (link k u f) =
      Below k (entry_keys (grown_entries g))
      × UpTo k (grown_marks g)
      × From k (marks u ++ marks_of f)
      × IsOrdered u
      × Follows u f

  -- The links behind a separator that comes before them.
  later_links :
      (s : K) (g : Grown K) (f : Forest K)
      → ((k : K) → UpTo k (grown_marks g) → o.less k s ≡ false)
      → Succeeds g f
      → From s (marks_of f)
  unfolding Succeeds marks
  later_links s g end e h = tt
  later_links s g (link k u f) e (b, q, from, ordered, rest) =
      (e k q, map-All _ _ (marks u ++ marks_of f) (λ x l. not_above s k x (e k q) l) from)

  Succeeds-right :
      (l : Tree K) (s : K) (r : Tree K) (f : Forest K) → Succeeds (two l s r) f → Follows r f
  unfolding Succeeds IsOrdered grown_marks grown_entries
  Succeeds-right l s r end i = tt
  Succeeds-right l s r (link k u f) (b, q, from, ordered, rest) = (
    All-right _ (entry_keys (entries l)) (entry_keys (entries r))
        (subst (Below k) (entry_keys-append (entries l) (entries r)) b),
    (All-right _ (marks l) (s ∷ marks r) q).1,
    from,
    ordered,
    rest,
  )

  attach-IsPair : (g : Grown K) (f : Forest K) → IsGrown g → Succeeds g f → IsPair (attach g f)
  unfolding attach IsGrown IsPair IsOrdered Succeeds grown_marks grown_entries
  attach-IsPair (one t) end h i = (h, tt)
  attach-IsPair (one t) (link k u f) h i = (h, i)
  attach-IsPair (two l s r) f (hl, hr, b, q, from) i = (
    hl,
    (
      b,
      q,
      append-All _ (marks r) (marks_of f) from
          (later_links s (two l s r) f (λ k w. (All-right _ (marks l) (s ∷ marks r) w).0) i),
      hr,
      Succeeds-right l s r f i,
    ),
  )

  Succeeds-end : (g : Grown K) → Succeeds g end
  unfolding Succeeds
  Succeeds-end g = tt

  -- The inserted key is below the separator.
  Succeeds-inserted :
      (m : ℕ) (key : K) (d : ℕ) (t : Tree K) (k : K) (u : Tree K) (f : Forest K)
      → IsOrdered t
      → o.less key k ≡ true
      → Follows t (link k u f)
      → Succeeds (insert_tree m key d t) (link k u f)
  unfolding Succeeds IsOrdered
  Succeeds-inserted m key d t k u f h l (b, q, from, ordered, rest) = (
    subst (λ es. Below k (entry_keys es)) (sym (insert_tree-entries m key d t h))
        (insert_entry-All _ key d (entries t) l b),
    insert_tree-All _ m key d t (o.less-asymm key k l) q,
    from,
    ordered,
    rest,
  )

  mutual
    unfolding insert_tree IsOrdered IsPair IsGrown marks pair_marks

    insert_tree-IsGrown :
        (m : ℕ) (key : K) (d : ℕ) (t : Tree K) → IsOrdered t → IsGrown (insert_tree m key d t)
    insert_tree-IsGrown m key d (leaf es) h =
        grow_leaf-IsGrown m (insert_entry key d es) (insert_entry-IsSorted key d es h)
    insert_tree-IsGrown m key d (node t f) (h, i) =
        grow_node-IsGrown m (insert_forest m key d (insert_tree m key d t) t f)
          (insert_forest-IsPair m key d t f h (insert_tree-IsGrown m key d t h) i)

    insert_forest-IsPair :
        (m : ℕ) (key : K) (d : ℕ) (t : Tree K) (f : Forest K)
        → IsOrdered t
        → IsGrown (insert_tree m key d t)
        → Follows t f
        → IsPair (insert_forest m key d (insert_tree m key d t) t f)
    insert_forest-IsPair m key d t end h g i =
        attach-IsPair (insert_tree m key d t) end g (Succeeds-end (insert_tree m key d t))
    insert_forest-IsPair m key d t (link k u f) h g (b, q, from, ordered, rest) =
        let (u', f') = insert_forest m key d (insert_tree m key d u) u f in
        elim (Bool-cases (o.less key k)) [
          | inl l ↦
              subst
                (λ c.
                  IsPair
                    (if c then attach (insert_tree m key d t) (link k u f) else (t, link k u' f')))
                (sym l)
                (attach-IsPair (insert_tree m key d t) (link k u f) g
                  (Succeeds-inserted m key d t k u f h l (b, q, from, ordered, rest)))
          | inr l ↦
              let (ordered', rest') =
                insert_forest-IsPair m key d u f ordered (insert_tree-IsGrown m key d u ordered)
                  rest in
              subst
                (λ c.
                  IsPair
                    (if c then attach (insert_tree m key d t) (link k u f) else (t, link k u' f')))
                (sym l)
                (
                  h,
                  (
                    b,
                    q,
                    insert_forest-All _ m key d (insert_tree m key d u) u f l
                        (insert_tree-All _ m key d u l (All-left _ (marks u) (marks_of f) from))
                        (All-left _ (marks u) (marks_of f) from)
                        (All-right _ (marks u) (marks_of f) from),
                    ordered',
                    rest',
                  ),
                )
        ]

  insert_root-IsOrdered : (g : Grown K) → IsGrown g → IsOrdered (insert_root g)
  unfolding insert_root IsGrown IsOrdered marks
  insert_root-IsOrdered (one t) h = h
  insert_root-IsOrdered (two l s r) (hl, hr, b, q, from) =
      (hl, (b, q, append-All _ (marks r) [] from tt, hr, tt))

  pub tree_insert-IsOrdered :
      (m : ℕ) (key : K) (d : ℕ) (t : Tree K) → IsOrdered t → IsOrdered (tree_insert m key d t)
  unfolding tree_insert
  tree_insert-IsOrdered m key d t h =
      insert_root-IsOrdered (insert_tree m key d t) (insert_tree-IsGrown m key d t h)
