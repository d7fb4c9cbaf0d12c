-- ===== src/Index/Tree/Marks.antt =====
-- No key or separator comes into the tree of src/engine/index/BPlusTree.js but the key inserted.
use collab_write.Prelude.{
  ℕ, zero, suc, ◌+◌, sym, subst, List, [], ◌∷◌, ◌++◌, length, take, drop, All, if_intro, ltb,
  take-append-drop,
}
use Prim.Native.Nat.{◌/◌}
use collab_write.Index.Tree.{
  KeyOrder, Entry, Tree, leaf, node, Forest, end, link, Grown, one, two, key_count, take_links,
  drop_links, split_at, split_leaf, split_links, split_internal, attach, grow_leaf, grow_node,
  insert_entry, insert_tree, insert_forest,
}
use collab_write.Index.Tree.Order.{
  entry_keys, entry_keys-append, marks, marks_of, append-All, All-left, All-right,
}

module _ {K : Type 0} where
  unfoldable pub grown_marks : Grown K → List K
  grown_marks (one t) = marks t
  grown_marks (two l s r) = marks l ++ s ∷ marks r

  unfoldable pub pair_marks : Tree K × Forest K → List K
  pair_marks (t, f) = marks t ++ marks_of f

  split_at-All :
      (P : K → Type 0) (xs ys : List (Entry K))
      → All P (entry_keys (xs ++ ys))
      → All P (grown_marks (split_at xs ys))
  unfolding split_at grown_marks marks entry_keys
  split_at-All P xs [] h = All-left P (entry_keys xs) [] (subst (All P) (entry_keys-append xs []) h)
  split_at-All P xs ((k, ds) ∷ ys) h =
      let g = subst (All P) (entry_keys-append xs ((k, ds) ∷ ys)) h in
      let (p, rest) = All-right P (entry_keys xs) (k ∷ entry_keys ys) g in
      append-All P (entry_keys xs) (k ∷ k ∷ entry_keys ys)
        (All-left P (entry_keys xs) (k ∷ entry_keys ys) g) (p, (p, rest))

  grow_leaf-All :
      (P : K → Type 0) (m : ℕ) (es : List (Entry K))
      → All P (entry_keys es)
      → All P (grown_marks (grow_leaf m es))
  unfolding grow_leaf split_leaf grown_marks marks
  grow_leaf-All P m es h =
      if_intro (λ (g : Grown K). All P (grown_marks g)) (ltb m (length es)) (split_leaf es)
        (one (leaf es))
        (λ _.
          let n = (length es + 1) / 2 in
          split_at-All P (take n es) (drop n es)
            (subst (λ z. All P (entry_keys z)) (sym (take-append-drop n es)) h))
        (λ _. h)

  -- The marks of the first links and of the rest.
  pub take_links-All :
      (P : K → Type 0) (n : ℕ) (f : Forest K)
      → All P (marks_of f)
      → All P (marks_of (take_links n f))
  unfolding take_links marks
  take_links-All P zero f h = tt
  take_links-All P (suc n) end h = tt
  take_links-All P (suc n) (link k u f) (p, h) = (
    p,
    append-All P (marks u) (marks_of (take_links n f)) (All-left P (marks u) (marks_of f) h)
        (take_links-All P n f (All-right P (marks u) (marks_of f) h)),
  )

  pub drop_links-All :
      (P : K → Type 0) (n : ℕ) (f : Forest K)
      → All P (marks_of f)
      → All P (marks_of (drop_links n f))
  unfolding drop_links marks
  drop_links-All P zero f h = h
  drop_links-All P (suc n) end h = tt
  drop_links-All P (suc n) (link k u f) (p, h) =
      drop_links-All P n f (All-right P (marks u) (marks_of f) h)

  split_links-All :
      (P : K → Type 0) (t : Tree K) (f g : Forest K)
      → All P (marks t)
      → All P (marks_of f)
      → All P (marks_of g)
      → All P (grown_marks (split_links t f g))
  unfolding split_links grown_marks marks
  split_links-All P t f end h i j = append-All P (marks t) (marks_of f) h i
  split_links-All P t f (link k u g) h i j =
      append-All P (marks t ++ marks_of f) (k ∷ marks u ++ marks_of g)
        (append-All P (marks t) (marks_of f) h i) j

  grow_node-All :
      (P : K → Type 0) (m : ℕ) (p : Tree K × Forest K)
      → All P (pair_marks p)
      → All P (grown_marks (grow_node m p))
  unfolding grow_node split_internal grown_marks pair_marks marks
  grow_node-All P m (t, f) h =
      let n = key_count f / 2 in
      let i = All-left P (marks t) (marks_of f) h in
      let j = All-right P (marks t) (marks_of f) h in
      if_intro (λ (g : Grown K). All P (grown_marks g)) (ltb m (key_count f)) (split_internal t f)
        (one (node t f))
        (λ _.
          split_links-All P t (take_links n f) (drop_links n f) i (take_links-All P n f j)
            (drop_links-All P n f j))
        (λ _. h)

  attach-All :
      (P : K → Type 0) (g : Grown K) (f : Forest K)
      → All P (grown_marks g)
      → All P (marks_of f)
      → All P (pair_marks (attach g f))
  unfolding attach grown_marks pair_marks marks
  attach-All P (one t) f h i = append-All P (marks t) (marks_of f) h i
  attach-All P (two l s r) f h i =
      let (p, j) = All-right P (marks l) (s ∷ marks r) h in
      append-All P (marks l) (s ∷ marks r ++ marks_of f) (All-left P (marks l) (s ∷ marks r) h)
        (p, append-All P (marks r) (marks_of f) j i)

  -- A child put before a separator.
  pair-All :
      (P : K → Type 0) (t : Tree K) (k : K) (p : Tree K × Forest K)
      → All P (marks t)
      → P k
      → All P (pair_marks p)
      → All P (pair_marks (t, link k p.0 p.1))
  unfolding pair_marks marks
  pair-All P t k (u, f) h q i = append-All P (marks t) (k ∷ marks u ++ marks_of f) h (q, i)

module _ {K : Type 0} ⦃o : KeyOrder K⦄ where
  pub insert_entry-All :
      (P : K → Type 0) (key : K) (d : ℕ) (es : List (Entry K))
      → P key
      → All P (entry_keys es)
      → All P (entry_keys (insert_entry key d es))
  unfolding insert_entry entry_keys
  insert_entry-All P key d [] p h = (p, tt)
  insert_entry-All P key d ((k, ds) ∷ es) p (q, h) =
      if_intro (λ (z : List (Entry K)). All P (entry_keys z)) (o.same key k) _ _ (λ _. (q, h))
        (λ _.
          if_intro (λ (z : List (Entry K)). All P (entry_keys z)) (o.less key k) _ _
            (λ _. (p, (q, h))) (λ _. (q, insert_entry-All P key d es p h)))

  mutual
    unfolding insert_tree marks

    pub insert_tree-All :
        (P : K → Type 0) (m : ℕ) (key : K) (d : ℕ) (t : Tree K)
        → P key
        → All P (marks t)
        → All P (grown_marks (insert_tree m key d t))
    insert_tree-All P m key d (leaf es) p h =
        grow_leaf-All P m (insert_entry key d es) (insert_entry-All P key d es p h)
    insert_tree-All P m key d (node t f) p h =
        let i = All-left P (marks t) (marks_of f) h in
        grow_node-All P m (insert_forest m key d (insert_tree m key d t) t f) (
          insert_forest-All P m key d (insert_tree m key d t) t f p
            (insert_tree-All P m key d t p i) i (All-right P (marks t) (marks_of f) h))

    pub insert_forest-All :
        (P : K → Type 0) (m : ℕ) (key : K) (d : ℕ) (here : Grown K) (t : Tree K) (f : Forest K)
        → P key
        → All P (grown_marks here)
        → All P (marks t)
        → All P (marks_of f)
        → All P (pair_marks (insert_forest m key d here t f))
    insert_forest-All P m key d here t end p g h i = attach-All P here end g tt
    insert_forest-All P m key d here t (link k u f) p g h (q, i) =
        let j = All-left P (marks u) (marks_of f) i in
        let (u', f') = insert_forest m key d (insert_tree m key d u) u f in
        if_intro (λ (x : Tree K × Forest K). All P (pair_marks x)) (o.less key k)
          (attach here (link k u f)) (t, link k u' f')
          (λ _. attach-All P here (link k u f) g (q, i))
          (λ _.
            pair-All P t k (u', f') h q
              (insert_forest-All P m key d (insert_tree m key d u) u f p
                (insert_tree-All P m key d u p j) j (All-right P (marks u) (marks_of f) i)))
