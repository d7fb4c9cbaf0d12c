-- ===== src/Index/Tree/Balance.antt =====
-- The insertions of src/engine/index/BPlusTree.js keep all leaves at one depth and every node within
-- its bound.
use collab_write.Prelude.{
  ℕ, zero, suc, ◌+◌, ◌-◌, ◌≡◌, ◌≤◌, refl, sym, subst, List, [], ◌∷◌, length, take, drop, if_intro,
  arith, length-take, length-drop, ltb, min,
}
use Prim.Native.Nat.{◌/◌}
use collab_write.Index.Tree.{
  KeyOrder, Entry, Tree, leaf, node, Forest, end, link, Grown, one, two, key_count, take_links,
  drop_links, split_at, split_leaf, split_links, split_internal, attach, grow_leaf, grow_node,
  insert_entry, insert_tree, insert_forest, insert_root, tree_insert,
}
use collab_write.Index.Tree.Run.{run}

module _ {K : Type 0} where
  -- Every node has at most `m` keys, and every leaf is `h` levels down.
  unfoldable mutual
    pub IsBalanced : ℕ → ℕ → Tree K → Type 0
    IsBalanced m h (leaf es) = (h ≡ 0) × (length es ≤ m)
    IsBalanced m h (node t f) =
        (g : ℕ) × (h ≡ g + 1) × (key_count f ≤ m) × IsBalanced m g t × AreBalanced m g f

    pub AreBalanced : ℕ → ℕ → Forest K → Type 0
    AreBalanced m h end = Unit
    AreBalanced m h (link k u f) = IsBalanced m h u × AreBalanced m h f

  unfoldable pub IsGrown : ℕ → ℕ → Grown K → Type 0
  IsGrown m h (one t) = IsBalanced m h t
  IsGrown m h (two l s r) = IsBalanced m h l × IsBalanced m h r

  split_at-IsGrown :
      (m : ℕ) (xs ys : List (Entry K))
      → length xs ≤ m
      → length ys ≤ m
      → IsGrown m 0 (split_at xs ys)
  unfolding split_at IsGrown IsBalanced
  split_at-IsGrown m xs [] h g = (refl, h)
  split_at-IsGrown m xs ((k, ds) ∷ ys) h g = ((refl, h), (refl, g))

  grow_leaf-IsGrown :
      (m : ℕ) (es : List (Entry K)) → 1 ≤ m → length es ≤ m + 1 → IsGrown m 0 (grow_leaf m es)
  unfolding grow_leaf split_leaf IsGrown IsBalanced
  grow_leaf-IsGrown m es h l =
      let n = (length es + 1) / 2 in
      if_intro (IsGrown m 0) (ltb m (length es)) (split_leaf es) (one (leaf es))
        (λ q.
          split_at-IsGrown m (take n es) (drop n es) (omega (arith, h, l, length-take n es))
            (ground (arith, h, l, q, length-drop n es)))
        (λ q. (refl, ground (arith, q)))

  take_links-AreBalanced :
      (m h n : ℕ) (f : Forest K)
      → AreBalanced m h f
      → AreBalanced m h (take_links n f) × (key_count (take_links n f) ≡ min n (key_count f))
  unfolding take_links IsBalanced key_count
  take_links-AreBalanced m h zero f b = (tt, omega arith)
  take_links-AreBalanced m h (suc n) end b = (tt, omega arith)
  take_links-AreBalanced m h (suc n) (link k u f) (b, bs) =
      let (c, e) = take_links-AreBalanced m h n f bs in ((b, c), omega (arith, e))

  drop_links-AreBalanced :
      (m h n : ℕ) (f : Forest K)
      → AreBalanced m h f
      → AreBalanced m h (drop_links n f) × (key_count (drop_links n f) ≡ key_count f - n)
  unfolding drop_links IsBalanced key_count
  drop_links-AreBalanced m h zero f b = (b, omega arith)
  drop_links-AreBalanced m h (suc n) end b = (tt, omega arith)
  drop_links-AreBalanced m h (suc n) (link k u f) (b, bs) =
      let (c, e) = drop_links-AreBalanced m h n f bs in (c, omega (arith, e))

  split_links-IsGrown :
      (m h : ℕ) (t : Tree K) (f g : Forest K)
      → IsBalanced m h t
      → AreBalanced m h f
      → AreBalanced m h g
      → key_count f ≤ m
      → key_count g ≤ m + 1
      → IsGrown m (h + 1) (split_links t f g)
  unfolding split_links IsGrown IsBalanced key_count
  split_links-IsGrown m h t f end b c d l n = (h, refl, l, b, c)
  split_links-IsGrown m h t f (link k u g) b c (d, ds) l n =
      ((h, refl, l, b, c), (h, refl, omega (arith, n), d, ds))

  -- A node before its split.
  unfoldable pub IsPair : ℕ → ℕ → Tree K × Forest K → Type 0
  IsPair m h (t, f) = (key_count f ≤ m + 1) × IsBalanced m h t × AreBalanced m h f

  grow_node-IsGrown :
      (m h : ℕ) (p : Tree K × Forest K) → 1 ≤ m → IsPair m h p → IsGrown m (h + 1) (grow_node m p)
  unfolding grow_node split_internal IsGrown IsPair IsBalanced
  grow_node-IsGrown m h (t, f) l (n, b, c) =
      let mid = key_count f / 2 in
      let (c1, e1) = take_links-AreBalanced m h mid f c in
      let (c2, e2) = drop_links-AreBalanced m h mid f c in
      if_intro (IsGrown m (h + 1)) (ltb m (key_count f)) (split_internal t f) (one (node t f))
        (λ q.
          split_links-IsGrown m h t (take_links mid f) (drop_links mid f) b c1 c2
            (omega (arith, e1, n, l)) (omega (arith, e2, n)))
        (λ q. (h, refl, ground (arith, q), b, c))

module _ {K : Type 0} ⦃o : KeyOrder K⦄ where
  length-insert_entry :
      (key : K) (d : ℕ) (es : List (Entry K)) → length (insert_entry key d es) ≤ length es + 1
  unfolding insert_entry
  length-insert_entry key d [] = omega arith
  length-insert_entry key d ((k, ds) ∷ es) = ground (arith, length-insert_entry key d es)

  -- The children after an insertion, of which there is at most one more.
  Children : ℕ → ℕ → ℕ → Tree K × Forest K → Type 0
  Children m h n p = (key_count p.1 ≤ n) × IsBalanced m h p.0 × AreBalanced m h p.1

  attach-Children :
      (m h : ℕ) (g : Grown K) (f : Forest K)
      → IsGrown m h g
      → AreBalanced m h f
      → Children m h (key_count f + 1) (attach g f)
  unfolding attach IsGrown Children IsBalanced key_count
  attach-Children m h (one t) f b c = (omega arith, b, c)
  attach-Children m h (two x s y) f (b, d) c = (omega arith, b, (d, c))

  mutual
    unfolding insert_tree IsBalanced IsPair key_count Children

    insert_tree-IsGrown :
        (m h : ℕ) (key : K) (d : ℕ) (t : Tree K)
        → 1 ≤ m
        → IsBalanced m h t
        → IsGrown m h (insert_tree m key d t)
    insert_tree-IsGrown m h key d (leaf es) l (e, b) =
        subst (λ x. IsGrown m x (grow_leaf m (insert_entry key d es))) (sym e)
          (grow_leaf-IsGrown m (insert_entry key d es) l
            (omega (arith, b, length-insert_entry key d es)))
    insert_tree-IsGrown m h key d (node t f) l (g, e, n, b, c) =
        let p = insert_forest m key d (insert_tree m key d t) t f in
        let (k, b', c') =
          insert_forest-Children m g key d t f l (insert_tree-IsGrown m g key d t l b) b c in
        subst (λ x. IsGrown m x (grow_node m p)) (sym e)
          (grow_node-IsGrown m g p l (omega (arith, k, n), b', c'))

    insert_forest-Children :
        (m h : ℕ) (key : K) (d : ℕ) (t : Tree K) (f : Forest K)
        → 1 ≤ m
        → IsGrown m h (insert_tree m key d t)
        → IsBalanced m h t
        → AreBalanced m h f
        → Children m h (key_count f + 1) (insert_forest m key d (insert_tree m key d t) t f)
    insert_forest-Children m h key d t end l g b c =
        attach-Children m h (insert_tree m key d t) end g tt
    insert_forest-Children m h key d t (link k u f) l g b (bu, c) =
        let (u', f') = insert_forest m key d (insert_tree m key d u) u f in
        let (n, b', c') =
          insert_forest-Children m h key d u f l (insert_tree-IsGrown m h key d u l bu) bu c in
        if_intro (Children m h (suc (key_count f) + 1)) (o.less key k)
          (attach (insert_tree m key d t) (link k u f)) (t, link k u' f')
          (λ _. attach-Children m h (insert_tree m key d t) (link k u f) g (bu, c))
          (λ _. (omega (arith, n), b, (b', c')))

  insert_root-IsBalanced :
      (m h : ℕ) (g : Grown K) → 1 ≤ m → IsGrown m h g → (h' : ℕ) × IsBalanced m h' (insert_root g)
  unfolding insert_root IsGrown IsBalanced key_count
  insert_root-IsBalanced m h (one t) l b = (h, b)
  insert_root-IsBalanced m h (two x s y) l (b, c) = (h + 1, (h, refl, l, b, (c, tt)))

  run_from-IsBalanced :
      (m h : ℕ) (calls : List (K × ℕ)) (t : Tree K)
      → 1 ≤ m
      → IsBalanced m h t
      → (h' : ℕ) × IsBalanced m h' (run m calls t)
  unfolding run tree_insert
  run_from-IsBalanced m h [] t l b = (h, b)
  run_from-IsBalanced m h ((k, d) ∷ calls) t l b =
      let (h', c) =
        insert_root-IsBalanced m h (insert_tree m k d t) l (insert_tree-IsGrown m h k d t l b) in
      run_from-IsBalanced m h' calls (tree_insert m k d t) l c

  -- After any insertions into a new tree, with a bound of at least one on the keys of a node, all
  -- leaves are at one depth and no node has more keys than the bound.
  pub run-IsBalanced :
      (m : ℕ) (calls : List (K × ℕ)) → 1 ≤ m → (h : ℕ) × IsBalanced m h (run m calls (leaf []))
  unfolding IsBalanced
  run-IsBalanced m calls l = run_from-IsBalanced m 0 calls (leaf []) l (refl, omega arith)
