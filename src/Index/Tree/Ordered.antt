-- ===== src/Index/Tree/Ordered.antt =====
-- An insertion into an ordered tree of src/engine/index/BPlusTree.js leaves an ordered tree.
use collab_write.Prelude.{
  ℕ, zero, suc, ◌+◌, ◌≡◌, ap, sym, subst, ◌∙◌, true, false, inl, inr, List, [], ◌∷◌, ◌++◌, length,
  take, drop, if_intro, ltb, take-append-drop, arith, Bool-cases,
}
use Prim.Native.Nat.{◌/◌}
use collab_write.Index.Tree.{
  KeyOrder, Entry, Tree, leaf, Forest, Grown, one, two, split_at, split_leaf, grow_leaf, entries,
  insert_entry,
}
use collab_write.Index.Tree.Order.{
  entry_keys, entry_keys-append, marks, All-left, All-right, map-All, Below, From, Above, UpTo,
  IsSorted, IsOrdered, Follows, From-Above,
}
use collab_write.Index.Tree.Marks.{insert_entry-All}

module _ {K : Type 0} ⦃o : KeyOrder K⦄ where
  -- Two keys with a third between them, not above the one and not below the other.
  pub not_above : (a b c : K) → o.less b a ≡ false → o.less c b ≡ false → o.less c a ≡ false
  not_above a b c h g = elim (Bool-cases (o.less c a)) [
    | inl l ↦ absurd (ground (arith, g, o.less-between c a b l h))
    | inr e ↦ e
  ]

  Above-From : (k : K) (xs : List K) → Above k xs → From k xs
  Above-From k xs = map-All _ _ xs (λ x l. o.less-asymm k x l)

  pub insert_entry-IsSorted :
      (key : K) (d : ℕ) (es : List (Entry K)) → IsSorted es → IsSorted (insert_entry key d es)
  unfolding IsSorted insert_entry entry_keys
  insert_entry-IsSorted key d [] h = (tt, tt)
  insert_entry-IsSorted key d ((k, ds) ∷ es) (h, hs) = elim (Bool-cases (o.same key k)) [
    | inl e ↦ rw e (h, hs)
    | inr e ↦ elim (Bool-cases (o.less key k)) [
      | inl l ↦
          rw (e, l)
            ((l, From-Above key k (entry_keys es) l (Above-From k (entry_keys es) h)), (h, hs))
      | inr l ↦
          let after : o.less k key ≡ true = elim (Bool-cases (o.less k key)) [
            | inl q ↦ q
            | inr q ↦ absurd (ground (arith, e, (o.same_iff key k).1 (o.less-total key k l q)))
          ] in
          rw (e, l)
            (
              insert_entry-All (λ x. o.less k x ≡ true) key d es after h,
              insert_entry-IsSorted key d es hs,
            )
    ]
  ]

  -- A sorted list cut in two.
  IsSorted-cut :
      (xs : List (Entry K)) (k : K) (ds : List ℕ) (ys : List (Entry K))
      → IsSorted (xs ++ (k, ds) ∷ ys)
      → IsSorted xs × Below k (entry_keys xs) × IsSorted ((k, ds) ∷ ys)
  unfolding IsSorted entry_keys
  IsSorted-cut [] k ds ys h = (tt, tt, h)
  IsSorted-cut ((j, es) ∷ xs) k ds ys (h, hs) =
      let g = subst (Above j) (entry_keys-append xs ((k, ds) ∷ ys)) h in
      let (l, b, r) = IsSorted-cut xs k ds ys hs in
      (
        (All-left _ (entry_keys xs) (k ∷ entry_keys ys) g, l),
        ((All-right _ (entry_keys xs) (k ∷ entry_keys ys) g).0, b),
        r,
      )

  -- A node that has grown is ordered, with its halves on the two sides of the separator.
  unfoldable pub IsGrown : Grown K → Type 0
  IsGrown (one t) = IsOrdered t
  IsGrown (two l s r) =
      IsOrdered l
      × IsOrdered r
      × Below s (entry_keys (entries l))
      × UpTo s (marks l)
      × From s (marks r)

  unfoldable pub IsPair : Tree K × Forest K → Type 0
  IsPair (t, f) = IsOrdered t × Follows t f

  split_at-IsGrown :
      (xs ys : List (Entry K)) → IsSorted (xs ++ ys) → IsSorted xs → IsGrown (split_at xs ys)
  unfolding split_at IsGrown IsOrdered IsSorted marks entries entry_keys
  split_at-IsGrown xs [] h g = g
  split_at-IsGrown xs ((k, ds) ∷ ys) h g =
      let (l, b, r) = IsSorted-cut xs k ds ys h in
      (
        l,
        r,
        b,
        map-All _ _ (entry_keys xs) (λ x i. o.less-asymm x k i) b,
        (self k, Above-From k (entry_keys ys) r.0),
      )
    where
      self : (k : K) → o.less k k ≡ false
      self k = elim (Bool-cases (o.less k k)) [ inl e ↦ o.less-asymm k k e | inr e ↦ e ]

  take-IsSorted : (n : ℕ) (es : List (Entry K)) → IsSorted es → IsSorted (take n es)
  unfolding IsSorted entry_keys
  take-IsSorted zero es h = tt
  take-IsSorted (suc n) [] h = tt
  take-IsSorted (suc n) ((k, ds) ∷ es) (h, hs) = (
    All-left _ (entry_keys (take n es)) (entry_keys (drop n es)) (
        subst (Above k)
          (ap entry_keys (sym (take-append-drop n es)) ∙ entry_keys-append (take n es) (drop n es))
          h),
    take-IsSorted n es hs,
  )

  pub grow_leaf-IsGrown : (m : ℕ) (es : List (Entry K)) → IsSorted es → IsGrown (grow_leaf m es)
  unfolding grow_leaf split_leaf IsGrown IsOrdered
  grow_leaf-IsGrown m es h =
      let n = (length es + 1) / 2 in
      if_intro IsGrown (ltb m (length es)) (split_leaf es) (one (leaf es))
        (λ _.
          split_at-IsGrown (take n es) (drop n es) (subst IsSorted (sym (take-append-drop n es)) h)
            (take-IsSorted n es h))
        (λ _. h)
