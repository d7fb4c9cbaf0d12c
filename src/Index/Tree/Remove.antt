-- ===== src/Index/Tree/Remove.antt =====
-- The deletion of src/engine/index/BPlusTree.js is the deletion from the list of the entries.
use collab_write.Prelude.{
  ℕ, ◌≡◌, refl, ap, sym, ◌∙◌, Bool, true, false, ◌&&◌, inl, inr, Option, none, some, List, [], ◌∷◌,
  length, if◌then◌else◌, ltb, Bool-cases, Option-cases, mem, without, map, filter, any, not, All,
  subst, without_absent, add, arith,
}
use collab_write.Index.Tree.{KeyOrder, Entry, Tree, leaf, entries, insert_entry, tree_insert}
use collab_write.Index.Tree.Delete.{delete_doc, delete_entry, tree_delete}
use collab_write.Index.Tree.Order.{entry_keys, Above, IsSorted, IsOrdered, less_irrefl}
use collab_write.Index.Tree.Insert.{tree_insert-entries}
use collab_write.Index.Tree.Kept.{tree_insert-IsOrdered}
use collab_write.Index.Tree.Run.{run, run-IsOrdered}
use collab_write.Index.Tree.Rebalance.{of_leaf}
use collab_write.Index.Tree.Leaves.{deleted, tree_delete-entries}

module _ {K : Type 0} ⦃o : KeyOrder K⦄ where
  -- The sorted list of entries without a document under a key, or without the key: an entry that
  -- has no document left goes.
  unfoldable pub survivors : K → Option ℕ → List (Entry K) → List (Entry K)
  survivors key none es = filter (λ e. not (o.same e.0 key)) es
  survivors key (some d) es =
      filter (λ e. ltb 0 (length e.1))
        (map (λ e. if o.same e.0 key then (e.0, without d e.1) else e) es)

  -- Whether there is such a document, or the key.
  unfoldable pub has_entry : K → Option ℕ → List (Entry K) → Bool
  has_entry key none es = any (λ e. o.same e.0 key) es
  has_entry key (some d) es = any (λ e. o.same e.0 key && mem d e.1) es

  -- Every key has a document.
  unfoldable pub IsFilled : List (Entry K) → Type 0
  IsFilled es = All (λ e. ltb 0 (length e.1) ≡ true) es

  survivors-Above :
      (key : K) (d : Option ℕ) (es : List (Entry K))
      → Above key (entry_keys es)
      → IsFilled es
      → (survivors key d es ≡ es) × (has_entry key d es ≡ false)
  unfolding survivors has_entry entry_keys IsFilled
  survivors-Above key none [] h f = (refl, refl)
  survivors-Above key (some d) [] h f = (refl, refl)
  survivors-Above key none ((k, ds) ∷ es) (h, hs) (f, fs) =
      ground (arith, less_irrefl key k h, survivors-Above key none es hs fs)
  survivors-Above key (some d) ((k, ds) ∷ es) (h, hs) (f, fs) =
      ground (arith, f, less_irrefl key k h, survivors-Above key (some d) es hs fs)

  abbrev Agrees : K → Option ℕ → List (Entry K) → Type 0
  Agrees key d es =
      deleted (of_leaf (delete_entry key d es)) es ≡ (survivors key d es, has_entry key d es)

  -- The first entry has the key.
  here-Agrees :
      (key : K) (d : Option ℕ) (k : K) (ds : List ℕ) (es : List (Entry K))
      → o.same k key ≡ true
      → ltb 0 (length ds) ≡ true
      → survivors key d es ≡ es
      → has_entry key d es ≡ false
      → Agrees key d ((k, ds) ∷ es)
  unfolding deleted delete_entry delete_doc of_leaf survivors has_entry
  here-Agrees key none k ds es same f e n = ground (arith, same, e, n)
  here-Agrees key (some d) k ds es same f e n = elim (Bool-cases (mem d ds)) [
    | inl m ↦ elim (Bool-cases (ltb 0 (length (without d ds)))) [
      | inl l ↦ ground (arith, same, e, n, m, l)
      | inr l ↦ ground (arith, same, e, n, m, l)
    ]
    | inr m ↦ ground (arith, same, e, n, m, f, without_absent d ds m)
  ]

  -- The first entry has another key.
  further-Agrees :
      (key : K) (d : Option ℕ) (k : K) (ds : List ℕ) (es : List (Entry K))
      → o.same k key ≡ false
      → ltb 0 (length ds) ≡ true
      → Agrees key d es
      → Agrees key d ((k, ds) ∷ es)
  unfolding deleted delete_entry of_leaf survivors has_entry
  further-Agrees key none k ds es other f h = elim (Option-cases (delete_entry key none es)) [
    | inl e ↦ ground (arith, e, other, ap (λ x. x.0) h, ap (λ x. x.1) h)
    | inr (r, e) ↦ ground (arith, e, other, ap (λ x. x.0) h, ap (λ x. x.1) h)
  ]
  further-Agrees key (some d) k ds es other f h =
      elim (Option-cases (delete_entry key (some d) es)) [
        | inl e ↦ ground (arith, e, other, f, ap (λ x. x.0) h, ap (λ x. x.1) h)
        | inr (r, e) ↦ ground (arith, e, other, f, ap (λ x. x.0) h, ap (λ x. x.1) h)
      ]

  delete_entry-survivors :
      (key : K) (d : Option ℕ) (es : List (Entry K)) → IsSorted es → IsFilled es → Agrees key d es
  unfolding deleted delete_entry of_leaf survivors has_entry IsSorted IsFilled entry_keys
  delete_entry-survivors key none [] s f = refl
  delete_entry-survivors key (some d) [] s f = refl
  delete_entry-survivors key d ((k, ds) ∷ es) (h, hs) (f, fs) = elim (Bool-cases (o.same k key)) [
    | inl same ↦
        let above : Above key (entry_keys es) =
          subst (λ j. Above j (entry_keys es)) ((o.same_iff k key).0 same) h in
        let (e, n) = survivors-Above key d es above fs in here-Agrees key d k ds es same f e n
    | inr other ↦ further-Agrees key d k ds es other f (delete_entry-survivors key d es hs fs)
  ]

  insert_entry-IsFilled :
      (key : K) (d : ℕ) (es : List (Entry K)) → IsFilled es → IsFilled (insert_entry key d es)
  unfolding insert_entry IsFilled
  insert_entry-IsFilled key d [] f = (refl, tt)
  insert_entry-IsFilled key d ((k, ds) ∷ es) (f, fs) = elim (Bool-cases (o.same key k)) [
    | inl e ↦ rw e (filled_add d ds f, fs)
    | inr e ↦ elim (Bool-cases (o.less key k)) [
      | inl l ↦ rw (e, l) (refl, (f, fs))
      | inr l ↦ rw (e, l) (f, insert_entry-IsFilled key d es fs)
    ]
  ]
    where
      filled_add :
          (d : ℕ) (ds : List ℕ) → ltb 0 (length ds) ≡ true → ltb 0 (length (add d ds)) ≡ true
      filled_add d [] h = refl
      filled_add d (x ∷ xs) h = ground arith

  run-IsFilled :
      (m : ℕ) (calls : List (K × ℕ)) (t : Tree K)
      → IsOrdered t
      → IsFilled (entries t)
      → IsFilled (entries (run m calls t))
  unfolding run
  run-IsFilled m [] t h f = f
  run-IsFilled m ((k, d) ∷ calls) t h f =
      run-IsFilled m calls (tree_insert m k d t) (tree_insert-IsOrdered m k d t h) (
        subst IsFilled (sym (tree_insert-entries m k d t h))
          (insert_entry-IsFilled k d (entries t) f))

  -- After any insertions into a new tree, the deletion of a document under a key leaves in the
  -- leaves the same entries in order, that of the key without the document, or none of the key when
  -- it has no other document; the deletion of a key leaves the entries of the other keys. This holds
  -- through every borrow and merge, and the call returns whether the document was under the key, or
  -- whether there was the key.
  pub tree_delete-run :
      (m : ℕ) (calls : List (K × ℕ)) (key : K) (d : Option ℕ)
      → let t = run m calls (leaf []) in
        let (t', removed) = tree_delete m key d t in
        (entries t' ≡ survivors key d (entries t)) × (removed ≡ has_entry key d (entries t))
  unfolding entries IsOrdered IsSorted IsFilled
  tree_delete-run m calls key d =
      let t = run m calls (leaf []) in
      let (h, s) = run-IsOrdered m calls (leaf []) tt tt in
      let e =
        tree_delete-entries m key d t h
        ∙ delete_entry-survivors key d (entries t) s (run-IsFilled m calls (leaf []) tt tt) in
      (ap (λ x. x.0) e, ap (λ x. x.1) e)
