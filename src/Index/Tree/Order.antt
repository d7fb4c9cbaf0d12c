-- ===== src/Index/Tree/Order.antt =====
-- The order of the keys in the tree of src/engine/index/BPlusTree.js.
use collab_write.Prelude.{
  ℕ, ◌≡◌, refl, ap, sym, subst, ◌∙◌, true, false, inl, inr, List, [], ◌∷◌, ◌++◌, All, arith,
  Bool-cases,
}
use collab_write.Index.Tree.{
  KeyOrder, Entry, Tree, leaf, node, Forest, end, link, entries, entries_of, insert_entry, lookup,
}

module _ {K : Type 0} where
  unfoldable pub entry_keys : List (Entry K) → List K
  entry_keys [] = []
  entry_keys ((k, ds) ∷ es) = k ∷ entry_keys es

  -- The keys and the separators, from left to right.
  unfoldable mutual
    pub marks : Tree K → List K
    marks (leaf es) = entry_keys es
    marks (node t f) = marks t ++ marks_of f

    pub marks_of : Forest K → List K
    marks_of end = []
    marks_of (link k u f) = k ∷ marks u ++ marks_of f

  pub append-All {κ} : (P : K → Type κ) (xs ys : List K) → All P xs → All P ys → All P (xs ++ ys)
  append-All P [] ys h g = g
  append-All P (x ∷ xs) ys (h, hs) g = (h, append-All P xs ys hs g)

  pub All-left {κ} : (P : K → Type κ) (xs ys : List K) → All P (xs ++ ys) → All P xs
  All-left P [] ys h = tt
  All-left P (x ∷ xs) ys (h, hs) = (h, All-left P xs ys hs)

  pub All-right {κ} : (P : K → Type κ) (xs ys : List K) → All P (xs ++ ys) → All P ys
  All-right P [] ys h = h
  All-right P (x ∷ xs) ys (h, hs) = All-right P xs ys hs

  pub map-All {κ} : (P Q : K → Type κ) (xs : List K) → ((x : K) → P x → Q x) → All P xs → All Q xs
  map-All P Q [] f h = tt
  map-All P Q (x ∷ xs) f (h, hs) = (f x h, map-All P Q xs f hs)

  pub entry_keys-append :
      (xs ys : List (Entry K)) → entry_keys (xs ++ ys) ≡ entry_keys xs ++ entry_keys ys
  unfolding entry_keys
  entry_keys-append [] ys = refl
  entry_keys-append ((k, ds) ∷ xs) ys = ap (◌∷◌ k) (entry_keys-append xs ys)

  -- What holds of all marks holds of the keys of the entries.
  mutual
    unfolding marks entries entry_keys

    pub entries-All :
        (P : K → Type 0) (t : Tree K) → All P (marks t) → All P (entry_keys (entries t))
    entries-All P (leaf es) h = h
    entries-All P (node t f) h =
        subst (All P) (sym (entry_keys-append (entries t) (entries_of f))) (
          append-All P (entry_keys (entries t)) (entry_keys (entries_of f))
            (entries-All P t (All-left P (marks t) (marks_of f) h))
            (entries_of-All P f (All-right P (marks t) (marks_of f) h)))

    pub entries_of-All :
        (P : K → Type 0) (f : Forest K) → All P (marks_of f) → All P (entry_keys (entries_of f))
    entries_of-All P end h = tt
    entries_of-All P (link k u f) (_, h) =
        subst (All P) (sym (entry_keys-append (entries u) (entries_of f))) (
          append-All P (entry_keys (entries u)) (entry_keys (entries_of f))
            (entries-All P u (All-left P (marks u) (marks_of f) h))
            (entries_of-All P f (All-right P (marks u) (marks_of f) h)))

  pub children-All :
      (P : K → Type 0) (u : Tree K) (f : Forest K)
      → All P (marks u ++ marks_of f)
      → All P (entry_keys (entries u ++ entries_of f))
  children-All P u f h = subst (All P) (sym (entry_keys-append (entries u) (entries_of f))) (
      append-All P (entry_keys (entries u)) (entry_keys (entries_of f))
        (entries-All P u (All-left P (marks u) (marks_of f) h))
        (entries_of-All P f (All-right P (marks u) (marks_of f) h)))

module _ {K : Type 0} ⦃o : KeyOrder K⦄ where
  -- All marks below a key, from it on, and above it.
  abbrev pub Below : K → List K → Type 0
  Below k = All (λ x. o.less x k ≡ true)

  abbrev pub From : K → List K → Type 0
  From k = All (λ x. o.less x k ≡ false)

  abbrev pub Above : K → List K → Type 0
  Above k = All (λ x. o.less k x ≡ true)

  unfoldable pub IsSorted : List (Entry K) → Type 0
  IsSorted [] = Unit
  IsSorted ((k, ds) ∷ es) = Above k (entry_keys es) × IsSorted es

  -- No mark above a key.
  abbrev pub UpTo : K → List K → Type 0
  UpTo k = All (λ x. o.less k x ≡ false)

  -- Leaves are sorted; behind a separator stand keys and separators from it on, before it keys below it
  -- and separators up to it. `Follows t f`: the children in `f` follow the child `t`.
  unfoldable mutual
    pub IsOrdered : Tree K → Type 0
    IsOrdered (leaf es) = IsSorted es
    IsOrdered (node t f) = IsOrdered t × Follows t f

    pub Follows : Tree K → Forest K → Type 0
    Follows t end = Unit
    Follows t (link k u f) =
        Below k (entry_keys (entries t))
        × UpTo k (marks t)
        × From k (marks u ++ marks_of f)
        × IsOrdered u
        × Follows u f

  -- A key on the one side of a separator and those on the other.
  pub Below-From : (key k : K) (xs : List K) → o.less key k ≡ false → Below k xs → Below key xs
  Below-From key k xs h = map-All _ _ xs (λ x l. o.less-between x k key l h)

  pub From-Above : (key k : K) (xs : List K) → o.less key k ≡ true → From k xs → Above key xs
  From-Above key k xs h = map-All _ _ xs (λ x l. o.less-between key k x h l)

  pub less_irrefl : (a b : K) → o.less a b ≡ true → o.same b a ≡ false
  less_irrefl a b h = elim (Bool-cases (o.same b a)) [
    | inl e ↦
        let l : o.less b b ≡ true = ap (λ x. o.less x b) ((o.same_iff b a).0 e) ∙ h in
        absurd (ground (arith, l, o.less-asymm b b l))
    | inr e ↦ e
  ]

  pub less_irrefl' : (a b : K) → o.less a b ≡ true → o.same a b ≡ false
  less_irrefl' a b h = elim (Bool-cases (o.same a b)) [
    | inl e ↦
        let l : o.less b b ≡ true = ap (λ x. o.less x b) (sym ((o.same_iff a b).0 e)) ∙ h in
        absurd (ground (arith, l, o.less-asymm b b l))
    | inr e ↦ e
  ]

  -- An insertion behind smaller keys, and before larger ones.
  pub insert_entry-right :
      (key : K) (d : ℕ) (xs ys : List (Entry K))
      → Below key (entry_keys xs)
      → insert_entry key d (xs ++ ys) ≡ xs ++ insert_entry key d ys
  unfolding insert_entry entry_keys
  insert_entry-right key d [] ys h = refl
  insert_entry-right key d ((k, ds) ∷ xs) ys (h, hs) =
      ground (arith, less_irrefl k key h, o.less-asymm k key h, insert_entry-right key d xs ys hs)

  pub insert_entry-left :
      (key : K) (d : ℕ) (xs ys : List (Entry K))
      → Above key (entry_keys ys)
      → insert_entry key d (xs ++ ys) ≡ insert_entry key d xs ++ ys
  unfolding insert_entry entry_keys
  insert_entry-left key d [] [] h = refl
  insert_entry-left key d [] ((k, ds) ∷ ys) (h, hs) = ground (arith, h, less_irrefl' key k h)
  insert_entry-left key d ((k, ds) ∷ xs) ys h = ground (arith, insert_entry-left key d xs ys h)

  pub lookup-right :
      (key : K) (xs ys : List (Entry K))
      → Below key (entry_keys xs)
      → lookup key (xs ++ ys) ≡ lookup key ys
  unfolding lookup entry_keys
  lookup-right key [] ys h = refl
  lookup-right key ((k, ds) ∷ xs) ys (h, hs) =
      ground (arith, less_irrefl' k key h, lookup-right key xs ys hs)

  pub lookup-Above :
      (key : K) (ys : List (Entry K)) → Above key (entry_keys ys) → lookup key ys ≡ []
  unfolding lookup entry_keys
  lookup-Above key [] h = refl
  lookup-Above key ((k, ds) ∷ ys) (h, hs) =
      ground (arith, less_irrefl key k h, lookup-Above key ys hs)

  pub lookup-left :
      (key : K) (xs ys : List (Entry K))
      → Above key (entry_keys ys)
      → lookup key (xs ++ ys) ≡ lookup key xs
  unfolding lookup entry_keys
  lookup-left key [] ys h = lookup-Above key ys h
  lookup-left key ((k, ds) ∷ xs) ys h = ground (arith, lookup-left key xs ys h)
