-- ===== src/Index/Tree.antt =====
-- src/engine/index/BPlusTree.js: insertion and lookup; `Delete` is the deletion. A node holds its
-- first child and behind it pairs of a separator and a child; the way back up through `parent` is the
-- return from the recursion. The `next` chain of the leaves, and with it the range scan, the size and
-- the counters are left out.
pub mod Order
pub mod Ordered
pub mod Kept
pub mod Run
pub mod Balance
pub mod Delete
pub mod Rebalance
pub mod Leaves
pub mod Remove
pub mod Marks
pub mod Insert
pub mod Search
use Prim.Native.Nat.{◌/◌}
use collab_write.Prelude.{
  ℕ, zero, suc, ◌+◌, ◌≡◌, ◌↔◌, Bool, true, false, not, ◌||◌, ◌&&◌, Option, none, some, List, [],
  ◌∷◌, ◌++◌, length, take, drop, if◌then◌else◌, ltb, add, map, filter,
}

-- `===` and `<` on the keys, which are strings.
pub record KeyOrder (K : Type 0) : Type 0 where
  pub same : K → K → Bool
  pub less : K → K → Bool
  pub same_iff : (a b : K) → (same a b ≡ true) ↔ (a ≡ b)
  pub less-asymm : (a b : K) → less a b ≡ true → less b a ≡ false
  pub less-total : (a b : K) → less a b ≡ false → less b a ≡ false → a ≡ b
  pub less-between : (a b c : K) → less a b ≡ true → less c b ≡ false → less a c ≡ true

-- A key of a leaf with its set of documents.
abbrev pub Entry : Type 0 → Type 0
Entry K = K × List ℕ

mutual
  pub data Tree (K : Type 0) : Type 0 where
    leaf : List (K × List ℕ) → Tree K
    node : Tree K → Forest K → Tree K

  pub data Forest (K : Type 0) : Type 0 where
    end : Forest K
    link : K → Tree K → Forest K → Forest K

-- A node after an insertion: one node, or its halves with the separator that goes up.
pub data Grown (K : Type 0) : Type 0 where
  one : Tree K → Grown K
  two : Tree K → K → Tree K → Grown K

module _ {K : Type 0} where
  unfoldable pub key_count : Forest K → ℕ
  key_count end = 0
  key_count (link k u f) = suc (key_count f)

  -- The first separators of a node with their children.
  unfoldable pub take_links : ℕ → Forest K → Forest K
  take_links zero f = end
  take_links (suc n) end = end
  take_links (suc n) (link k u f) = link k u (take_links n f)

  unfoldable pub drop_links : ℕ → Forest K → Forest K
  drop_links zero f = f
  drop_links (suc n) end = end
  drop_links (suc n) (link k u f) = drop_links n f

  -- `splitLeaf` of a leaf whose right half has a first key.
  split_at : List (Entry K) → List (Entry K) → Grown K
  split_at left [] = one (leaf left)
  split_at left ((k, ds) ∷ es) = two (leaf left) k (leaf ((k, ds) ∷ es))

  unfoldable pub split_leaf : List (Entry K) → Grown K
  unfolding split_at
  split_leaf es = let mid = (length es + 1) / 2 in split_at (take mid es) (drop mid es)

  -- `splitInternal`: the separator in the middle goes up.
  split_links : Tree K → Forest K → Forest K → Grown K
  split_links t left end = one (node t left)
  split_links t left (link k u f) = two (node t left) k (node u f)

  unfoldable pub split_internal : Tree K → Forest K → Grown K
  unfolding split_links
  split_internal t f =
      let mid = key_count f / 2 in split_links t (take_links mid f) (drop_links mid f)

  -- The child that has grown in its parent.
  unfoldable pub attach : Grown K → Forest K → Tree K × Forest K
  attach (one t) f = (t, f)
  attach (two l s r) f = (l, link s r f)

  unfoldable pub grow_leaf : ℕ → List (Entry K) → Grown K
  grow_leaf max_keys es = if ltb max_keys (length es) then split_leaf es else one (leaf es)

  unfoldable pub grow_node : ℕ → Tree K × Forest K → Grown K
  grow_node max_keys (t, f) =
      if ltb max_keys (key_count f) then split_internal t f else one (node t f)

  -- The entries of the leaves, from left to right.
  unfoldable mutual
    pub entries : Tree K → List (K × List ℕ)
    entries (leaf es) = es
    entries (node t f) = entries t ++ entries_of f

    pub entries_of : Forest K → List (K × List ℕ)
    entries_of end = []
    entries_of (link k u f) = entries u ++ entries_of f

module _ {K : Type 0} ⦃o : KeyOrder K⦄ where
  -- The loop of `insert` over the keys of a leaf, and the change at its end.
  unfoldable pub insert_entry : K → ℕ → List (Entry K) → List (Entry K)
  insert_entry key doc_id [] = (key, doc_id ∷ []) ∷ []
  insert_entry key doc_id ((k, ds) ∷ es) =
      let rest = insert_entry key doc_id es in
      if o.same key k
      then (k, add doc_id ds) ∷ es
      else if o.less key k
      then (key, doc_id ∷ []) ∷ (k, ds) ∷ es
      else (k, ds) ∷ rest

  -- The descent of `findLeaf` and the way back; `here` is the first child after the insertion.
  unfoldable mutual
    pub insert_tree : ℕ → K → ℕ → Tree K → Grown K
    insert_tree max_keys key doc_id (leaf es) = grow_leaf max_keys (insert_entry key doc_id es)
    insert_tree max_keys key doc_id (node t f) =
        grow_node max_keys
          (insert_forest max_keys key doc_id (insert_tree max_keys key doc_id t) t f)

    pub insert_forest : ℕ → K → ℕ → Grown K → Tree K → Forest K → Tree K × Forest K
    insert_forest max_keys key doc_id here t end = attach here end
    insert_forest max_keys key doc_id here t (link k u f) =
        let (u', f') : Tree K × Forest K =
          insert_forest max_keys key doc_id (insert_tree max_keys key doc_id u) u f in
        if o.less key k then attach here (link k u f) else (t, link k u' f')

  -- `insertIntoParent` at the root.
  unfoldable pub insert_root : Grown K → Tree K
  insert_root (one t) = t
  insert_root (two l s r) = node l (link s r end)

  unfoldable pub tree_insert : ℕ → K → ℕ → Tree K → Tree K
  tree_insert max_keys key doc_id t = insert_root (insert_tree max_keys key doc_id t)

  -- `indexOf` in the keys of a leaf, and the set beside the key.
  unfoldable pub lookup : K → List (Entry K) → List ℕ
  lookup key [] = []
  lookup key ((k, ds) ∷ es) = if o.same k key then ds else lookup key es

  unfoldable mutual
    pub search : K → Tree K → List ℕ
    search key (leaf es) = lookup key es
    search key (node t f) = search_forest key (search key t) f

    pub search_forest : K → List ℕ → Forest K → List ℕ
    search_forest key here end = here
    search_forest key here (link k u f) =
        let there : List ℕ = search_forest key (search key u) f in
        if o.less key k then here else there
