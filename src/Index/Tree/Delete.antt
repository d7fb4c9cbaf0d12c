-- ===== src/Index/Tree/Delete.antt =====
-- Deletion in src/engine/index/BPlusTree.js, with borrows and merges. The flag of a result tells the
-- parent to see whether the child has too few keys. Siblings are both leaves or both inner nodes; of
-- other pairs the code's branches are not reached, and the model leaves them as they are.
use Prim.Native.Nat.{◌/◌}
use collab_write.Prelude.{
  ℕ, ◌+◌, ◌-◌, Bool, true, false, ◌&&◌, Option, none, some, List, [], ◌∷◌, ◌++◌, length,
  if◌then◌else◌, ltb, mem, without,
}
use collab_write.Index.Tree.{KeyOrder, Entry, Tree, leaf, node, Forest, end, link, key_count}

-- Two siblings and the separator between them.
abbrev pub Siblings : Type 0 → Type 0
Siblings A = Tree A × A × Tree A

-- A parent's children, and whether the parent is to be seen to.
abbrev pub Fixed : Type 0 → Type 0
Fixed A = (Tree A × Forest A) × Bool

module _ {K : Type 0} where
  -- `keys.length`
  unfoldable pub size_of : Tree K → ℕ
  size_of (leaf es) = length es
  size_of (node t f) = key_count f

  -- `minKeysFor`, with `leafMinKeys` and `internalMinKeys`.
  unfoldable pub min_keys_for : ℕ → Tree K → ℕ
  min_keys_for max_keys (leaf es) = (max_keys + 1) / 2
  min_keys_for max_keys (node t f) = (max_keys + 2) / 2 - 1

  unfoldable pub underfull : ℕ → Tree K → Bool
  underfull max_keys t = ltb (size_of t) (min_keys_for max_keys t)

  -- `pop` on the entries of a leaf, and on the separators and children of a node.
  unfoldable pub pop_entry : Entry K → List (Entry K) → List (Entry K) × Entry K
  pop_entry e [] = ([], e)
  pop_entry e (x ∷ es) = let (rest, last) = pop_entry x es in (e ∷ rest, last)

  unfoldable pub pop_link : K → Tree K → Forest K → Forest K × K × Tree K
  pop_link k u end = (end, k, u)
  pop_link k u (link j v f) = let (rest, i, w) = pop_link j v f in (link k u rest, i, w)

  unfoldable pub push_links : Forest K → Forest K → Forest K
  push_links end g = g
  push_links (link k u f) g = link k u (push_links f g)

  unfoldable pub borrow_from_left : Tree K → K → Tree K → Siblings K
  borrow_from_left (leaf (e ∷ es)) k (leaf ys) =
      let (rest, last) = pop_entry e es in (leaf rest, last.0, leaf (last ∷ ys))
  borrow_from_left (node t (link j v f)) k (node u g) =
      let (rest, i, w) = pop_link j v f in (node t rest, i, node w (link k u g))
  borrow_from_left left k right = (left, k, right)

  unfoldable pub borrow_from_right : Tree K → K → Tree K → Siblings K
  borrow_from_right (leaf xs) k (leaf (e ∷ (j, ds) ∷ es)) =
      (leaf (xs ++ e ∷ []), j, leaf ((j, ds) ∷ es))
  borrow_from_right (node t f) k (node u (link j v g)) =
      (node t (push_links f (link k u end)), j, node v g)
  borrow_from_right left k right = (left, k, right)

  -- none stands for a pair that does not occur.
  unfoldable pub merge_nodes : Tree K → K → Tree K → Option (Tree K)
  merge_nodes (leaf xs) k (leaf ys) = some (leaf (xs ++ ys))
  merge_nodes (node t f) k (node u g) = some (node t (push_links f (link k u g)))
  merge_nodes (leaf xs) k (node u g) = none
  merge_nodes (node t f) k (leaf ys) = none

  unfoldable pub merge_into : Tree K → K → Tree K → Forest K → Fixed K
  merge_into left k right f = elim (merge_nodes left k right) [
    | none ↦ ((left, link k right f), false)
    | some t ↦ ((t, f), true)
  ]

  unfoldable pub put_back : Siblings K → Forest K → Fixed K
  put_back (left, k, right) f = ((left, link k right f), false)

  -- `rebalance` of the first child, which has no left sibling.
  unfoldable pub rebalance_first : ℕ → Tree K → Forest K → Fixed K
  rebalance_first max_keys t end = ((t, end), false)
  rebalance_first max_keys t (link k u f) =
      if ltb (min_keys_for max_keys t) (size_of u)
      then put_back (borrow_from_right t k u) f
      else merge_into t k u f

  -- A right sibling with keys to spare.
  unfoldable pub rich_right : ℕ → Tree K → Forest K → Option (K × Tree K × Forest K)
  rich_right max_keys u end = none
  rich_right max_keys u (link k v f) =
      if ltb (min_keys_for max_keys u) (size_of v) then some (k, v, f) else none

  -- The left sibling has no key to spare.
  unfoldable pub borrow_or_merge : ℕ → Tree K → K → Tree K → Forest K → Fixed K
  borrow_or_merge max_keys left k u f = elim (rich_right max_keys u f) [
    | none ↦ merge_into left k u f
    | some (j, v, g) ↦
        let (u', j', v') = borrow_from_right u j v in ((left, link k u' (link j' v' g)), false)
  ]

  -- `rebalance` of the child `u` with the left sibling `left`.
  unfoldable pub rebalance_next : ℕ → Tree K → K → Tree K → Forest K → Fixed K
  rebalance_next max_keys left k u f =
      if ltb (min_keys_for max_keys u) (size_of left)
      then put_back (borrow_from_left left k u) f
      else borrow_or_merge max_keys left k u f

  -- The change of the entry of the key: none when nothing is removed, else whether the key is gone.
  unfoldable pub delete_doc :
      K → Option ℕ → List ℕ → List (Entry K) → Option (List (Entry K) × Bool)
  delete_doc k none ds es = some (es, true)
  delete_doc k (some d) ds es =
      if mem d ds
      then (if ltb 0 (length (without d ds))
          then some ((k, without d ds) ∷ es, false)
          else some (es, true))
      else none

module _ {K : Type 0} ⦃o : KeyOrder K⦄ where
  -- The change of a leaf.
  unfoldable pub delete_entry : K → Option ℕ → List (Entry K) → Option (List (Entry K) × Bool)
  delete_entry key doc_id [] = none
  delete_entry key doc_id ((k, ds) ∷ es) =
      let rest : Option (List (Entry K) × Bool) = delete_entry key doc_id es in
      if o.same k key
      then delete_doc k doc_id ds es
      else elim rest [ none ↦ none | some (es', gone) ↦ some ((k, ds) ∷ es', gone) ]

  unfoldable pub at_leaf : Option (List (Entry K) × Bool) → Option (Tree K × Bool)
  at_leaf none = none
  at_leaf (some (es, gone)) = some (leaf es, gone)

  unfoldable pub at_node : Option (Fixed K) → Option (Tree K × Bool)
  at_node none = none
  at_node (some ((t, f), check)) = some (node t f, check)

  -- What the change of a child asks of its parent.
  unfoldable pub after_first : ℕ → Option (Tree K × Bool) → Forest K → Option (Fixed K)
  after_first max_keys none f = none
  after_first max_keys (some (t, check)) f =
      some (if check && underfull max_keys t then rebalance_first max_keys t f else ((t, f), false))

  unfoldable pub after_next : ℕ → Tree K → K → Option (Tree K × Bool) → Forest K → Option (Fixed K)
  after_next max_keys left k none f = none
  after_next max_keys left k (some (u, check)) f = some (
      if check && underfull max_keys u
      then rebalance_next max_keys left k u f
      else ((left, link k u f), false))

  unfoldable pub behind : Tree K → K → Option (Fixed K) → Option (Fixed K)
  behind left k none = none
  behind left k (some ((u, f), check)) = some ((left, link k u f), check)

  -- The descent of `findLeaf` stops before these links.
  unfoldable pub stops_before : K → Forest K → Bool
  stops_before key end = true
  stops_before key (link k u f) = o.less key k

  -- `here` is the first child after the deletion.
  unfoldable mutual
    pub delete_tree : ℕ → K → Option ℕ → Tree K → Option (Tree K × Bool)
    delete_tree max_keys key doc_id (leaf es) = at_leaf (delete_entry key doc_id es)
    delete_tree max_keys key doc_id (node t f) =
        at_node (delete_forest max_keys key doc_id (delete_tree max_keys key doc_id t) t f)

    pub delete_forest :
        ℕ → K → Option ℕ → Option (Tree K × Bool) → Tree K → Forest K → Option (Fixed K)
    delete_forest max_keys key doc_id here t end = after_first max_keys here end
    delete_forest max_keys key doc_id here t (link k u f) =
        let there : Option (Tree K × Bool) = delete_tree max_keys key doc_id u in
        let further : Option (Fixed K) = delete_forest max_keys key doc_id there u f in
        if o.less key k
        then after_first max_keys here (link k u f)
        else if stops_before key f
        then after_next max_keys t k there f
        else behind t k further

  -- A root without keys gives way to its only child.
  unfoldable pub collapse : Tree K → Tree K
  collapse (leaf es) = leaf es
  collapse (node t end) = t
  collapse (node t (link k u f)) = node t (link k u f)

  -- The tree and what `delete` returns.
  unfoldable pub tree_delete : ℕ → K → Option ℕ → Tree K → Tree K × Bool
  tree_delete max_keys key doc_id t = elim (delete_tree max_keys key doc_id t) [
    | none ↦ (t, false)
    | some (t', check) ↦ (if check then collapse t' else t', true)
  ]
