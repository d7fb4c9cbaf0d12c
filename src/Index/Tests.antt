-- ===== src/Index/Tests.antt =====
-- A tree of at most three keys to a node after eight insertions, with numbers for keys.
use collab_write.Prelude.{ℕ, ◌≡◌, refl, true, false, some, List, [], ◌∷◌, ltb, eqb, eqb_iff, arith}
use collab_write.Index.Tree.{
  KeyOrder, leaf, entries, search, tree_insert, insert_root, insert_tree, grow_leaf, insert_entry,
  split_leaf, grow_node, key_count, attach, lookup,
}
use collab_write.Index.Tree.Run.{run, documents, search-documents}
use collab_write.Index.Tree.Delete.{tree_delete}
use collab_write.Index.Tree.Remove.{survivors, has_entry, tree_delete-run}
use collab_write.Index.Tree.Balance.{IsBalanced, run-IsBalanced}

less-asymm : (a b : ℕ) → ltb a b ≡ true → ltb b a ≡ false
less-asymm a b h = ground (arith, h)

less-total : (a b : ℕ) → ltb a b ≡ false → ltb b a ≡ false → a ≡ b
less-total a b h g = ground (arith, h, g)

less-between : (a b c : ℕ) → ltb a b ≡ true → ltb c b ≡ false → ltb a c ≡ true
less-between a b c h g = ground (arith, h, g)

instance abbrev number_order : KeyOrder ℕ
number_order = record {
  same = eqb;
  less = ltb;
  same_iff = eqb_iff;
  less-asymm = less-asymm;
  less-total = less-total;
  less-between = less-between;
}

abbrev calls : List (ℕ × ℕ)
calls = (5, 1) ∷ (2, 1) ∷ (9, 2) ∷ (7, 2) ∷ (5, 3) ∷ (1, 4) ∷ (3, 4) ∷ (8, 5) ∷ (4, 6) ∷ (6, 6) ∷ []

search_runs : search 5 (run 3 calls (leaf [])) ≡ 1 ∷ 3 ∷ []
unfolding search run tree_insert insert_root insert_tree grow_leaf insert_entry split_leaf grow_node
    key_count attach lookup
search_runs = refl

search-documents_example : search 5 (run 3 calls (leaf [])) ≡ documents 5 calls []
search-documents_example = search-documents 3 5 calls

run-IsBalanced_example : (h : ℕ) × IsBalanced 3 h (run 3 calls (leaf []))
run-IsBalanced_example = run-IsBalanced 3 calls (omega arith)

tree_delete-run_example :
    let t = run 3 calls (leaf []) in
    let (t', removed) = tree_delete 3 5 (some 1) t in
    (entries t' ≡ survivors 5 (some 1) (entries t)) × (removed ≡ has_entry 5 (some 1) (entries t))
tree_delete-run_example = tree_delete-run 3 calls 5 (some 1)
