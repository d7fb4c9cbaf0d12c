-- ===== src/Lock/Deadlock.antt =====
-- src/engine/lock/DeadlockDetector.js: the wait-for graph and the choice of a victim. A `Set` is the
-- list of its elements in the order they were added.
pub mod Victim
pub mod Graph
pub mod Tests
use collab_write.Prelude.{
  add, mem-add, ℕ, ◌+◌, Bool, true, false, ◌&&◌, ◌||◌, Option, none, some, List, [], ◌∷◌, ◌++◌,
  if◌then◌else◌, ltb, eqb, length, mem, Key, nat_key,
}
use collab_write.Prelude.Map
use collab_write.Prelude.Map.{Map}
use collab_write.Lock.{Edge, LockManager, wait_for_edges, locks_held_by}

unfoldable pub ensure : ℕ → Map ℕ (List ℕ) → Map ℕ (List ℕ)
ensure t graph = if Map.has t graph then graph else Map.set t [] graph

-- `graph.get(node) || []`
unfoldable pub neighbours : ℕ → Map ℕ (List ℕ) → List ℕ
neighbours t graph = elim (Map.get t graph) [ none ↦ [] | some ts ↦ ts ]

module _ {R : Type 0} where
  unfoldable pub add_edge : Edge R → Map ℕ (List ℕ) → Map ℕ (List ℕ)
  unfolding ensure neighbours
  add_edge e graph =
      let g = ensure e.waiter graph in
      ensure e.holder (Map.set e.waiter (add e.holder (neighbours e.waiter g)) g)

  unfoldable pub add_edges : List (Edge R) → Map ℕ (List ℕ) → Map ℕ (List ℕ)
  unfolding add_edge
  add_edges [] graph = graph
  add_edges (e ∷ es) graph = add_edges es (add_edge e graph)

module _ {R : Type 0} ⦃key : Key R⦄ where
  unfoldable pub build_wait_for_graph : LockManager R → Map ℕ (List ℕ)
  unfolding add_edges
  build_wait_for_graph m = add_edges (wait_for_edges m) []

  unfoldable pub locks_of : LockManager R → ℕ → ℕ
  locks_of m t = length (locks_held_by t m)

  -- The loop of `selectVictim`.
  unfoldable pub choose : LockManager R → List ℕ → ℕ → ℕ → ℕ
  unfolding locks_of
  choose m [] victim fewest = victim
  choose m (t ∷ ts) victim fewest =
      let held = locks_of m t in
      let better = ltb held fewest || (eqb held fewest && ltb victim t) in
      choose m ts (if better then t else victim) (if better then held else fewest)

  -- None for a cycle without transactions, which has no first one.
  unfoldable pub select_victim : List ℕ → LockManager R → Option ℕ
  unfolding choose
  select_victim [] m = none
  select_victim (t ∷ ts) m = some (choose m ts t (locks_of m t))
