-- ===== src/Lock/Deadlock/Graph.antt =====
-- The wait-for graph that src/engine/lock/DeadlockDetector.js builds has the edges of the lock table.
use collab_write.Prelude.{
  add, mem-add, ℕ, ◌≡◌, refl, ap, ◌∙◌, Bool, false, ◌&&◌, ◌||◌, none, some, List, [], ◌∷◌,
  if◌then◌else◌, if_intro, eqb, eqb_iff, mem, any, arith, Key, nat_key,
}
use collab_write.Prelude.Map
use collab_write.Prelude.Map.{Map, get-set, get_absent}
use collab_write.Lock.{Edge, LockManager, wait_for_edges}
use collab_write.Lock.Deadlock.{ensure, neighbours, add_edge, add_edges, build_wait_for_graph}

neighbours-set :
    (j k : ℕ) (v : List ℕ) (g : Map ℕ (List ℕ))
    → neighbours j (Map.set k v g) ≡ (if eqb k j then v else neighbours j g)
unfolding neighbours
neighbours-set j k v g = ground (arith, get-set k j v g)

no_neighbours : (k : ℕ) (g : Map ℕ (List ℕ)) → Map.get k g ≡ none → neighbours k g ≡ []
unfolding neighbours
no_neighbours k g e = ap (λ o. elim o [ none ↦ [] | some ts ↦ ts ]) e

neighbours-ensure : (j k : ℕ) (g : Map ℕ (List ℕ)) → neighbours j (ensure k g) ≡ neighbours j g
unfolding ensure
neighbours-ensure j k g =
    if_intro (λ (r : Map ℕ (List ℕ)). neighbours j r ≡ neighbours j g) (Map.has k g) _ _ (λ _. refl)
      (λ e. neighbours-set j k [] g ∙ absent e)
  where
    absent : Map.has k g ≡ false → (if eqb k j then [] else neighbours j g) ≡ neighbours j g
    absent e = ground (
      arith,
      λ (q : k ≡ j). ap (λ i. neighbours i g) q,
      eqb_iff k j,
      no_neighbours k g (get_absent k g e),
    )

module _ {R : Type 0} where
  -- One of the edges says that transaction `w` waits for `h`.
  unfoldable pub waits_for : ℕ → ℕ → List (Edge R) → Bool
  waits_for w h es = any (λ (e : Edge R). eqb e.waiter w && eqb e.holder h) es

  mem-add_edge :
      (w h : ℕ) (e : Edge R) (g : Map ℕ (List ℕ))
      → mem h (neighbours w (add_edge e g))
        ≡ ((eqb e.waiter w && eqb e.holder h) || mem h (neighbours w g))
  unfolding add_edge
  mem-add_edge w h e g =
      let g1 = ensure e.waiter g in
      let ns = add e.holder (neighbours e.waiter g1) in
      ap (mem h)
        (neighbours-ensure w e.holder (Map.set e.waiter ns g1) ∙ neighbours-set w e.waiter ns g1)
      ∙ if_intro
          (λ (l : List ℕ). mem h l ≡ ((eqb e.waiter w && eqb e.holder h) || mem h (neighbours w g)))
          (eqb e.waiter w) ns (neighbours w g1)
          (λ q.
            mem-add h e.holder (neighbours e.waiter g1)
            ∙ ap (λ l. eqb e.holder h || mem h l)
                (neighbours-ensure e.waiter e.waiter g
                  ∙ ap (λ i. neighbours i g) ((eqb_iff e.waiter w).0 q))
            ∙ ground (arith, q))
          (λ q. ap (mem h) (neighbours-ensure w e.waiter g) ∙ ground (arith, q))

  mem-add_edges :
      (w h : ℕ) (es : List (Edge R)) (g : Map ℕ (List ℕ))
      → mem h (neighbours w (add_edges es g)) ≡ (mem h (neighbours w g) || waits_for w h es)
  unfolding add_edges waits_for
  mem-add_edges w h [] g = ground arith
  mem-add_edges w h (e ∷ es) g =
      ground (arith, mem-add_edges w h es (add_edge e g), mem-add_edge w h e g)

module _ {R : Type 0} ⦃key : Key R⦄ where
  -- In the wait-for graph that buildWaitForGraph builds one transaction has another as a
  -- neighbour exactly when the lock table has a wait-for edge between them.
  pub build_wait_for_graph-edges :
      (m : LockManager R) (w h : ℕ)
      → mem h (neighbours w (build_wait_for_graph m)) ≡ waits_for w h (wait_for_edges m)
  unfolding build_wait_for_graph waits_for Map.get
  build_wait_for_graph-edges m w h = mem-add_edges w h (wait_for_edges m) []
