-- ===== src/Buffer/Lru/Order.antt =====
-- LRUCache.js implements a list of page ids in order of use, each standing once.
use mathlib.Core.List.{reverse}
use collab_write.Prelude.{
  ℕ, ◌+◌, ◌≡◌, refl, ap, ◌∙◌, ◌||◌, none, List, [], ◌∷◌, arith, eqb, length, without, append-nil,
  nat_key, mem-without, without-Nodup, without_absent, length-without,
}
use collab_write.Prelude.Map
use collab_write.Buffer.Lru.{
  LruCache, walk, empty, touch, remove, clear, eviction_order, usage_order,
}
use collab_write.Buffer.Lru.Links.{last_of, walk-Linked, walk_back-Linked}
use collab_write.Buffer.Lru.Chain.{
  empty-Rep, without-mem_self, touch-Chained, touch-nodes, touch-has, mem_front, touch-count,
  remove-nodes, remove-Chained, Rep,
}

-- An access moves the page to the front of the list, or puts it there.
pub touch-Rep : (p : ℕ) (c : LruCache) (xs : List ℕ) → Rep c xs → Rep (touch p c) (p ∷ without p xs)
touch-Rep p c xs r = record {
  chained = touch-Chained p c xs r;
  nodup = (without-mem_self p xs, without-Nodup p xs r.nodup);
  tracked = λ k. touch-has p k c ∙ ap (λ b. eqb p k || b) (r.tracked k) ∙ mem_front p k xs;
  count = touch-count p c xs r;
  keyed = ground (arith, touch-nodes p c, Map.set-Distinct p tt c.nodes r.keyed, r.keyed);
}

-- A page that is removed leaves the list; the others keep their order.
pub remove-Rep : (p : ℕ) (c : LruCache) (xs : List ℕ) → Rep c xs → Rep (remove p c) (without p xs)
remove-Rep p c xs r = record {
  chained = remove-Chained p c xs r;
  nodup = without-Nodup p xs r.nodup;
  tracked = λ k. ground (
    arith,
    remove-nodes p c,
    Map.has-delete p k c.nodes r.keyed,
    r.tracked k,
    mem-without p k xs,
  );
  count = ground (
    arith,
    remove-nodes p c,
    Map.length-delete p c.nodes,
    Map.delete_absent p c.nodes,
    r.tracked p,
    r.count,
    length-without p xs r.nodup,
    without_absent p xs,
  );
  keyed = rw (remove-nodes p c) (Map.delete-Distinct p c.nodes r.keyed);
}

pub clear-Rep : (c : LruCache) → Rep (clear c) []
unfolding clear Map.has
clear-Rep c = record {
  chained = record { front = refl; back = refl; linked = tt };
  nodup = tt;
  tracked = λ k. refl;
  count = refl;
  keyed = tt;
}

-- The two walks give the list and its reverse.
pub orders-Rep :
    (c : LruCache) (xs : List ℕ) → Rep c xs → (usage_order c ≡ xs) × (eviction_order c ≡ reverse xs)
unfolding usage_order eviction_order
orders-Rep c xs r = (
  rw (r.count, r.chained.front) (walk-Linked c.prev c.next none xs r.chained.linked),
  rw (r.count, r.chained.back)
      (let e : length xs ≡ length xs + 0 = omega arith in
        ap (λ n. walk n c.prev (last_of none xs)) e
        ∙ walk_back-Linked c.prev c.next none xs none 0 r.chained.linked
        ∙ append-nil (reverse xs)),
)

-- The calls that change the cache.
pub data Call : Type 0 where
  touches removes : ℕ → Call
  clears : Call

pub step : LruCache → Call → LruCache
step c (touches p) = touch p c
step c (removes p) = remove p c
step c clears = clear c

pub run : LruCache → List Call → LruCache
run c [] = c
run c (call ∷ calls) = run (step c call) calls

-- The contract: a list of page ids, most recently used first.
unfoldable pub use_order : List ℕ → Call → List ℕ
use_order xs (touches p) = p ∷ without p xs
use_order xs (removes p) = without p xs
use_order xs clears = []

unfoldable pub use_orders : List ℕ → List Call → List ℕ
use_orders xs [] = xs
use_orders xs (call ∷ calls) = use_orders (use_order xs call) calls

run-Rep :
    (c : LruCache) (xs : List ℕ) (calls : List Call)
    → Rep c xs
    → Rep (run c calls) (use_orders xs calls)
unfolding run use_orders step use_order
run-Rep c xs [] r = r
run-Rep c xs (touches p ∷ calls) r =
    run-Rep (touch p c) (p ∷ without p xs) calls (touch-Rep p c xs r)
run-Rep c xs (removes p ∷ calls) r = run-Rep (remove p c) (without p xs) calls (remove-Rep p c xs r)
run-Rep c xs (clears ∷ calls) r = run-Rep (clear c) [] calls (clear-Rep c)

-- After any calls on a new cache, the linked list read from the head is the contract's list, and
-- read from the tail its reverse; both walks end within the number of nodes.
pub orders-run :
    (calls : List Call)
    → (usage_order (run empty calls) ≡ use_orders [] calls)
      × (eviction_order (run empty calls) ≡ reverse (use_orders [] calls))
orders-run calls =
    orders-Rep (run empty calls) (use_orders [] calls) (run-Rep empty [] calls empty-Rep)
