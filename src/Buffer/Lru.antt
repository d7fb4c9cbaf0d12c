-- ===== src/Buffer/Lru.antt =====
-- src/engine/buffer/LRUCache.js: a doubly linked list of page ids with a map from page id to node.
-- A node is named by its page id: the map holds one node for each, and nothing else keeps a node.
-- `prev` and `next` are the links of a node, `none` for null.
pub mod Links
pub mod Chain
pub mod Order
use collab_write.Prelude.{
  ℕ, zero, suc, Bool, true, false, Option, none, some, List, [], ◌∷◌, if◌then◌else◌, eqb, length,
  nat_key,
}
use collab_write.Prelude.Map
use collab_write.Prelude.Map.{Map}

pub record LruCache : Type 0 where
  pub head : Option ℕ
  pub tail : Option ℕ
  -- The map's keys with the nodes that it leads to, in the two link functions.
  pub nodes : Map ℕ (Unit {0})
  pub prev : ℕ → Option ℕ
  pub next : ℕ → Option ℕ

abbrev pub write : (ℕ → Option ℕ) → ℕ → Option ℕ → ℕ → Option ℕ
write f p v q = if eqb p q then v else f q

unfoldable pub empty : LruCache
empty = record { head = none; tail = none; nodes = []; prev = λ _. none; next = λ _. none }

unfoldable pub size : LruCache → ℕ
size c = length c.nodes

unfoldable pub has : ℕ → LruCache → Bool
has page_id c = Map.has page_id c.nodes

-- `if (this.head) this.head.prev = node`
link_head : Option ℕ → ℕ → (ℕ → Option ℕ) → ℕ → Option ℕ
link_head none node prev = prev
link_head (some h) node prev = write prev h (some node)

or_node : Option ℕ → ℕ → Option ℕ
or_node none node = some node
or_node (some t) node = some t

unfoldable pub link_front : ℕ → LruCache → LruCache
unfolding link_head or_node
link_front node c = record c {
  head = some node;
  tail = or_node c.tail node;
  prev = link_head c.head node (write c.prev node none);
  next = write c.next node c.head;
}

-- `if (node.prev) node.prev.next = node.next; else this.head = node.next;`
unlink_prev : Option ℕ → ℕ → LruCache → LruCache
unlink_prev none node c = record c { head = c.next node }
unlink_prev (some p) node c = record c { next = write c.next p (c.next node) }

-- `if (node.next) node.next.prev = node.prev; else this.tail = node.prev;`
unlink_next : Option ℕ → ℕ → LruCache → LruCache
unlink_next none node c = record c { tail = c.prev node }
unlink_next (some n) node c = record c { prev = write c.prev n (c.prev node) }

clear_links : ℕ → LruCache → LruCache
clear_links node c = record c { prev = write c.prev node none; next = write c.next node none }

unfoldable pub unlink : ℕ → LruCache → LruCache
unfolding unlink_prev unlink_next clear_links
unlink node c =
    let c' = unlink_prev (c.prev node) node c in
    clear_links node (unlink_next (c'.next node) node c')

unfoldable pub touch : ℕ → LruCache → LruCache
unfolding link_front unlink
touch page_id c =
    if Map.has page_id c.nodes
    then link_front page_id (unlink page_id c)
    else link_front page_id (record c { nodes = Map.set page_id tt c.nodes })

unfoldable pub remove : ℕ → LruCache → LruCache
unfolding unlink
remove page_id c =
    if Map.has page_id c.nodes
    then (let c' = unlink page_id c in record c' { nodes = Map.delete page_id c'.nodes })
    else c

-- The loops of `evictionOrder` and `usageOrder`: follow a link until null. The fuel is the number
-- of nodes; `walk-Linked` shows that it is enough.
unfoldable pub walk : ℕ → (ℕ → Option ℕ) → Option ℕ → List ℕ
walk zero link _ = []
walk (suc fuel) link none = []
walk (suc fuel) link (some n) = n ∷ walk fuel link (link n)

unfoldable pub eviction_order : LruCache → List ℕ
unfolding walk
eviction_order c = walk (length c.nodes) c.prev c.tail

unfoldable pub usage_order : LruCache → List ℕ
unfolding walk
usage_order c = walk (length c.nodes) c.next c.head

unfoldable pub clear : LruCache → LruCache
clear c = record c { head = none; tail = none; nodes = [] }
