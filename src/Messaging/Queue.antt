-- ===== src/Messaging/Queue.antt =====
-- src/engine/messaging/MessageQueue.js: a bounded buffer between the workers, which publish committed
-- edits, and the consumers. Document ids and payloads are of any type. A consumer is named by a
-- number; what a drain hands to it is the result of the drain. Consumers do not call the queue back,
-- and an error that one throws is caught and changes nothing.
pub mod Run
pub mod Numbers
pub mod Order
pub mod Bounds
pub mod Delivery
use collab_write.Prelude.{
  ℕ, ◌+◌, Bool, true, false, Option, none, some, List, [], ◌∷◌, ◌++◌, if◌then◌else◌, leb, eqb,
  length, map, Key,
}
use collab_write.Prelude.Map
use collab_write.Prelude.Map.{Map}

-- The `type` field of the events that the engine publishes.
pub data EventType : Type 0 where
  edit presence conflict : EventType

pub record Event (D P : Type 0) : Type 0 where
  pub doc_id : D
  pub type : EventType
  pub payload : P

pub record Envelope (D P : Type 0) : Type 0 where
  pub event : Event D P
  pub open event use *
  pub sequence : ℕ
  pub published_at : ℕ

pub record Stats : Type 0 where
  pub published : ℕ
  pub delivered : ℕ
  pub dropped : ℕ

abbrev pub no_stats : Stats
no_stats = record { published = 0; delivered = 0; dropped = 0 }

pub record MessageQueue (D P : Type 0) : Type 0 where
  pub capacity : ℕ
  pub buffer : List (Envelope D P)
  pub sequences : Map D ℕ
  pub consumers : List ℕ
  pub draining : Bool
  pub stats : Stats

-- `consumers.splice(indexOf(consumer), 1)`
unfoldable pub remove_first : ℕ → List ℕ → List ℕ
remove_first c [] = []
remove_first c (x ∷ xs) = if eqb x c then xs else x ∷ remove_first c xs

module _ {D P : Type 0} where
  unfoldable pub create : ℕ → MessageQueue D P
  create capacity = record {
    capacity = capacity;
    buffer = [];
    sequences = [];
    consumers = [];
    draining = false;
    stats = no_stats;
  }

  unfoldable pub subscribe : ℕ → MessageQueue D P → MessageQueue D P
  subscribe c q = record q { consumers = q.consumers ++ c ∷ [] }

  -- The function that `subscribe` returns.
  unfoldable pub unsubscribe : ℕ → MessageQueue D P → MessageQueue D P
  unfolding remove_first
  unsubscribe c q = record q { consumers = remove_first c q.consumers }

  -- The drain is due when `draining` is set.
  unfoldable pub schedule_drain : MessageQueue D P → MessageQueue D P
  schedule_drain q = if q.draining then q else record q { draining = true }

  unfoldable pub shift :
      List (Envelope D P) → MessageQueue D P → MessageQueue D P × Option (Envelope D P)
  shift [] q = (q, none)
  shift (x ∷ rest) q = (record q { buffer = rest }, some x)

  unfoldable pub consume : MessageQueue D P → MessageQueue D P × Option (Envelope D P)
  unfolding shift
  consume q = shift q.buffer q

  -- The inner loop of `drain`: one event to every consumer.
  unfoldable pub deliver : Envelope D P → List ℕ → List (ℕ × Envelope D P)
  deliver x [] = []
  deliver x (c ∷ cs) = (c, x) ∷ deliver x cs

  -- The outer loop, over the events that are buffered.
  unfoldable pub drain_loop :
      List (Envelope D P) → MessageQueue D P → MessageQueue D P × List (ℕ × Envelope D P)
  unfolding deliver
  drain_loop [] q = (record q { buffer = [] }, [])
  drain_loop (x ∷ rest) q =
      let (q', out) =
        drain_loop rest
          (record q { stats = record q.stats { delivered = q.stats.delivered + 1 } }) in
      (q', deliver x q.consumers ++ out)

  unfoldable pub drain : MessageQueue D P → MessageQueue D P × List (ℕ × Envelope D P)
  unfolding drain_loop
  drain q = drain_loop q.buffer q

  -- The callback of `setImmediate`.
  unfoldable pub immediate : MessageQueue D P → MessageQueue D P × List (ℕ × Envelope D P)
  unfolding drain
  immediate q = drain (record q { draining = false })

  unfoldable pub reset : MessageQueue D P → MessageQueue D P
  reset q = record q { buffer = []; sequences = []; stats = no_stats }

-- `... || 0`
unfoldable pub or_zero : Option ℕ → ℕ
or_zero none = 0
or_zero (some n) = n

-- The last number issued for a document.
unfoldable pub last_sequence : {D : Type 0} ⦃key : Key D⦄ → D → Map D ℕ → ℕ
unfolding or_zero
last_sequence d m = or_zero (Map.get d m)

module _ {D P : Type 0} ⦃key : Key D⦄ where
  unfoldable pub accept : ℕ → Event D P → MessageQueue D P → MessageQueue D P
  accept now event q =
      let sequence = last_sequence event.doc_id q.sequences + 1 in
      schedule_drain (record q {
        sequences = Map.set event.doc_id sequence q.sequences;
        buffer = q.buffer ++ record { event = event; sequence = sequence; published_at = now } ∷ [];
        stats = record q.stats { published = q.stats.published + 1 };
      })

  -- The sequence number, or none when the queue is full and the event is dropped.
  unfoldable pub publish : ℕ → Event D P → MessageQueue D P → MessageQueue D P × Option ℕ
  unfolding accept
  publish now event q =
      if leb q.capacity (length q.buffer)
      then (record q { stats = record q.stats { dropped = q.stats.dropped + 1 } }, none)
      else (accept now event q, some (last_sequence event.doc_id q.sequences + 1))
