-- ===== src/Messaging/Sessions.antt =====
-- src/engine/messaging/CollaborationManager.js: the table of sessions, its index by document, and the
-- consumer of the message queue. A `Set` is the list of its elements in the order they were added. User
-- names and the payloads of other events are of any type; what is broadcast is a result.
pub mod Index
pub mod Links
pub mod Presence
use collab_write.Prelude.{
  add, mem-add, ℕ, ◌+◌, Bool, true, false, Option, none, some, List, [], ◌∷◌, ◌++◌, if◌then◌else◌,
  map, mem, without, Key, nat_key,
}
use collab_write.Prelude.Map
use collab_write.Prelude.Map.{Map}
use collab_write.Messaging.Queue.{
  EventType, Event, Envelope, MessageQueue, subscribe, unsubscribe, publish,
}

pub record Session (U : Type 0) : Type 0 where
  pub session_id : ℕ
  pub user_id : ℕ
  pub username : U
  pub doc_ids : List ℕ

pub record Participant (U : Type 0) : Type 0 where
  pub session_id : ℕ
  pub user_id : ℕ
  pub username : U

pub data Action : Type 0 where
  joins leaves : Action

-- The payload of a presence event, and of any other.
pub data Payload (U E : Type 0) : Type 0 where
  presence : Action → ℕ → U → List (Participant U) → Payload U E
  other : E → Payload U E

pub record Stats : Type 0 where
  pub broadcasts : ℕ
  pub joined : ℕ
  pub left : ℕ

pub record Manager (U E : Type 0) : Type 0 where
  pub message_queue : MessageQueue ℕ (Payload U E)
  pub transport : Bool
  pub sessions : Map ℕ (Session U)
  pub by_document : Map ℕ (List ℕ)
  pub stats : Stats

-- The number that names the manager among the queue's consumers.
abbrev pub manager_id : ℕ
manager_id = 0

unfoldable pub or_empty : Option (List ℕ) → List ℕ
or_empty none = []
or_empty (some xs) = xs

-- The sessions of a document.
unfoldable pub members_of : ℕ → Map ℕ (List ℕ) → List ℕ
unfolding or_empty
members_of d m = or_empty (Map.get d m)

-- The document's set of sessions, or no entry when the set is empty.
unfoldable pub put_members : ℕ → List ℕ → Map ℕ (List ℕ) → Map ℕ (List ℕ)
put_members d [] index = Map.delete d index
put_members d (x ∷ xs) index = Map.set d (x ∷ xs) index

unfoldable pub drop_member : ℕ → ℕ → Option (List ℕ) → Map ℕ (List ℕ) → Map ℕ (List ℕ)
unfolding put_members
drop_member s d none index = index
drop_member s d (some members) index = put_members d (without s members) index

module _ {U : Type 0} where
  unfoldable pub docs : Option (Session U) → List ℕ
  docs none = []
  docs (some s) = s.doc_ids

  -- The documents of a session.
  unfoldable pub docs_of : ℕ → Map ℕ (Session U) → List ℕ
  unfolding docs
  docs_of s m = docs (Map.get s m)

  unfoldable pub participant : Option (Session U) → List (Participant U)
  participant none = []
  participant (some s) =
      record { session_id = s.session_id; user_id = s.user_id; username = s.username } ∷ []

  -- `map`, `filter(Boolean)` and `map` of `getParticipants`
  unfoldable pub participants : List ℕ → Map ℕ (Session U) → List (Participant U)
  unfolding participant
  participants [] m = []
  participants (s ∷ ss) m = participant (Map.get s m) ++ participants ss m

  -- The session that joins: the one registered, or a new one.
  unfoldable pub registered : Option (Session U) → ℕ → ℕ → U → Session U
  registered none s user name = record {
    session_id = s;
    user_id = user;
    username = name;
    doc_ids = [];
  }
  registered (some x) s user name = x

  unfoldable pub without_document : ℕ → Session U → Session U
  without_document d session = record session { doc_ids = without d session.doc_ids }

  -- The documents to leave: the one named, or all.
  unfoldable pub targets : Option ℕ → Session U → List ℕ
  targets none session = session.doc_ids
  targets (some d) session = d ∷ []

module _ {U E : Type 0} where
  unfoldable pub create : Bool → MessageQueue ℕ (Payload U E) → Manager U E
  create transport queue = record {
    message_queue = subscribe manager_id queue;
    transport = transport;
    sessions = [];
    by_document = [];
    stats = record { broadcasts = 0; joined = 0; left = 0 };
  }

  unfoldable pub get_participants : ℕ → Manager U E → List (Participant U)
  unfolding participants members_of or_empty
  get_participants d m = participants (members_of d m.by_document) m.sessions

  -- `messageQueue.publish`: none when it throws a `QueueFullError`.
  unfoldable pub announce : ℕ → ℕ → Payload U E → Manager U E → Manager U E × Option ℕ
  announce now d payload m =
      let r =
        publish now (record { doc_id = d; type = EventType.presence; payload = payload })
          m.message_queue in
      (record m { message_queue = r.0 }, r.1)

  -- `join` up to the call of `publish`.
  unfoldable pub enter : ℕ → ℕ → U → ℕ → Manager U E → Manager U E
  unfolding registered members_of or_empty
  enter s user name d m =
      let session = registered (Map.get s m.sessions) s user name in
      record m {
        sessions = Map.set s (record session { doc_ids = add d session.doc_ids }) m.sessions;
        by_document = Map.set d (add s (members_of d m.by_document)) m.by_document;
        stats = record m.stats { joined = m.stats.joined + 1 };
      }

  -- The result is none when `publish` throws.
  unfoldable pub join :
      ℕ → ℕ → ℕ → U → ℕ → Manager U E → Manager U E × Option (List (Participant U))
  unfolding announce enter get_participants
  join now s user name d m =
      let m' = enter s user name d m in
      let (m'', sent) = announce now d (presence joins user name (get_participants d m')) m' in
      (m'', elim sent [ none ↦ none | some n ↦ some (get_participants d m'') ])

  -- One turn of the loop of `leave` up to the call of `publish`.
  unfoldable pub exit : ℕ → ℕ → Session U → Manager U E → Manager U E
  unfolding drop_member without_document
  exit s d session m = record m {
    sessions = Map.set s (without_document d session) m.sessions;
    by_document = drop_member s d (Map.get d m.by_document) m.by_document;
    stats = record m.stats { left = m.stats.left + 1 };
  }

  -- A session that is in no document is dropped.
  unfoldable pub close_session : ℕ → List ℕ → Manager U E → Manager U E
  close_session s [] m = record m { sessions = Map.delete s m.sessions }
  close_session s (d ∷ ds) m = m

  -- The loop of `leave`: false when `publish` throws.
  unfoldable pub leave_loop : ℕ → ℕ → List ℕ → Session U → Manager U E → Manager U E × Bool
  unfolding announce exit get_participants close_session without_document
  leave_loop now s [] session m = (close_session s session.doc_ids m, true)
  leave_loop now s (d ∷ ds) session m =
      let m' = exit s d session m in
      let r =
        announce now d (presence leaves session.user_id session.username (get_participants d m'))
          m' in
      elim r.1 [
        | none ↦ (r.0, false)
        | some n ↦ leave_loop now s ds (without_document d session) r.0
      ]

  unfoldable pub leave : ℕ → ℕ → Option ℕ → Manager U E → Manager U E × Bool
  unfolding leave_loop targets
  leave now s target m = elim (Map.get s m.sessions) [
    | none ↦ (m, true)
    | some session ↦ leave_loop now s (targets target session) session m
  ]

  unfoldable pub set_transport : Bool → Manager U E → Manager U E
  set_transport transport m = record m { transport = transport }

  -- The envelope is broadcast when there is a transport.
  unfoldable pub handle_event :
      Envelope ℕ (Payload U E) → Manager U E → Manager U E × Option (Envelope ℕ (Payload U E))
  handle_event x m =
      let m' = record m { stats = record m.stats { broadcasts = m.stats.broadcasts + 1 } } in
      if m.transport then (m', some x) else (m', none)

  unfoldable pub close : Manager U E → Manager U E
  close m = record m {
    message_queue = unsubscribe manager_id m.message_queue;
    sessions = [];
    by_document = [];
  }
