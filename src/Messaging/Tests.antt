-- ===== src/Messaging/Tests.antt =====
-- Runs of the message queue and the collaboration manager, and their theorems at concrete histories.
use collab_write.Prelude.{
  ℕ, ◌+◌, ◌≤◌, ◌≡◌, refl, ◌⊎◌, true, false, none, List, [], ◌∷◌, ◌++◌, map, length, mem, nat_key,
}
use collab_write.Messaging.Queue.{EventType, Event, MessageQueue, create, immediate, last_sequence}
use collab_write.Messaging.Queue.Run.{
  Call, publishes, consumes, drains, subscribes, run, start, numbers, count_up, drained,
}
use collab_write.Messaging.Queue.Order.{Spares, heard, joined, fifo}
use collab_write.Messaging.Queue.Bounds.{bounded}
use collab_write.Messaging.Queue.Delivery.{received, immediate-received}
use collab_write.Messaging.Sessions
use collab_write.Messaging.Sessions.{docs_of, members_of, get_participants, Participant}
use collab_write.Messaging.Sessions.Presence
use collab_write.Messaging.Sessions.Presence.{
  joins_call, leaves_call, tables_agree, presence_complete,
}

abbrev edited : ℕ → Event ℕ ℕ
edited d = record { doc_id = d; type = EventType.edit; payload = 0 }

-- Two documents, a consumed event, a drain, and a queue that is full at the end.
abbrev history : List (Call ℕ ℕ)
history =
    subscribes 3
    ∷ publishes 0 (edited 7)
    ∷ publishes 1 (edited 8)
    ∷ consumes
    ∷ publishes 2 (edited 7)
    ∷ drains
    ∷ publishes 3 (edited 7)
    ∷ publishes 4 (edited 7)
    ∷ publishes 5 (edited 8)
    ∷ []

fifo_example :
    let w = heard 6 history (joined 6 2) in
    numbers 7 (w.past ++ w.buffer) ≡ count_up (last_sequence 7 w.sequences)
unfolding Spares
fifo_example = fifo 2 6 history 7 (refl, (tt, (tt, (tt, (tt, (tt, (tt, (tt, (tt, tt)))))))))

bounded_example :
    let w = run history (start 2) in
    (length w.buffer ≤ 2)
    × ((w.draining ≡ true) ⊎ (w.buffer ≡ []))
    × (w.stats.published ≡ length w.past + length w.buffer)
bounded_example = bounded 2 history

-- Two consumers, and an edit that waits for the drain.
abbrev busy : MessageQueue ℕ ℕ
busy = record {
  capacity = 4;
  buffer = record { event = edited 7; sequence = 1; published_at = 0 } ∷ [];
  sequences = (7, 1) ∷ [];
  consumers = 3 ∷ 5 ∷ [];
  draining = true;
  stats = record { published = 1; delivered = 0; dropped = 0 };
}

immediate-received_example :
    (received 5 (immediate busy).1 ≡ busy.buffer)
    × ((immediate busy).0 ≡ drained (record busy { draining = false }) busy.buffer)
immediate-received_example = immediate-received busy 5 (refl, (refl, tt)) refl

-- Two sessions of one document; the first also opens another and then disconnects, while the queue
-- has room for four events.
abbrev visits : List (Presence.Call ℕ ℕ)
visits =
    joins_call 0 1 100 9 7
    ∷ joins_call 1 2 200 9 7
    ∷ joins_call 2 1 100 9 8
    ∷ leaves_call 3 1 none
    ∷ []

tables_agree_example :
    let m = Presence.run visits (Sessions.create true (create 4)) in
    mem 8 (docs_of 1 m.sessions) ≡ mem 1 (members_of 8 m.by_document)
tables_agree_example = tables_agree true (create 4) visits 1 8

presence_complete_example :
    let m = Presence.run visits (Sessions.create true (create 4)) in
    map (λ (p : Participant ℕ). p.session_id) (get_participants 7 m) ≡ members_of 7 m.by_document
presence_complete_example = presence_complete true (create 4) visits 7
