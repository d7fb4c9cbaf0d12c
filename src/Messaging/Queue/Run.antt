-- ===== src/Messaging/Queue/Run.antt =====
-- Runs of the methods of src/engine/messaging/MessageQueue.js, with what left the buffer.
use collab_write.Prelude.{
  ℕ, zero, suc, ◌+◌, ◌≡◌, ap, ◌∙◌, Option, none, some, List, [], ◌∷◌, ◌++◌, map, length, filter,
  arith, Key, ◌===◌,
}
use collab_write.Messaging.Queue.{
  Event, Envelope, MessageQueue, create, subscribe, unsubscribe, consume, drain_loop, immediate,
  reset, publish,
}

pub data Call (D P : Type 0) : Type 0 where
  publishes : ℕ → Event D P → Call D P
  consumes drains resets : Call D P
  subscribes unsubscribes : ℕ → Call D P

-- 1, 2, …, n
unfoldable pub count_up : ℕ → List ℕ
count_up zero = []
count_up (suc n) = count_up n ++ (n + 1) ∷ []

-- The queue with the envelopes that have left its buffer since it was created or reset.
pub record World (D P : Type 0) : Type 0 where
  pub queue : MessageQueue D P
  pub open queue use *
  pub past : List (Envelope D P)

unfoldable pub start : {D P : Type 0} → ℕ → World D P
start capacity = record { queue = create capacity; past = [] }

module _ {D P : Type 0} where
  unfoldable pub remembered :
      MessageQueue D P × Option (Envelope D P) → List (Envelope D P) → World D P
  remembered (q, none) past = record { queue = q; past = past }
  remembered (q, some x) past = record { queue = q; past = past ++ x ∷ [] }

  -- What a run of `drain_loop` leaves.
  unfoldable pub drained : MessageQueue D P → List (Envelope D P) → MessageQueue D P
  drained q xs = record q {
    buffer = [];
    stats = record q.stats { delivered = q.stats.delivered + length xs };
  }

  -- `drain` empties the buffer and counts each event that it held.
  pub drain_loop-drained :
      (xs : List (Envelope D P)) (q : MessageQueue D P) → (drain_loop xs q).0 ≡ drained q xs
  unfolding drain_loop drained
  drain_loop-drained [] q =
      ap (λ (n : ℕ). record q { buffer = []; stats = record q.stats { delivered = n } })
        (omega arith)
  drain_loop-drained (x ∷ xs) q =
      drain_loop-drained xs
        (record q { stats = record q.stats { delivered = q.stats.delivered + 1 } })
      ∙ ap (λ (n : ℕ). record q { buffer = []; stats = record q.stats { delivered = n } })
          (omega arith)

module _ {D P : Type 0} ⦃key : Key D⦄ where
  unfoldable pub step : Call D P → World D P → World D P
  unfolding remembered
  step (publishes now event) w = record w { queue = (publish now event w.queue).0 }
  step consumes w = remembered (consume w.queue) w.past
  step drains w = record { queue = (immediate w.queue).0; past = w.past ++ w.buffer }
  step resets w = record { queue = reset w.queue; past = [] }
  step (subscribes c) w = record w { queue = subscribe c w.queue }
  step (unsubscribes c) w = record w { queue = unsubscribe c w.queue }

  unfoldable pub run : List (Call D P) → World D P → World D P
  run [] w = w
  run (c ∷ cs) w = run cs (step c w)

  -- The numbers of a document's envelopes.
  unfoldable pub numbers : D → List (Envelope D P) → List ℕ
  numbers d xs =
      map (λ (x : Envelope D P). x.sequence) (filter (λ (x : Envelope D P). x.doc_id === d) xs)
