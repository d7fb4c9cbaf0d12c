-- ===== src/Messaging/Queue/Order.antt =====
-- The order in which a consumer of src/engine/messaging/MessageQueue.js is handed the events of a
-- document.
use collab_write.Prelude.{
  ℕ, ◌+◌, ◌≡◌, refl, ap, sym, subst, ◌∙◌, inl, inr, false, Bool-cases, List, [], ◌∷◌, ◌++◌, map,
  append-nil, filter-append, filter, arith, Key, eqb, eqb_iff, All,
}
use collab_write.Messaging.Queue.{
  Envelope, MessageQueue, create, subscribe, unsubscribe, schedule_drain, shift, consume, deliver,
  drain_loop, remove_first, drain, immediate, reset, last_sequence, accept, publish,
}
use collab_write.Messaging.Queue.Run.{
  Call, publishes, consumes, drains, resets, subscribes, unsubscribes, World, remembered, drained,
  drain_loop-drained, count_up, step, numbers,
}
use collab_write.Messaging.Queue.Delivery.{received, received-append}
use collab_write.Messaging.Queue.Numbers.{IsOrdered, empty-IsOrdered, step-IsOrdered}

-- The consumer is subscribed once.
abbrev Subscribed : ℕ → List ℕ → Type 0
Subscribed c cs = filter (λ b. eqb b c) cs ≡ c ∷ []

filter-remove_first :
    (b c : ℕ) (cs : List ℕ)
    → eqb b c ≡ false
    → filter (λ x. eqb x c) (remove_first b cs) ≡ filter (λ x. eqb x c) cs
unfolding remove_first
filter-remove_first b c [] h = refl
filter-remove_first b c (x ∷ cs) h = elim (Bool-cases (eqb x b)) [
  | inl e ↦
      let other : eqb x c ≡ false = ap (λ y. eqb y c) ((eqb_iff x b).0 e) ∙ h in
      ground (arith, e, other)
  | inr e ↦ elim (Bool-cases (eqb x c)) [
    | inl f ↦ ground (arith, e, f, filter-remove_first b c cs h)
    | inr f ↦ ground (arith, e, f, filter-remove_first b c cs h)
  ]
]

module _ {D P : Type 0} ⦃key : Key D⦄ where
  -- The calls that leave the subscriptions of consumer `c` as they are.
  unfoldable pub Spares : ℕ → Call D P → Type 0
  Spares c (subscribes b) = eqb b c ≡ false
  Spares c (unsubscribes b) = eqb b c ≡ false
  Spares c _ = Unit

  -- A call, where `past` has what the consumer is handed by a drain, and what `consume` returns.
  unfoldable pub hear : ℕ → Call D P → World D P → World D P
  hear c drains w =
      let (queue, out) = immediate w.queue in
      record { queue = queue; past = w.past ++ received c out }
  hear c call w = step call w

  unfoldable pub heard : ℕ → List (Call D P) → World D P → World D P
  heard c [] w = w
  heard c (call ∷ calls) w = heard c calls (hear c call w)

  -- A new queue with one consumer.
  unfoldable pub joined : ℕ → ℕ → World D P
  joined c capacity = record { queue = subscribe c (create capacity); past = [] }

  received-deliver_once :
      (c : ℕ) (x : Envelope D P) (cs : List ℕ)
      → received c (deliver x cs) ≡ map (λ b. x) (filter (λ b. eqb b c) cs)
  unfolding received deliver
  received-deliver_once c x [] = refl
  received-deliver_once c x (b ∷ cs) = elim (Bool-cases (eqb b c)) [
    | inl e ↦ ground (arith, e, received-deliver_once c x cs)
    | inr e ↦ ground (arith, e, received-deliver_once c x cs)
  ]

  drain_loop-received :
      (c : ℕ) (xs : List (Envelope D P)) (q : MessageQueue D P)
      → Subscribed c q.consumers
      → received c (drain_loop xs q).1 ≡ xs
  unfolding drain_loop received
  drain_loop-received c [] q h = refl
  drain_loop-received c (x ∷ xs) q h =
      let q' : MessageQueue D P = record q {
        stats = record q.stats { delivered = q.stats.delivered + 1 };
      } in
      received-append c (deliver x q.consumers) (drain_loop xs q').1
      ∙ ap (λ (l : List (Envelope D P)). l ++ received c (drain_loop xs q').1)
          (received-deliver_once c x q.consumers ∙ ap (map (λ b. x)) h)
      ∙ ap (◌∷◌ x) (drain_loop-received c xs q' h)

  hear-step :
      (c : ℕ) (call : Call D P) (w : World D P)
      → Subscribed c w.queue.consumers
      → hear c call w ≡ step call w
  unfolding hear step immediate drain
  hear-step c drains w h =
      ap (λ (l : List (Envelope D P)). record { queue = (immediate w.queue).0; past = w.past ++ l })
        (drain_loop-received c w.buffer (record w.queue { draining = false }) h)
  hear-step c (publishes now event) w h = refl
  hear-step c consumes w h = refl
  hear-step c resets w h = refl
  hear-step c (subscribes b) w h = refl
  hear-step c (unsubscribes b) w h = refl

  shift-consumers :
      (b past : List (Envelope D P)) (q : MessageQueue D P)
      → (remembered (shift b q) past).queue.consumers ≡ q.consumers
  unfolding shift remembered
  shift-consumers [] past q = refl
  shift-consumers (x ∷ rest) past q = refl

  step-Subscribed :
      (c : ℕ) (call : Call D P) (w : World D P)
      → Spares c call
      → Subscribed c w.queue.consumers
      → Subscribed c (step call w).queue.consumers
  unfolding step Spares publish consume immediate drain drained reset subscribe unsubscribe accept
      schedule_drain
  step-Subscribed c (publishes now event) w s h = ground (arith, h)
  step-Subscribed c consumes w s h =
      subst (Subscribed c) (sym (shift-consumers w.buffer w.past w.queue)) h
  step-Subscribed c drains w s h =
      subst (λ (q : MessageQueue D P). Subscribed c q.consumers)
        (sym (drain_loop-drained w.buffer (record w.queue { draining = false }))) h
  step-Subscribed c resets w s h = h
  step-Subscribed c (subscribes b) w s h =
      filter-append _ w.queue.consumers (b ∷ []) ∙ ground (arith, s, h, append-nil (c ∷ []))
  step-Subscribed c (unsubscribes b) w s h = filter-remove_first b c w.queue.consumers s ∙ h

  heard-IsOrdered :
      (c : ℕ) (calls : List (Call D P)) (w : World D P)
      → All (Spares c) calls
      → Subscribed c w.queue.consumers
      → IsOrdered w
      → IsOrdered (heard c calls w)
  unfolding heard
  heard-IsOrdered c [] w s h ordered = ordered
  heard-IsOrdered c (call ∷ calls) w (s, ss) h ordered =
      subst (λ v. IsOrdered (heard c calls v)) (sym (hear-step c call w h))
        (heard-IsOrdered c calls (step call w) ss (step-Subscribed c call w s h)
          (step-IsOrdered call w ordered))

  -- On a new message queue with one consumer, after any calls that neither subscribe it again nor
  -- unsubscribe it, the envelopes of a document that it was handed since the last reset, or that
  -- consume returned, in the order in which they came, and behind them those in the buffer, are
  -- numbered 1, 2, … up to the last number issued: publication order is delivery order, without a
  -- gap or a repetition, whatever other consumers come and go.
  pub fifo :
      (capacity c : ℕ) (calls : List (Call D P)) (d : D)
      → All (Spares c) calls
      → let w : World D P = heard c calls (joined c capacity) in
        numbers d (w.past ++ w.buffer) ≡ count_up (last_sequence d w.sequences)
  unfolding IsOrdered joined subscribe create
  fifo capacity c calls d s =
      heard-IsOrdered c calls (joined c capacity) s (ground (arith, eqb_iff c c))
        (empty-IsOrdered (joined c capacity) refl refl) d
