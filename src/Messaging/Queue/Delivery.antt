-- ===== src/Messaging/Queue/Delivery.antt =====
-- What a drain of src/engine/messaging/MessageQueue.js hands to its consumers.
use collab_write.Prelude.{
  ℕ, ◌+◌, inl, inr, ◌≡◌, refl, ap, ◌∙◌, true, false, Bool-cases, List, [], ◌∷◌, ◌++◌, map, eqb, mem,
  Nodup, filter, filter-append, arith,
}
use collab_write.Messaging.Queue.{Envelope, MessageQueue, deliver, drain_loop, drain, immediate}
use collab_write.Messaging.Queue.Run.{drained, drain_loop-drained}
use mathlib.Core.List.{map-append}

module _ {D P : Type 0} where
  -- What consumer `c` is handed, in order.
  unfoldable pub received : ℕ → List (ℕ × Envelope D P) → List (Envelope D P)
  received c out =
      map (λ (p : ℕ × Envelope D P). p.1) (filter (λ (p : ℕ × Envelope D P). eqb p.0 c) out)

  pub received-append :
      (c : ℕ) (xs ys : List (ℕ × Envelope D P))
      → received c (xs ++ ys) ≡ received c xs ++ received c ys
  unfolding received
  received-append c xs ys =
      ap (map (λ (p : ℕ × Envelope D P). p.1)) (filter-append _ xs ys) ∙ map-append _ _ _

  received-deliver_absent :
      (c : ℕ) (x : Envelope D P) (cs : List ℕ) → mem c cs ≡ false → received c (deliver x cs) ≡ []
  unfolding received deliver
  received-deliver_absent c x [] h = refl
  received-deliver_absent c x (b ∷ cs) h = ground (arith, received-deliver_absent c x cs)

  -- One event reaches a consumer once.
  received-deliver :
      (c : ℕ) (x : Envelope D P) (cs : List ℕ)
      → Nodup cs
      → mem c cs ≡ true
      → received c (deliver x cs) ≡ x ∷ []
  unfolding received deliver
  received-deliver c x [] nodup h = ground (arith, h)
  received-deliver c x (b ∷ cs) nodup h = elim (Bool-cases (eqb b c)) [
    | inl e ↦ ground (arith, e, nodup, received-deliver_absent c x cs)
    | inr e ↦ ground (arith, e, nodup, h, received-deliver c x cs)
  ]

  received-drain_loop :
      (c : ℕ) (xs : List (Envelope D P)) (q : MessageQueue D P)
      → Nodup q.consumers
      → mem c q.consumers ≡ true
      → received c (drain_loop xs q).1 ≡ xs
  unfolding drain_loop received
  received-drain_loop c [] q nodup h = refl
  received-drain_loop c (x ∷ xs) q nodup h =
      let q' : MessageQueue D P = record q {
        stats = record q.stats { delivered = q.stats.delivered + 1 };
      } in
      received-append c (deliver x q.consumers) (drain_loop xs q').1
      ∙ ap (λ (l : List (Envelope D P)). l ++ received c (drain_loop xs q').1)
          (received-deliver c x q.consumers nodup h)
      ∙ ap (◌∷◌ x) (received-drain_loop c xs q' nodup h)

  -- The drain of the scheduled callback hands the buffered events, in order, to a consumer that
  -- is subscribed, when no consumer is subscribed twice; it empties the buffer, counts the
  -- events, and allows the next drain to be scheduled.
  pub immediate-received :
      (q : MessageQueue D P) (c : ℕ)
      → Nodup q.consumers
      → mem c q.consumers ≡ true
      → (received c (immediate q).1 ≡ q.buffer)
        × ((immediate q).0 ≡ drained (record q { draining = false }) q.buffer)
  unfolding immediate drain
  immediate-received q c nodup h =
      let q' : MessageQueue D P = record q { draining = false } in
      (received-drain_loop c q.buffer q' nodup h, drain_loop-drained q.buffer q')
