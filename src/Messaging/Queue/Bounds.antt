-- ===== src/Messaging/Queue/Bounds.antt =====
-- The bound of src/engine/messaging/MessageQueue.js, its counters, and that a drain is always due.
use collab_write.Prelude.{
  ℕ, suc, ◌+◌, ◌≤◌, ◌<◌, ◌≡◌, refl, ap, sym, subst, ◌⊎◌, inl, inr, true, false, Option, List, [],
  ◌∷◌, ◌++◌, leb, if_intro, le→leb, length, length-append, arith, Key,
}
use collab_write.Messaging.Queue.{
  Event, Envelope, MessageQueue, create, subscribe, unsubscribe, schedule_drain, shift, consume,
  drain, immediate, reset, last_sequence, accept, publish,
}
use collab_write.Messaging.Queue.Run.{
  Call, publishes, consumes, drains, resets, subscribes, unsubscribes, World, remembered, drained,
  drain_loop-drained, start, step, run,
}

-- The buffer is within the capacity, a drain is due whenever it holds an envelope, and every
-- envelope published is in it or has left it.
pub record IsBounded {D P : Type 0} (n : ℕ) (w : World D P) : Type 0 where
  pub fixed : w.capacity ≡ n
  pub within : length w.buffer ≤ n
  pub due : (w.draining ≡ true) ⊎ (w.buffer ≡ [])
  pub accounted : w.stats.published ≡ length w.past + length w.buffer

module _ {D P : Type 0} {n : ℕ} ⦃key : Key D⦄ where
  accept-IsBounded :
      (now : ℕ) (event : Event D P) (w : World D P)
      → IsBounded n w
      → length w.buffer < n
      → IsBounded n (record w { queue = accept now event w.queue })
  unfolding accept schedule_drain
  accept-IsBounded now event w h room =
      let sequence = last_sequence event.doc_id w.sequences + 1 in
      let l =
        length-append w.buffer
          (record { event = event; sequence = sequence; published_at = now } ∷ []) in
      if_intro (λ (q : MessageQueue D P). IsBounded n (record { queue = q; past = w.past }))
        w.draining _ _
        (λ (t : w.draining ≡ true). record {
          fixed = h.fixed;
          within = ground (arith, l, room);
          due = inl t;
          accounted = ground (arith, l, h.accounted);
        })
        (λ (t : w.draining ≡ false). record {
          fixed = h.fixed;
          within = ground (arith, l, room);
          due = inl refl;
          accounted = ground (arith, l, h.accounted);
        })

  publish-IsBounded :
      (now : ℕ) (event : Event D P) (w : World D P)
      → IsBounded n w
      → IsBounded n (record w { queue = (publish now event w.queue).0 })
  unfolding publish accept schedule_drain
  publish-IsBounded now event w h =
      if_intro
        (λ (r : MessageQueue D P × Option ℕ). IsBounded n (record { queue = r.0; past = w.past })) _
        _ _
        (λ (full : leb w.capacity (length w.buffer) ≡ true). record {
          fixed = h.fixed;
          within = h.within;
          due = h.due;
          accounted = h.accounted;
        })
        (λ (room : leb w.capacity (length w.buffer) ≡ false).
          accept-IsBounded now event w h
            (ground (arith, room, h.fixed, le→leb w.capacity (length w.buffer))))

  shift-IsBounded :
      (b : List (Envelope D P)) (w : World D P)
      → w.buffer ≡ b
      → IsBounded n w
      → IsBounded n (remembered (shift b w.queue) w.past)
  unfolding shift remembered
  shift-IsBounded [] w e h = h
  shift-IsBounded (x ∷ rest) w e h =
      let le : length w.buffer ≡ suc (length rest) = ap length e in
      record {
        fixed = h.fixed;
        within = ground (arith, h.within);
        due = elim h.due [ inl t ↦ inl t | inr n ↦ ground (arith, le, ap length n) ];
        accounted = ground (arith, h.accounted, length-append w.past (x ∷ []));
      }

  step-IsBounded : (c : Call D P) (w : World D P) → IsBounded n w → IsBounded n (step c w)
  unfolding step consume immediate drain drained reset subscribe unsubscribe
  step-IsBounded (publishes now event) w h = publish-IsBounded now event w h
  step-IsBounded consumes w h = shift-IsBounded w.buffer w refl h
  step-IsBounded drains w h =
      subst
        (λ (q : MessageQueue D P). IsBounded n (record { queue = q; past = w.past ++ w.buffer }))
        (sym (drain_loop-drained w.buffer (record w.queue { draining = false })))
        (record {
          fixed = h.fixed;
          within = ground arith;
          due = inr refl;
          accounted = ground (arith, h.accounted, length-append w.past w.buffer);
        })
  step-IsBounded resets w h = record {
    fixed = h.fixed;
    within = ground arith;
    due = inr refl;
    accounted = refl;
  }
  step-IsBounded (subscribes c) w h = record {
    fixed = h.fixed;
    within = h.within;
    due = h.due;
    accounted = h.accounted;
  }
  step-IsBounded (unsubscribes c) w h = record {
    fixed = h.fixed;
    within = h.within;
    due = h.due;
    accounted = h.accounted;
  }

  run-IsBounded : (cs : List (Call D P)) (w : World D P) → IsBounded n w → IsBounded n (run cs w)
  unfolding run
  run-IsBounded [] w h = h
  run-IsBounded (c ∷ cs) w h = run-IsBounded cs (step c w) (step-IsBounded c w h)

-- After any calls on a new message queue the buffer is within the capacity, a drain is due
-- whenever the buffer holds an envelope, and each envelope published since the last reset left
-- the buffer or is in it.
pub bounded :
    {D P : Type 0} ⦃key : Key D⦄ (capacity : ℕ) (cs : List (Call D P))
    → let w = run cs (start capacity) in
      (length w.buffer ≤ capacity)
      × ((w.draining ≡ true) ⊎ (w.buffer ≡ []))
      × (w.stats.published ≡ length w.past + length w.buffer)
unfolding start create
bounded capacity cs =
    let h =
      run-IsBounded cs (start capacity)
        (record { fixed = refl; within = ground arith; due = inr refl; accounted = refl }) in
    (h.within, h.due, h.accounted)
