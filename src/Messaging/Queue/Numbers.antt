-- ===== src/Messaging/Queue/Numbers.antt =====
-- The numbers that src/engine/messaging/MessageQueue.js gives to the envelopes of a document.
use collab_write.Prelude.{
  ℕ, suc, ◌+◌, ◌≡◌, refl, ap, sym, subst, ◌∙◌, inl, inr, Bool, true, false, Bool-cases, Option,
  List, [], ◌∷◌, ◌++◌, map, append-nil, append_assoc, if◌then◌else◌, leb, if_intro, length,
  filter-append, arith, Key, ◌===◌,
}
use collab_write.Prelude.Map
use collab_write.Prelude.Map.{Map, get-set}
use collab_write.Messaging.Queue.{
  Event, Envelope, MessageQueue, subscribe, unsubscribe, schedule_drain, shift, consume, drain,
  immediate, reset, or_zero, last_sequence, accept, publish,
}
use collab_write.Messaging.Queue.Run.{
  Call, publishes, consumes, drains, resets, subscribes, unsubscribes, World, remembered, drained,
  drain_loop-drained, count_up, step, numbers,
}
use mathlib.Core.List.{map-append}

last_sequence-set :
    {D : Type 0} ⦃key : Key D⦄ (d k : D) (n : ℕ) (m : Map D ℕ)
    → last_sequence d (Map.set k n m) ≡ (if k === d then n else last_sequence d m)
unfolding last_sequence or_zero
last_sequence-set d k n m = ground (arith, get-set k d n m)

schedule_drain-buffer :
    {D P : Type 0} (q : MessageQueue D P)
    → ((schedule_drain q).buffer ≡ q.buffer) × ((schedule_drain q).sequences ≡ q.sequences)
unfolding schedule_drain
schedule_drain-buffer q = ground arith

count_up-succ : (n : ℕ) → count_up (n + 1) ≡ count_up n ++ (n + 1) ∷ []
unfolding count_up
count_up-succ n = let e : n + 1 ≡ suc n = omega arith in ap count_up e

count_up-last :
    {D : Type 0} ⦃key : Key D⦄ (d k : D) (b : Bool) (m : Map D ℕ)
    → (k === d) ≡ b
    → count_up (last_sequence d m) ++ (if b then (last_sequence k m + 1) ∷ [] else [])
      ≡ count_up (if b then last_sequence k m + 1 else last_sequence d m)
count_up-last ⦃key⦄ d k true m e =
    ap (λ j. count_up (last_sequence j m) ++ (last_sequence k m + 1) ∷ [])
      (sym ((key.same_iff k d).0 e))
    ∙ sym (count_up-succ (last_sequence k m))
count_up-last d k false m e = append-nil _

module _ {D P : Type 0} ⦃key : Key D⦄ where
  -- The envelopes that left the buffer and those still in it carry, for each document, the numbers
  -- 1 to the last one issued, in this order.
  unfoldable pub IsOrdered : World D P → Type 0
  IsOrdered w = (d : D) → numbers d (w.past ++ w.buffer) ≡ count_up (last_sequence d w.sequences)

  numbers-append :
      (d : D) (xs ys : List (Envelope D P)) → numbers d (xs ++ ys) ≡ numbers d xs ++ numbers d ys
  unfolding numbers
  numbers-append d xs ys =
      ap (map (λ (x : Envelope D P). x.sequence)) (filter-append _ xs ys) ∙ map-append _ _ _

  numbers_one :
      (d : D) (x : Envelope D P)
      → numbers d (x ∷ []) ≡ (if x.doc_id === d then x.sequence ∷ [] else [])
  unfolding numbers
  numbers_one d x = elim (Bool-cases (x.doc_id === d)) [
    | inl e ↦ ground arith
    | inr e ↦ ground arith
  ]

  -- The next number of a document counts on, and the other documents' numbers stay.
  numbers-last :
      (d : D) (m : Map D ℕ) (x : Envelope D P)
      → x.sequence ≡ last_sequence x.doc_id m + 1
      → count_up (last_sequence d m) ++ numbers d (x ∷ [])
        ≡ count_up (last_sequence d (Map.set x.doc_id (last_sequence x.doc_id m + 1) m))
  numbers-last d m x e =
      ap (λ (l : List ℕ). count_up (last_sequence d m) ++ l) (numbers_one d x)
      ∙ ap (λ (n : ℕ). count_up (last_sequence d m) ++ (if x.doc_id === d then n ∷ [] else [])) e
      ∙ count_up-last d x.doc_id (x.doc_id === d) m refl
      ∙ ap count_up (sym (last_sequence-set d x.doc_id (last_sequence x.doc_id m + 1) m))

  accept-IsOrdered :
      (now : ℕ) (event : Event D P) (w : World D P)
      → IsOrdered w
      → IsOrdered (record w { queue = accept now event w.queue })
  unfolding IsOrdered accept
  accept-IsOrdered now event w ordered d =
      let n = last_sequence event.doc_id w.sequences + 1 in
      let x : Envelope D P = record { event = event; sequence = n; published_at = now } in
      ap (λ (b : List (Envelope D P)). numbers d (w.past ++ b)) (schedule_drain-buffer _).0
      ∙ ap (numbers d) (sym (append_assoc w.past w.buffer (x ∷ [])))
      ∙ numbers-append d (w.past ++ w.buffer) (x ∷ [])
      ∙ ap (λ (m : List ℕ). m ++ numbers d (x ∷ [])) (ordered d)
      ∙ numbers-last d w.sequences x refl
      ∙ ap (λ (m : Map D ℕ). count_up (last_sequence d m)) (sym (schedule_drain-buffer _).1)

  pub empty-IsOrdered : (w : World D P) → w.past ++ w.buffer ≡ [] → w.sequences ≡ [] → IsOrdered w
  unfolding IsOrdered last_sequence or_zero numbers count_up Map.get
  empty-IsOrdered w e s d =
      ap (numbers d) e ∙ sym (ap (λ (m : Map D ℕ). count_up (last_sequence d m)) s)

  shift-IsOrdered :
      (b : List (Envelope D P)) (w : World D P)
      → w.buffer ≡ b
      → IsOrdered w
      → IsOrdered (remembered (shift b w.queue) w.past)
  unfolding IsOrdered shift remembered
  shift-IsOrdered [] w e ordered d = ordered d
  shift-IsOrdered (x ∷ rest) w e ordered d =
      ap (numbers d) (append_assoc w.past (x ∷ []) rest)
      ∙ sym (ap (λ (b : List (Envelope D P)). numbers d (w.past ++ b)) e)
      ∙ ordered d

  pub step-IsOrdered : (c : Call D P) (w : World D P) → IsOrdered w → IsOrdered (step c w)
  unfolding step IsOrdered publish consume immediate drain drained reset subscribe unsubscribe
  step-IsOrdered (publishes now event) w ordered =
      if_intro (λ (r : MessageQueue D P × Option ℕ). IsOrdered (record w { queue = r.0 })) _ _ _
        (λ (full : leb w.capacity (length w.buffer) ≡ true). ordered)
        (λ (room : leb w.capacity (length w.buffer) ≡ false). accept-IsOrdered now event w ordered)
  step-IsOrdered consumes w ordered = shift-IsOrdered w.buffer w refl ordered
  step-IsOrdered drains w ordered =
      subst (λ (q : MessageQueue D P). IsOrdered (record { queue = q; past = w.past ++ w.buffer }))
        (sym (drain_loop-drained w.buffer (record w.queue { draining = false })))
        (λ (d : D). ap (numbers d) (append-nil _) ∙ ordered d)
  step-IsOrdered resets w ordered =
      empty-IsOrdered (record { queue = reset w.queue; past = [] }) refl refl
  step-IsOrdered (subscribes c) w ordered = ordered
  step-IsOrdered (unsubscribes c) w ordered = ordered
