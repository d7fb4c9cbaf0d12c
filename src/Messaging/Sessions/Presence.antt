-- ===== src/Messaging/Sessions/Presence.antt =====
-- Runs of src/engine/messaging/CollaborationManager.js, and its presence list.
use collab_write.Prelude.{
  ℕ, ◌≡◌, refl, ap, ◌∙◌, inl, inr, Bool, true, Option, Option-cases, some, List, [], ◌∷◌, ◌++◌,
  eqb_iff, mem, map, arith, if_intro, nat_key,
}
use collab_write.Prelude.Map
use collab_write.Prelude.Map.{Map}
use collab_write.Messaging.Queue.{Envelope, MessageQueue}
use collab_write.Messaging.Sessions.{
  Session, Payload, Participant, Manager, get_participants, participant, participants, members_of,
  docs, docs_of, or_empty, create, join, leave, handle_event, close, set_transport,
}
use collab_write.Messaging.Sessions.Links.{IsNamed, IsLinked, join-IsLinked, leave-IsLinked}

-- The calls of the manager, at a time, and a change of the queue that others make.
pub data Call (U E : Type 0) : Type 0 where
  joins_call : ℕ → ℕ → ℕ → U → ℕ → Call U E
  leaves_call : ℕ → ℕ → Option ℕ → Call U E
  handles : Envelope ℕ (Payload U E) → Call U E
  attaches : Bool → Call U E
  closes : Call U E
  queue_changes : MessageQueue ℕ (Payload U E) → Call U E

registered_mem :
    {U : Type 0} (s d : ℕ) (m : Map ℕ (Session U))
    → mem d (docs_of s m) ≡ true
    → (x : Session U) × (Map.get s m ≡ some x)
unfolding docs_of docs
registered_mem s d m h = elim (Option-cases (Map.get s m)) [
  | inl e ↦ ground (arith, h, e)
  | inr r ↦ r
]

participants-ids :
    {U : Type 0} (ss : List ℕ) (m : Map ℕ (Session U))
    → IsNamed m
    → ((s : ℕ) → mem s ss ≡ true → (x : Session U) × (Map.get s m ≡ some x))
    → map (λ (p : Participant U). p.session_id) (participants ss m) ≡ ss
unfolding participants participant
participants-ids [] m named all = refl
participants-ids {U} (s ∷ ss) m named all =
    let (x, e) = all s (ground (arith, eqb_iff s s)) in
    ap (λ o. map (λ (p : Participant U). p.session_id) (participant o ++ participants ss m)) e
    ∙ ap (λ i. i ∷ map (λ (p : Participant U). p.session_id) (participants ss m)) (named s x e)
    ∙ ap (◌∷◌ s) (participants-ids ss m named (λ t h. all t (ground (arith, h))))

module _ {U E : Type 0} where
  unfoldable pub step : Call U E → Manager U E → Manager U E
  step (joins_call now s user name d) m = (join now s user name d m).0
  step (leaves_call now s target) m = (leave now s target m).0
  step (handles x) m = (handle_event x m).0
  step (attaches t) m = set_transport t m
  step closes m = close m
  step (queue_changes q) m = record m { message_queue = q }

  unfoldable pub run : List (Call U E) → Manager U E → Manager U E
  run [] m = m
  run (c ∷ cs) m = run cs (step c m)

  -- The tables alone decide.
  copy-IsLinked :
      (m m' : Manager U E)
      → IsLinked m
      → m'.sessions ≡ m.sessions
      → m'.by_document ≡ m.by_document
      → IsLinked m'
  copy-IsLinked m m' h e f = record {
    linked = rw (e, f) h.linked;
    named = rw e h.named;
    sessions_Distinct = rw e h.sessions_Distinct;
    documents_Distinct = rw f h.documents_Distinct;
  }

  step-IsLinked : (c : Call U E) (m : Manager U E) → IsLinked m → IsLinked (step c m)
  unfolding step handle_event set_transport close docs_of docs members_of or_empty Map.get
  step-IsLinked (joins_call now s user name d) m h = join-IsLinked now s user name d m h
  step-IsLinked (leaves_call now s target) m h = leave-IsLinked now s target m h
  step-IsLinked (handles x) m h =
      if_intro (λ (r : Manager U E × Option (Envelope ℕ (Payload U E))). IsLinked r.0) m.transport _
        _ (λ _. copy-IsLinked m _ h refl refl) (λ _. copy-IsLinked m _ h refl refl)
  step-IsLinked (attaches t) m h = copy-IsLinked m _ h refl refl
  step-IsLinked closes m h = record {
    linked = λ s d. refl;
    named = λ s x e. ground (arith, e);
    sessions_Distinct = tt;
    documents_Distinct = tt;
  }
  step-IsLinked (queue_changes q) m h = copy-IsLinked m _ h refl refl

  run-IsLinked : (cs : List (Call U E)) (m : Manager U E) → IsLinked m → IsLinked (run cs m)
  unfolding run
  run-IsLinked [] m h = h
  run-IsLinked (c ∷ cs) m h = run-IsLinked cs (step c m) (step-IsLinked c m h)

  fresh-IsLinked :
      (transport : Bool) (queue : MessageQueue ℕ (Payload U E)) → IsLinked (create transport queue)
  unfolding create docs_of docs members_of or_empty Map.get
  fresh-IsLinked transport queue = record {
    linked = λ s d. refl;
    named = λ s x e. ground (arith, e);
    sessions_Distinct = tt;
    documents_Distinct = tt;
  }

  -- After any calls on a new collaboration manager, and whatever the queue does, a session is in
  -- the set of a document exactly when the document is in the set of the session, also when a
  -- publication throws.
  pub tables_agree :
      (transport : Bool) (queue : MessageQueue ℕ (Payload U E)) (cs : List (Call U E)) (s d : ℕ)
      → let m = run cs (create transport queue) in
        mem d (docs_of s m.sessions) ≡ mem s (members_of d m.by_document)
  tables_agree transport queue cs = (run-IsLinked cs _ (fresh-IsLinked transport queue)).linked

  -- After any calls on a new collaboration manager the presence list of a document names exactly
  -- the sessions in the set of the document, in their order: none is missing from the table of
  -- sessions.
  pub presence_complete :
      (transport : Bool) (queue : MessageQueue ℕ (Payload U E)) (cs : List (Call U E)) (d : ℕ)
      → let m = run cs (create transport queue) in
        map (λ (p : Participant U). p.session_id) (get_participants d m)
        ≡ members_of d m.by_document
  unfolding get_participants
  presence_complete transport queue cs d =
      let m = run cs (create transport queue) in
      let h = run-IsLinked cs _ (fresh-IsLinked transport queue) in
      participants-ids (members_of d m.by_document) m.sessions h.named
        (λ s e. registered_mem s d m.sessions (h.linked s d ∙ e))
