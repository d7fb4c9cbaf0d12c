-- ===== src/Messaging/Sessions/Links.antt =====
-- The two tables of src/engine/messaging/CollaborationManager.js describe one relation.
use collab_write.Prelude.{
  mem-add, ℕ, ◌≡◌, refl, ap, sym, ◌∙◌, inl, inr, Bool, true, false, not, ◌||◌, ◌&&◌, Option,
  Option-cases, none, some, List, [], ◌∷◌, if◌then◌else◌, eqb, eqb_iff, mem, without, mem-without,
  arith, option_intro, nat_key,
}
use collab_write.Prelude.Map
use collab_write.Prelude.Map.{Map, get-set, get-delete, Distinct, set-Distinct, delete-Distinct}
use collab_write.Messaging.Sessions.{
  Session, Payload, Manager, presence, leaves, get_participants, members_of, docs, docs_of,
  without_document, registered, enter, join, exit, close_session, leave_loop, targets, leave,
  announce,
}
use collab_write.Messaging.Sessions.Index.{
  members_of-set, docs_of-set, docs_of-delete, members_of-drop_member, drop_member-Distinct,
}

-- A session carries the id that it is registered under.
abbrev pub IsNamed : {U : Type 0} → Map ℕ (Session U) → Type 0
IsNamed {U = U} m = (s : ℕ) (x : Session U) → Map.get s m ≡ some x → x.session_id ≡ s

-- A session is in the set of a document exactly when the document is in the set of the session.
pub record IsLinked {U E : Type 0} (m : Manager U E) : Type 0 where
  pub linked : (s d : ℕ) → mem d (docs_of s m.sessions) ≡ mem s (members_of d m.by_document)
  pub named : IsNamed m.sessions
  pub sessions_Distinct : Distinct m.sessions
  pub documents_Distinct : Distinct m.by_document

registered-docs :
    {U : Type 0} (o : Option (Session U)) (s user : ℕ) (name : U)
    → (registered o s user name).doc_ids ≡ docs o
unfolding registered docs
registered-docs none s user name = refl
registered-docs (some x) s user name = refl

set-IsNamed :
    {U : Type 0} (s : ℕ) (x : Session U) (m : Map ℕ (Session U))
    → x.session_id ≡ s
    → IsNamed m
    → IsNamed (Map.set s x m)
set-IsNamed s x m e h s' x' g = ground (arith, get-set s s' x m, g, e, h s' x', eqb_iff s s')

registered-id :
    {U : Type 0} (s user : ℕ) (name : U) (m : Map ℕ (Session U))
    → IsNamed m
    → (registered (Map.get s m) s user name).session_id ≡ s
unfolding registered
registered-id s user name m h = elim (Option-cases (Map.get s m)) [
  | inl e ↦ rw (ap (λ o. (registered o s user name).session_id) e) refl
  | inr (x, e) ↦ ap (λ o. (registered o s user name).session_id) e ∙ h s x e
]

mem_if :
    (y : ℕ) (b : Bool) (xs ys : List ℕ)
    → mem y (if b then xs else ys) ≡ (if b then mem y xs else mem y ys)
mem_if y true xs ys = refl
mem_if y false xs ys = refl

-- Two descriptions of one relation still agree when a pair is added to both, and when it is removed.
module _ (p q : ℕ → ℕ → Bool) (same : (s d : ℕ) → p s d ≡ q s d) (s d s' d' : ℕ) where
  agree_add :
      (if eqb s s' then eqb d d' || p s d' else p s' d')
      ≡ (if eqb d d' then eqb s s' || q s' d else q s' d')
  agree_add = ground (
    arith,
    same s d',
    same s' d,
    same s' d',
    λ (e : s ≡ s'). ap (λ i. p i d') e,
    λ (e : d ≡ d'). ap (q s') e,
    eqb_iff s s',
    eqb_iff d d',
  )

  agree_remove :
      (if eqb s s' then not (eqb d' d) && p s d' else p s' d')
      ≡ (if eqb d d' then not (eqb s' s) && q s' d else q s' d')
  agree_remove = ground (
    arith,
    same s d',
    same s' d,
    same s' d',
    λ (e : s ≡ s'). ap (λ i. p i d') e,
    λ (e : d ≡ d'). ap (q s') e,
    eqb_iff s s',
    eqb_iff d d',
    eqb_iff s' s,
    eqb_iff d' d,
  )

module _ {U E : Type 0} where
  enter-IsLinked :
      (s user : ℕ) (name : U) (d : ℕ) (m : Manager U E)
      → IsLinked m
      → IsLinked (enter s user name d m)
  unfolding enter docs_of
  enter-IsLinked s user name d m h = record {
    linked = λ s' d'.
        ap (mem d') (docs_of-set s' s _ m.sessions)
        ∙ mem_if d' (eqb s s') _ _
        ∙ ap (λ (b : Bool). if eqb s s' then b else mem d' (docs_of s' m.sessions))
            (mem-add d' d (registered (Map.get s m.sessions) s user name).doc_ids
              ∙ ap (λ (l : List ℕ). eqb d d' || mem d' l)
                  (registered-docs (Map.get s m.sessions) s user name))
        ∙ agree_add (λ i j. mem j (docs_of i m.sessions))
            (λ i j. mem i (members_of j m.by_document)) h.linked s d s' d'
        ∙ sym (
            ap (mem s') (members_of-set d' d _ m.by_document)
            ∙ mem_if s' (eqb d d') _ _
            ∙ ap (λ (b : Bool). if eqb d d' then b else mem s' (members_of d' m.by_document))
                (mem-add s' s (members_of d m.by_document)));
    named = set-IsNamed s _ m.sessions (registered-id s user name m.sessions h.named) h.named;
    sessions_Distinct = set-Distinct s _ m.sessions h.sessions_Distinct;
    documents_Distinct = set-Distinct d _ m.by_document h.documents_Distinct;
  }

  exit-IsLinked :
      (s d : ℕ) (x : Session U) (m : Manager U E)
      → docs_of s m.sessions ≡ x.doc_ids
      → x.session_id ≡ s
      → IsLinked m
      → IsLinked (exit s d x m)
  unfolding exit without_document
  exit-IsLinked s d x m e i h = record {
    linked = λ s' d'.
        ap (mem d') (docs_of-set s' s (without_document d x) m.sessions)
        ∙ mem_if d' (eqb s s') _ _
        ∙ ap (λ (b : Bool). if eqb s s' then b else mem d' (docs_of s' m.sessions))
            (mem-without d d' x.doc_ids ∙ ap (λ (l : List ℕ). not (eqb d' d) && mem d' l) (sym e))
        ∙ agree_remove (λ i j. mem j (docs_of i m.sessions))
            (λ i j. mem i (members_of j m.by_document)) h.linked s d s' d'
        ∙ sym (
            ap (mem s') (members_of-drop_member d' s d m.by_document h.documents_Distinct)
            ∙ mem_if s' (eqb d d') _ _
            ∙ ap (λ (b : Bool). if eqb d d' then b else mem s' (members_of d' m.by_document))
                (mem-without s s' (members_of d m.by_document)));
    named = set-IsNamed s (without_document d x) m.sessions i h.named;
    sessions_Distinct = set-Distinct s _ m.sessions h.sessions_Distinct;
    documents_Distinct = drop_member-Distinct s d _ m.by_document h.documents_Distinct;
  }

  announce-IsLinked :
      (now d : ℕ) (payload : Payload U E) (m : Manager U E)
      → IsLinked m
      → IsLinked (announce now d payload m).0
  unfolding announce
  announce-IsLinked now d payload m h = record {
    linked = h.linked;
    named = h.named;
    sessions_Distinct = h.sessions_Distinct;
    documents_Distinct = h.documents_Distinct;
  }

  close_session-IsLinked :
      (s : ℕ) (ds : List ℕ) (m : Manager U E)
      → docs_of s m.sessions ≡ ds
      → IsLinked m
      → IsLinked (close_session s ds m)
  unfolding close_session
  close_session-IsLinked s [] m e h = record {
    linked = λ s' d'.
        ap (mem d') (docs_of-delete s' s m.sessions h.sessions_Distinct e) ∙ h.linked s' d';
    named = λ s' x g. h.named s' x (get-delete s s' m.sessions h.sessions_Distinct g).0;
    sessions_Distinct = delete-Distinct s m.sessions h.sessions_Distinct;
    documents_Distinct = h.documents_Distinct;
  }
  close_session-IsLinked s (d ∷ ds) m e h = h

  leave_loop-IsLinked :
      (now s : ℕ) (ds : List ℕ) (x : Session U) (m : Manager U E)
      → docs_of s m.sessions ≡ x.doc_ids
      → x.session_id ≡ s
      → IsLinked m
      → IsLinked (leave_loop now s ds x m).0
  unfolding leave_loop exit without_document announce
  leave_loop-IsLinked now s [] x m e i h = close_session-IsLinked s x.doc_ids m e h
  leave_loop-IsLinked now s (d ∷ ds) x m e i h =
      let m' = exit s d x m in
      let payload = presence leaves x.user_id x.username (get_participants d m') in
      let r = announce now d payload m' in
      let h' = announce-IsLinked now d payload m' (exit-IsLinked s d x m e i h) in
      let e' : docs_of s m'.sessions ≡ without d x.doc_ids =
        docs_of-set s s (without_document d x) m.sessions ∙ ground (arith, eqb_iff s s) in
      option_intro (λ (r : Manager U E × Bool). IsLinked r.0) r.1 (r.0, false)
        (λ n. leave_loop now s ds (without_document d x) r.0) (λ _. h')
        (λ n _. leave_loop-IsLinked now s ds (without_document d x) r.0 e' i h')

  pub join-IsLinked :
      (now s user : ℕ) (name : U) (d : ℕ) (m : Manager U E)
      → IsLinked m
      → IsLinked (join now s user name d m).0
  unfolding join
  join-IsLinked now s user name d m h =
      announce-IsLinked now d _ (enter s user name d m) (enter-IsLinked s user name d m h)

  pub leave-IsLinked :
      (now s : ℕ) (target : Option ℕ) (m : Manager U E)
      → IsLinked m
      → IsLinked (leave now s target m).0
  unfolding leave docs_of docs
  leave-IsLinked now s target m h =
      option_intro (λ (r : Manager U E × Bool). IsLinked r.0) (Map.get s m.sessions) _ _ (λ _. h)
        (λ x e. leave_loop-IsLinked now s (targets target x) x m (ap docs e) (h.named s x e) h)
