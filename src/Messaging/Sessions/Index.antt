-- ===== src/Messaging/Sessions/Index.antt =====
-- Lookups in the two tables of src/engine/messaging/CollaborationManager.js after they are changed.
use collab_write.Prelude.{
  ℕ, ◌≡◌, refl, ap, sym, ◌∙◌, inl, inr, Bool-cases, Option, none, some, List, [], ◌∷◌,
  if◌then◌else◌, eqb, eqb_iff, without, arith, nat_key,
}
use collab_write.Prelude.Map
use collab_write.Prelude.Map.{
  Map, get-set, get-delete_ne, get-delete_self, Distinct, set-Distinct, delete-Distinct,
}
use collab_write.Messaging.Sessions.{
  Session, or_empty, members_of, docs, docs_of, put_members, drop_member,
}

get-delete_if :
    {V : Type 0} (j k : ℕ) (m : Map ℕ V)
    → Distinct m
    → Map.get j (Map.delete k m) ≡ (if eqb k j then none else Map.get j m)
get-delete_if j k m h = elim (Bool-cases (eqb k j)) [
  | inl e ↦
      ap (λ (i : ℕ). Map.get i (Map.delete k m)) (sym ((eqb_iff k j).0 e))
      ∙ get-delete_self k m h
      ∙ ground (arith, e)
  | inr e ↦ get-delete_ne k j m e ∙ ground (arith, e)
]

pub members_of-set :
    (j k : ℕ) (v : List ℕ) (m : Map ℕ (List ℕ))
    → members_of j (Map.set k v m) ≡ (if eqb k j then v else members_of j m)
unfolding members_of or_empty
members_of-set j k v m = ground (arith, get-set k j v m)

pub members_of-delete :
    (j k : ℕ) (m : Map ℕ (List ℕ))
    → Distinct m
    → members_of j (Map.delete k m) ≡ (if eqb k j then [] else members_of j m)
unfolding members_of or_empty
members_of-delete j k m h = ground (arith, get-delete_if j k m h)

put_members-Distinct :
    (d : ℕ) (v : List ℕ) (m : Map ℕ (List ℕ)) → Distinct m → Distinct (put_members d v m)
unfolding put_members
put_members-Distinct d [] m h = delete-Distinct d m h
put_members-Distinct d (x ∷ xs) m h = set-Distinct d (x ∷ xs) m h

members_of-put_members :
    (j d : ℕ) (v : List ℕ) (m : Map ℕ (List ℕ))
    → Distinct m
    → members_of j (put_members d v m) ≡ (if eqb d j then v else members_of j m)
unfolding put_members
members_of-put_members j d [] m h = members_of-delete j d m h
members_of-put_members j d (x ∷ xs) m h = members_of-set j d (x ∷ xs) m

drop_found :
    (j s d : ℕ) (o : Option (List ℕ)) (m : Map ℕ (List ℕ))
    → Distinct m
    → Map.get d m ≡ o
    → members_of j (drop_member s d o m)
      ≡ (if eqb d j then without s (members_of d m) else members_of j m)
unfolding drop_member members_of or_empty
drop_found j s d none m h e =
    ground (arith, e, λ (q : d ≡ j). ap (λ i. or_empty (Map.get i m)) q, eqb_iff d j)
drop_found j s d (some v) m h e = members_of-put_members j d (without s v) m h ∙ ground (arith, e)

pub members_of-drop_member :
    (j s d : ℕ) (m : Map ℕ (List ℕ))
    → Distinct m
    → members_of j (drop_member s d (Map.get d m) m)
      ≡ (if eqb d j then without s (members_of d m) else members_of j m)
members_of-drop_member j s d m h = drop_found j s d (Map.get d m) m h refl

pub drop_member-Distinct :
    (s d : ℕ) (o : Option (List ℕ)) (m : Map ℕ (List ℕ))
    → Distinct m
    → Distinct (drop_member s d o m)
unfolding drop_member
drop_member-Distinct s d none m h = h
drop_member-Distinct s d (some v) m h = put_members-Distinct d (without s v) m h

pub docs_of-set :
    {U : Type 0} (j k : ℕ) (v : Session U) (m : Map ℕ (Session U))
    → docs_of j (Map.set k v m) ≡ (if eqb k j then v.doc_ids else docs_of j m)
unfolding docs_of docs
docs_of-set j k v m = ground (arith, get-set k j v m)

pub docs_of-delete :
    {U : Type 0} (j k : ℕ) (m : Map ℕ (Session U))
    → Distinct m
    → docs_of k m ≡ []
    → docs_of j (Map.delete k m) ≡ docs_of j m
unfolding docs_of docs
docs_of-delete j k m h e = elim (Bool-cases (eqb k j)) [
  | inl t ↦
      ground (arith, t, e, get-delete_if j k m h, ap (λ i. docs (Map.get i m)) ((eqb_iff k j).0 t))
  | inr t ↦ ground (arith, t, get-delete_if j k m h)
]
