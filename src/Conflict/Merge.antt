-- ===== src/Conflict/Merge.antt =====
-- What the merge of ConflictResolver.js promises.
use collab_write.Prelude.{
  ℕ, ◌+◌, ◌-◌, ◌≤◌, ◌≡◌, refl, ap, sym, ◌∙◌, false, none, some, List, [], min, arith, length, leb,
  if◌then◌else◌, ◌⊎◌, ◌≢◌, inl, inr, Bool-cases, le→leb,
}
use collab_write.Prelude.Int.{pos_part}
use collab_write.Conflict.{
  Op, OpType, insert, delete, other, Stats, ConflictError, overlaps, apply_typed, apply_operation,
  shifted, merge, merged_text, assert_no_conflict,
}
use collab_write.Conflict.Splice.{
  splice, drop-drop, take_clamped, drop_clamped, splice_nothing, splice-splice,
}

-- The span that an operation cuts out, and what it puts there.
removed_of : OpType → ℕ → ℕ
removed_of delete n = n
removed_of _ n = 0

inserted_of : OpType → List ℕ → List ℕ
inserted_of insert c = c
inserted_of _ c = []

abbrev start : Op → ℕ
start op = pos_part op.position

abbrev removed : Op → ℕ
removed op = removed_of op.type (pos_part op.length)

abbrev inserted : Op → List ℕ
inserted op = inserted_of op.type op.content

apply_typed-splice :
    (t : OpType) (base : List ℕ) (p : ℕ) (c : List ℕ) (l : ℕ)
    → apply_typed t base (min p (length base)) c l
      ≡ splice base p (removed_of t l) (inserted_of t c)
unfolding apply_typed splice removed_of inserted_of
apply_typed-splice insert base p c l = rw (take_clamped p base, drop_clamped p base) refl
apply_typed-splice delete base p c l =
    rw (drop-drop (min p (length base)) l base, take_clamped p base, drop_clamped p base) refl
apply_typed-splice other base p c l = sym (splice_nothing base p)

apply_operation-splice :
    (base : List ℕ) (op : Op)
    → apply_operation base op ≡ splice base (start op) (removed op) (inserted op)
unfolding apply_operation
apply_operation-splice base op =
    apply_typed-splice op.type base (start op) op.content (pos_part op.length)

-- Where an operation begins after an earlier one was made ahead of it.
moved : Op → Op → ℕ
moved a b = start b - removed a + length (inserted a)

moved_lem : (a b : Op) → moved a b ≡ start b - removed a + length (inserted a)
unfolding moved
moved_lem a b = refl

start-shifted :
    (a b : Op)
    → start (shifted a b) ≡ (if leb (start a + removed a) (start b) then moved a b else start b)
unfolding shifted moved removed_of inserted_of
start-shifted a b = ground arith

-- Two operations that do not overlap: one ends before the other starts, or both are at one place,
-- cut nothing, and one of them inserts nothing.
abbrev Before : Op → Op → Type 0
Before a b = (start a + removed a ≤ start b) × (leb (start b + removed b) (start a) ≡ false)

abbrev AtOnePlace : Op → Op → Type 0
AtOnePlace a b =
    (start a ≡ start b)
    × (removed a ≡ 0)
    × (removed b ≡ 0)
    × ((inserted a ≡ []) ⊎ (inserted b ≡ []))

overlaps-cases : (a b : Op) → overlaps a b ≡ false → Before a b ⊎ (Before b a ⊎ AtOnePlace a b)
unfolding overlaps removed_of inserted_of
overlaps-cases a b h = ground arith

overlaps_comm : (a b : Op) → overlaps a b ≡ overlaps b a
unfolding overlaps
overlaps_comm a b = ground arith

-- The text after both operations, as two splices.
both : List ℕ → Op → Op → List ℕ
both base a b =
    splice (splice base (start a) (removed a) (inserted a)) (start (shifted a b)) (removed b)
      (inserted b)

apply_both :
    (base : List ℕ) (a b : Op)
    → apply_operation (apply_operation base a) (shifted a b) ≡ both base a b
unfolding both shifted
apply_both base a b =
    rw (apply_operation-splice base a)
      (apply_operation-splice (splice base (start a) (removed a) (inserted a)) (shifted a b))

both-Before :
    (base : List ℕ) (a b : Op) → Before a b → start b ≤ length base → both base a b ≡ both base b a
unfolding both moved removed_of
both-Before base a b (h, k) n =
    rw (start-shifted a b, start-shifted b a, k, le→leb (start a + removed a) (start b) h)
      (sym (
        splice-splice base (start a) (removed a) (inserted a) (start b) (removed b) (inserted b) h
          n))

-- An operation that changes nothing can be left out, on either side.
both-idle :
    (base : List ℕ) (a b : Op)
    → removed a ≡ 0
    → inserted a ≡ []
    → (both base a b ≡ splice base (start b) (removed b) (inserted b))
      × (both base b a ≡ splice base (start b) (removed b) (inserted b))
unfolding both
both-idle base a b da ia =
    let e : start (shifted a b) ≡ start b =
      ground (arith, start-shifted a b, moved_lem a b, ap length ia) in
    (
      rw (da, ia, e, splice_nothing base (start a)),
      rw (da, ia)
          (splice_nothing (splice base (start b) (removed b) (inserted b)) (start (shifted b a))),
    )

both-AtOnePlace : (base : List ℕ) (a b : Op) → AtOnePlace a b → both base a b ≡ both base b a
both-AtOnePlace base a b (e, da, db, inl ia) = let (p, q) = both-idle base a b da ia in p ∙ sym q
both-AtOnePlace base a b (e, da, db, inr ib) = let (p, q) = both-idle base b a db ib in q ∙ sym p

both_comm :
    (base : List ℕ) (a b : Op)
    → start a ≤ length base
    → start b ≤ length base
    → overlaps a b ≡ false
    → both base a b ≡ both base b a
both_comm base a b na nb h = elim (overlaps-cases a b h) [
  | inl before ↦ both-Before base a b before nb
  | inr (inl after) ↦ sym (both-Before base b a after na)
  | inr (inr same) ↦ both-AtOnePlace base a b same
]

-- Two edits of one text, both within it, merge to the same text whichever of them was committed
-- first; and if one order is refused, so is the other.
pub merge_converges :
    (s s' : Stats) (base : List ℕ) (a b : Op)
    → pos_part a.position ≤ length base
    → pos_part b.position ≤ length base
    → merged_text (merge s base a b).1 ≡ merged_text (merge s' base b a).1
unfolding merge merged_text
merge_converges s s' base a b na nb = elim (Bool-cases (overlaps a b)) [
  | inl clash ↦ let clash' = sym (overlaps_comm a b) ∙ clash in rw (clash, clash')
  | inr free ↦
      let free' = sym (overlaps_comm a b) ∙ free in
      rw (free, free', apply_both base a b, apply_both base b a)
        (ap some (both_comm base a b na nb free))
]

-- The version check passes when the versions agree, and otherwise reports the call's own details.
-- Each call counts one check, and a refusal also one conflict; `merges` stays.
pub assert_no_conflict_cases :
    (s : Stats) (d : ConflictError)
    → ((d.expected_version ≡ d.actual_version)
        × (assert_no_conflict s d ≡ (record s { checks = s.checks + 1 }, none)))
      ⊎ ((d.expected_version ≢ d.actual_version)
          × ((assert_no_conflict s d).1 ≡ some d)
          × ((assert_no_conflict s d).0.checks ≡ s.checks + 1)
          × ((assert_no_conflict s d).0.conflicts ≡ s.conflicts + 1)
          × ((assert_no_conflict s d).0.merges ≡ s.merges))
unfolding assert_no_conflict
assert_no_conflict_cases s d = ground arith
