-- ===== src/Conflict.antt =====
-- src/engine/conflict/ConflictResolver.js: the optimistic version check, and the merge of two
-- edits that were computed against the same text. A text is its list of UTF-16 code units; an
-- operation's missing or non-numeric position or length is read as 0, as `op.position || 0` does.
pub mod Splice
pub mod Merge
pub mod Tests
use collab_write.Prelude.{
  ℕ, ◌+◌, Bool, true, false, ◌&&◌, Option, none, some, List, [], ◌++◌, min, if◌then◌else◌, eqb, ltb,
  leb, length, take, drop,
}
use collab_write.Prelude.Int.{ℤ, pos, negsuc, pos_part, neg_part, sub_ℕ, ◌+ℤ◌}

-- `other` stands for any other string, and for a missing type.
pub data OpType : Type 0 where
  insert delete other : OpType

pub record Op : Type 0 where
  pub type : OpType
  pub position : ℤ
  pub content : List ℕ
  pub length : ℤ

pub record Range : Type 0 where
  pub start : ℕ
  pub end : ℕ
  pub delta : ℤ

range_of : OpType → ℕ → ℕ → ℕ → Range
range_of insert start inserted removed = record { start = start; end = start; delta = pos inserted }
range_of delete start inserted removed = record {
  start = start;
  end = start + removed;
  delta = sub_ℕ 0 removed;
}
range_of other start inserted removed = record { start = start; end = start; delta = pos 0 }

unfoldable pub operation_range : Op → Range
unfolding range_of
operation_range op =
    range_of op.type (pos_part op.position) (length op.content) (pos_part op.length)

pub record Stats : Type 0 where
  pub checks : ℕ
  pub conflicts : ℕ
  pub merges : ℕ

pub record ConflictError : Type 0 where
  pub tx_id : ℕ
  pub page_id : ℕ
  pub expected_version : ℕ
  pub actual_version : ℕ

-- The new counters, and the error that is thrown, if any.
unfoldable pub assert_no_conflict : Stats → ConflictError → Stats × Option ConflictError
assert_no_conflict s d =
    if eqb d.expected_version d.actual_version
    then (record s { checks = s.checks + 1 }, none)
    else (record s { checks = s.checks + 1; conflicts = s.conflicts + 1 }, some d)

overlapping : OpType → OpType → Range → Range → Bool
overlapping insert insert a b = eqb a.start b.start
overlapping insert _ a b = ltb b.start a.start && ltb a.start b.end
overlapping _ insert a b = ltb a.start b.start && ltb b.start a.end
overlapping _ _ a b = ltb a.start b.end && ltb b.start a.end

unfoldable pub overlaps : Op → Op → Bool
unfolding overlapping operation_range
overlaps a b = overlapping a.type b.type (operation_range a) (operation_range b)

apply_typed : OpType → List ℕ → ℕ → List ℕ → ℕ → List ℕ
apply_typed insert base position content removed =
    take position base ++ (content ++ drop position base)
apply_typed delete base position content removed =
    take position base ++ drop (position + removed) base
apply_typed other base position content removed = base

-- `Math.max(0, Math.min(op.position || 0, base.length))`
unfoldable pub apply_operation : List ℕ → Op → List ℕ
unfolding apply_typed
apply_operation base op =
    apply_typed op.type base (min (pos_part op.position) (length base)) op.content
      (pos_part op.length)

pub data MergeResult : Type 0 where
  refused : MergeResult
  merged : (text : List ℕ) (shifted_op : Op) → MergeResult

unfoldable pub shifted : Op → Op → Op
unfolding operation_range
shifted committed_op incoming_op =
    let committed = operation_range committed_op in
    let incoming = operation_range incoming_op in
    let shift = if leb committed.end incoming.start then committed.delta else pos 0 in
    record incoming_op { position = pos (pos_part (pos incoming.start +ℤ shift)) }

unfoldable pub merge : Stats → List ℕ → Op → Op → Stats × MergeResult
unfolding overlaps shifted apply_operation
merge s base_text committed_op incoming_op =
    if overlaps committed_op incoming_op then (s, refused) else (
      record s { merges = s.merges + 1 },
      merged
          (apply_operation (apply_operation base_text committed_op)
            (shifted committed_op incoming_op))
          (shifted committed_op incoming_op),
    )

-- The text of a result, if the merge was made.
unfoldable pub merged_text : MergeResult → Option (List ℕ)
merged_text refused = none
merged_text (merged text _) = some text
