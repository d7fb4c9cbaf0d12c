-- ===== src/Conflict/Tests.antt =====
-- Runs of ConflictResolver.js, and its theorems at concrete edits.
use collab_write.Prelude.{ℕ, ◌≡◌, refl, List, [], ◌∷◌, arith, some}
use collab_write.Prelude.Int.{pos}
use collab_write.Conflict.{Op, insert, delete, Stats, merge, merged_text}
use collab_write.Conflict.Merge.{merge_converges}

abbrev zeros : Stats
zeros = record { checks = 0; conflicts = 0; merges = 0 }

-- "abcdef", with "XY" put at 1, and "cd" cut at 2.
abbrev base : List ℕ
base = 97 ∷ 98 ∷ 99 ∷ 100 ∷ 101 ∷ 102 ∷ []

abbrev put_xy : Op
put_xy = record { type = insert; position = pos 1; content = 88 ∷ 89 ∷ []; length = pos 0 }

abbrev cut_cd : Op
cut_cd = record { type = delete; position = pos 2; content = []; length = pos 2 }

abbrev both_done : List ℕ
both_done = 97 ∷ 88 ∷ 89 ∷ 98 ∷ 101 ∷ 102 ∷ []

merge_runs : merged_text (merge zeros base put_xy cut_cd).1 ≡ some both_done
unfolding merge merged_text
merge_runs = refl

merge_converges_example :
    merged_text (merge zeros base put_xy cut_cd).1 ≡ merged_text (merge zeros base cut_cd put_xy).1
merge_converges_example = merge_converges zeros zeros base put_xy cut_cd (omega arith) (omega arith)
