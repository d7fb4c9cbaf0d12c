-- ===== src/Recovery/Manager/Lost.antt =====
-- An aborted update that src/engine/recovery/RecoveryManager.js undoes over a committed one.
use mathlib.Core.List.{reverse}
use collab_write.Prelude.{
  ℕ, ◌≡◌, refl, subst, Bool, true, false, Option, none, some, List, [], ◌∷◌, if◌then◌else◌, eqb_iff,
  arith,
}
use collab_write.Recovery.Wal.{LogRecord, begin_code, update_code, commit_code, abort_code}
use collab_write.Recovery.Manager.{
  Pages, Disk, redo_image, undo_image, repair, analyse, classify_all, classify,
}
use collab_write.Recovery.Manager.Replay.{or_else, last_image, Fitting, Holds, repair-Holds}

abbrev pub control : ℕ → ℕ → ℕ → LogRecord
control lsn type t = record {
  lsn = lsn;
  type = type;
  tx_id = t;
  page_id = 0;
  before_image = none;
  after_image = none;
}

abbrev pub update : ℕ → ℕ → ℕ → List ℕ → List ℕ → LogRecord
update lsn t p before after = record {
  lsn = lsn;
  type = update_code;
  tx_id = t;
  page_id = p;
  before_image = some before;
  after_image = some after;
}

-- Transaction 1 changes page `p` from `u` to `x` and aborts; then transaction 2 changes it from `u`
-- to `y` and commits.
abbrev pub abort_then_commit : ℕ → List ℕ → List ℕ → List ℕ → List LogRecord
abort_then_commit p u x y =
    control 1 begin_code 1
    ∷ update 2 1 p u x
    ∷ control 3 abort_code 1
    ∷ control 4 begin_code 2
    ∷ update 5 2 p u y
    ∷ control 6 commit_code 2
    ∷ []

if_same : {A : Type 0} (b : Bool) (x : A) → (if b then x else x) ≡ x
if_same true x = refl
if_same false x = refl

-- From the log of a transaction that updates a page and aborts, and of a later one that updates
-- the same page and commits, recovery leaves the page as it was before both: the committed
-- update is lost.
pub committed_update_lost :
    (pages : Pages) (d : Disk pages) (p : ℕ) (u x y : List ℕ)
    → pages.IsImage u
    → pages.IsImage y
    → pages.id_of u ≡ p
    → pages.id_of y ≡ p
    → let rs = abort_then_commit p u x y in
      ((analyse rs).winners ≡ 2 ∷ [])
      × ((d' : Disk pages) × (redone : ℕ) × (undone : ℕ) × (repair pages rs d
            ≡ some (d', redone, undone))
          × (pages.look p d'.state ≡ some u))
unfolding analyse classify_all classify redo_image undo_image Fitting Holds last_image or_else
committed_update_lost pages d p u x y iu iy eu ey =
    let rs = abort_then_commit p u x y in
    let (d', n, m, q, all) =
      repair-Holds pages rs d (tt, (tt, (tt, (tt, ((iy, ey), (tt, tt))))))
        (tt, ((iu, eu), (tt, (tt, (tt, (tt, tt)))))) in
    let first : or_else (last_image (undo_image (analyse rs).losers) p (reverse rs))
          (last_image (redo_image (analyse rs).winners) p rs)
        ≡ some u =
      ground (arith, eqb_iff p p) in
    (refl, (d', n, m, q, subst (λ (o : Option (List ℕ)). Holds pages o p d d') first (all p)))
