-- ===== src/Recovery/Manager.antt =====
-- src/engine/recovery/RecoveryManager.js, over the pages of src/engine/storage/StorageManager.js and
-- the buffer pool, of which it uses what the record `Pages` names.
pub mod Verdicts
pub mod Replay
pub mod Lost
use mathlib.Core.List.{reverse}
use collab_write.Prelude.{
  add, mem-add, ℕ, ◌+◌, ◌≡◌, ◌≢◌, ◌⊎◌, Bool, true, false, not, ◌&&◌, Option, none, some, List, [],
  ◌∷◌, ◌++◌, if◌then◌else◌, eqb, mem, length, filter,
}
use collab_write.Recovery.Wal.{
  LogRecord, Wal, begin_code, update_code, commit_code, abort_code, checkpoint_code, append,
  read_all,
}

-- What recovery asks of the storage manager and the buffer pool.
pub record Pages : Type 1 where
  pub State : Type 0
  pub Pool : Type 0
  pub ensure_capacity : ℕ → State → State
  -- `writePageImage`; none when it throws.
  pub write_image : List ℕ → State → Option State
  pub sync : State → State
  pub invalidate : ℕ → Pool → Pool
  pub flush_all : Pool → State → Option (Pool × State)
  -- The image of a page that can be read, the page that an image names, and the images of pages.
  pub look : ℕ → State → Option (List ℕ)
  pub id_of : List ℕ → ℕ
  pub IsImage : List ℕ → Type 0
  pub look-ensure_capacity :
      (k p : ℕ) (s : State) (b : List ℕ) → look k s ≡ some b → look k (ensure_capacity p s) ≡ some b
  pub write-look :
      (b : List ℕ) (s : State)
      → IsImage b
      → (s' : State) × (write_image b s ≡ some s')
        × (look (id_of b) s' ≡ some b)
        × ((k : ℕ) → (k ≡ id_of b) ⊎ (look k s' ≡ look k s))
  pub look-sync : (k : ℕ) (s : State) → look k (sync s) ≡ look k s

pub record Analysis : Type 0 where
  pub started : List ℕ
  pub committed : List ℕ
  pub aborted : List ℕ

unfoldable pub classify : LogRecord → Analysis → Analysis
classify r a =
    if eqb r.type begin_code
    then record a { started = add r.tx_id a.started }
    else if eqb r.type commit_code
    then record a { committed = add r.tx_id a.committed }
    else if eqb r.type abort_code
    then record a { aborted = add r.tx_id a.aborted }
    else a

-- The first loop of `analyse`.
unfoldable pub classify_all : List LogRecord → Analysis → Analysis
unfolding classify
classify_all [] a = a
classify_all (r ∷ rs) a = classify_all rs (classify r a)

pub record Verdict : Type 0 where
  pub winners : List ℕ
  pub losers : List ℕ
  pub started : List ℕ

unfoldable pub analyse : List LogRecord → Verdict
unfolding classify_all
analyse rs =
    let a = classify_all rs (record { started = []; committed = []; aborted = [] }) in
    record {
      winners = a.committed;
      losers = filter (λ t. not (mem t a.committed)) a.started;
      started = a.started;
    }

-- The image that redo writes for a record, and the one that undo writes.
unfoldable pub redo_image : List ℕ → LogRecord → Option (List ℕ)
redo_image winners r = if eqb r.type update_code && mem r.tx_id winners then r.after_image else none

unfoldable pub undo_image : List ℕ → LogRecord → Option (List ℕ)
undo_image losers r = if eqb r.type update_code && mem r.tx_id losers then r.before_image else none

module _ (pages : Pages) where
  -- The data file and the buffer pool, if there is one.
  pub record Disk : Type 0 where
    pub state : pages.State
    pub pool : Option pages.Pool

  unfoldable pub forget : ℕ → Option pages.Pool → Option pages.Pool
  forget p none = none
  forget p (some q) = some (pages.invalidate p q)

  -- `ensureCapacity`, `writePageImage` and `invalidate`
  unfoldable pub restore : ℕ → List ℕ → Disk → Option Disk
  unfolding forget
  restore p b d = elim (pages.write_image b (pages.ensure_capacity p d.state)) [
    | none ↦ none
    | some s ↦ some (record { state = s; pool = forget p d.pool })
  ]

  -- The loop of `redo` and of `undo`: writes the images that `f` picks, and counts them.
  unfoldable pub replay :
      (LogRecord → Option (List ℕ)) → List LogRecord → ℕ → Disk → Option (Disk × ℕ)
  unfolding restore
  replay f [] n d = some (d, n)
  replay f (r ∷ rs) n d = elim (f r) [
    | none ↦ replay f rs n d
    | some b ↦ elim (restore r.page_id b d) [ none ↦ none | some d' ↦ replay f rs (n + 1) d' ]
  ]

  unfoldable pub redo : List LogRecord → List ℕ → Disk → Option (Disk × ℕ)
  unfolding replay redo_image
  redo rs winners d = replay (redo_image winners) rs 0 d

  unfoldable pub undo : List LogRecord → List ℕ → Disk → Option (Disk × ℕ)
  unfolding replay undo_image
  undo rs losers d = replay (undo_image losers) (reverse rs) 0 d

  log_aborts : List ℕ → Wal → Wal
  log_aborts [] w = w
  log_aborts (t ∷ ts) w = log_aborts ts (append abort_code t 0 none none false w).0

  pub record Report : Type 0 where
    pub scanned : ℕ
    pub verdict : Verdict
    pub redone : ℕ
    pub undone : ℕ

  -- The two passes over the pages.
  unfoldable pub repair : List LogRecord → Disk → Option (Disk × ℕ × ℕ)
  unfolding redo undo analyse
  repair rs d = elim (redo rs (analyse rs).winners d) [
    | none ↦ none
    | some r ↦ elim (undo rs (analyse rs).losers r.0) [
      | none ↦ none
      | some u ↦ some (u.0, r.1, u.1)
    ]
  ]

  sync_if : Bool → Disk → Disk
  sync_if true d = d
  sync_if false d = record d { state = pages.sync d.state }

  -- None when a write throws. An append of an abort record is taken
  -- not to throw: the log is open, and its transaction's number was in a record.
  unfoldable pub recover : Wal → Disk → Option (Wal × Disk × Report)
  unfolding repair log_aborts sync_if
  recover w d = elim (read_all w) [
    | none ↦ none
    | some rs ↦ elim (repair rs d) [
      | none ↦ none
      | some r ↦ some (
        log_aborts (analyse rs).losers w,
        sync_if (eqb (length rs) 0) r.0,
        record { scanned = length rs; verdict = analyse rs; redone = r.1; undone = r.2 },
      )
    ]
  ]

  -- None when the flush throws; the log sequence number is none when the append throws.
  unfoldable pub checkpoint : Wal → Disk → Option (Wal × Disk × Option ℕ)
  checkpoint w d =
      let flushed : Option Disk = elim d.pool [
        | none ↦ some d
        | some q ↦ elim (pages.flush_all q d.state) [
          | none ↦ none
          | some r ↦ some (record { state = r.1; pool = some r.0 })
        ]
      ] in
      elim flushed [
        | none ↦ none
        | some d' ↦
            let (w', lsn) = append checkpoint_code 0 0 none none true w in
            some (w', record d' { state = pages.sync d'.state }, lsn)
      ]
