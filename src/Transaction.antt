-- ===== src/Transaction.antt =====
-- src/engine/transaction/Transaction.js: the record that a transaction keeps of itself. Resource ids
-- and page images are of any type; the metadata of the caller is left out.
pub mod Records
pub mod Manager
pub mod Tests
use collab_write.Prelude.{
  ℕ, ◌+◌, ◌-◌, ◌≡◌, refl, ap, sym, ◌∙◌, Bool, true, false, ◌||◌, Option, none, some, List, [], ◌∷◌,
  ◌++◌, if◌then◌else◌, eqb, mem, add, any, Key, ◌===◌, nat_key,
}
use collab_write.Prelude.Map
use collab_write.Prelude.Map.{Map}

pub data TxState : Type 0 where
  active committed aborted : TxState

pub record Transaction (R I : Type 0) : Type 0 where
  pub tx_id : ℕ
  pub state : TxState
  pub start_lsn : Option ℕ
  pub end_lsn : Option ℕ
  pub modified_pages : List ℕ
  pub locks_held : List R
  pub read_versions : Map ℕ ℕ
  pub undo_log : List (ℕ × I)
  pub started_at : ℕ
  pub finished_at : Option ℕ
  pub lock_wait_ms : ℕ
  pub abort_reason : Option ℕ

module _ {R I : Type 0} where
  unfoldable pub create : ℕ → ℕ → Transaction R I
  create now tx_id = record {
    tx_id = tx_id;
    state = active;
    start_lsn = none;
    end_lsn = none;
    modified_pages = [];
    locks_held = [];
    read_versions = [];
    undo_log = [];
    started_at = now;
    finished_at = none;
    lock_wait_ms = 0;
    abort_reason = none;
  }

  unfoldable pub is_active : Transaction R I → Bool
  is_active t = elim t.state [ active ↦ true | committed ↦ false | aborted ↦ false ]

  unfoldable pub record_lock : ⦃key : Key R⦄ → R → Transaction R I → Transaction R I
  record_lock r t =
      if any (λ x. x === r) t.locks_held
      then t
      else record t { locks_held = t.locks_held ++ r ∷ [] }

  unfoldable pub record_read : ℕ → ℕ → Transaction R I → Transaction R I
  record_read page_id version t =
      if Map.has page_id t.read_versions
      then t
      else record t { read_versions = Map.set page_id version t.read_versions }

  unfoldable pub record_write : ℕ → I → Transaction R I → Transaction R I
  record_write page_id before_image t =
      let pages =
        if mem page_id t.modified_pages
        then t.modified_pages
        else t.modified_pages ++ page_id ∷ [] in
      record t { modified_pages = pages; undo_log = t.undo_log ++ (page_id, before_image) ∷ [] }

  unfoldable pub duration_ms : ℕ → Transaction R I → ℕ
  duration_ms now t =
      let end : ℕ = elim t.finished_at [ none ↦ now | some f ↦ if eqb f 0 then now else f ] in
      end - t.started_at
