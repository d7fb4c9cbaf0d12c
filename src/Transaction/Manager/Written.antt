-- ===== src/Transaction/Manager/Written.antt =====
-- What a write of src/engine/transaction/TransactionManager.js may do to its logs.
use collab_write.Prelude.{
  ℕ, ◌≡◌, refl, eqb, nat_key, ◌⊎◌, Bool, false, Option, none, some, List, [], ◌∷◌, ◌++◌, arith,
}
use collab_write.Prelude.Int.{ℤ}
use collab_write.Conflict.{ConflictError}
use collab_write.Recovery.Wal.{Wal, append, update_code}
use collab_write.Storage.Page.{Page, Outcome, returned, page_full, range_error}
use collab_write.Storage.Page.Checksum.{serialize}
use collab_write.Transaction.{Transaction}
use collab_write.Transaction.Manager.{
  TransactionManager, Reply, ok, thrown, Fault, page_failed, log_failed, conflict, page_version,
}

-- What holds of the three cases of an outcome holds of the `elim` on it.
pub outcome_intro {κ μ} :
    {B : Type κ} (P : B → Type μ) (o : Outcome {0} Unit) (f : Unit → List ℕ → B)
    (g : ℕ → ℕ → ℤ → List ℕ → B) (h : List ℕ → B)
    → ((u : Unit) (b : List ℕ) → o ≡ returned u b → P (f u b))
    → ((k n : ℕ) (a : ℤ) (b : List ℕ) → o ≡ page_full k n a b → P (g k n a b))
    → ((b : List ℕ) → o ≡ range_error b → P (h b))
    → P (elim o [ returned u b ↦ f u b | page_full k n a b ↦ g k n a b | range_error b ↦ h b ])
outcome_intro P (returned u b) f g h x y z = x u b refl
outcome_intro P (page_full k n a b) f g h x y z = y k n a b refl
outcome_intro P (range_error b) f g h x y z = z b refl

-- An append that throws leaves the log.
pub append-none :
    (type tx_id page_id : ℕ) (b a : Option (List ℕ)) (sync : Bool) (w : Wal)
    → (append type tx_id page_id b a sync w).1 ≡ none
    → (append type tx_id page_id b a sync w).0 ≡ w
unfolding append
append-none type tx_id page_id b a sync w h = ground (arith, h)

-- What a write finds: its arguments, the page that the pool gives, the undo log and the log.
pub record WriteCall : Type 0 where
  pub page_id : ℕ
  pub tx_id : ℕ
  pub expected : Option ℕ
  pub mutator : Page → Outcome {0} Unit
  pub fetched : Option Page
  pub undo_log : List (ℕ × List ℕ)
  pub wal : Wal

-- The page with the buffer that the mutator left.
abbrev pub with_buffer : Page → List ℕ → Page
with_buffer p buf = record p { buffer = buf }

-- The mutator throws, or leaves a page that has no image.
abbrev pub MutatorFails : (Page → Outcome {0} Unit) → Page → Type 0
MutatorFails mutator p =
    ((k : ℕ) × (n : ℕ) × (a : ℤ) × (b : List ℕ) × (mutator p ≡ page_full k n a b))
    ⊎ ((b : List ℕ) × (mutator p ≡ range_error b))
    ⊎ ((b : List ℕ) × (mutator p ≡ returned tt b) × (serialize (with_buffer p b) ≡ none))

-- Why a write throws before anything is logged.
unfoldable pub WriteThrows : WriteCall → Fault → Type 0
WriteThrows c f =
    ((f ≡ page_failed) × (c.fetched ≡ none))
    ⊎ ((p : Page) × (c.fetched ≡ some p)
        × (((f ≡ page_failed) × (serialize p ≡ none))
            ⊎ ((f ≡ page_failed) × (page_version p ≡ none))
            ⊎ ((f ≡ page_failed) × MutatorFails c.mutator p)
            ⊎ ((v : ℕ) × (n : ℕ) × (c.expected ≡ some v)
                × (page_version p ≡ some n)
                × (eqb v n ≡ false)
                × (e : ConflictError) × (f ≡ conflict e))
            ⊎ ((f ≡ log_failed)
                × (before : List ℕ) × (after : List ℕ) × ((append update_code c.tx_id c.page_id
                      (some before) (some after) false c.wal).1
                    ≡ none))))

module _ {State Pool R : Type 0} where
  -- Either the call throws, for one of these reasons, and neither the undo log nor the log of the
  -- engine has grown; or the undo log has grown by the image of the page before the change, and
  -- the log by the update record of this image and of the image after the change, whose number
  -- is returned with the version of the changed page.
  unfoldable pub Logged :
      WriteCall → TransactionManager State Pool R × Transaction R (List ℕ) × Reply (ℕ × ℕ) → Type 0
  Logged c (m', u, reply) =
      ((f : Fault) × (reply ≡ thrown f)
        × WriteThrows c f
        × (u.undo_log ≡ c.undo_log)
        × (m'.wal ≡ c.wal))
      ⊎ ((p : Page) × (buf : List ℕ) × (before : List ℕ) × (after : List ℕ) × (lsn : ℕ) × (c.fetched
            ≡ some p)
          × (serialize p ≡ some before)
          × (c.mutator p ≡ returned tt buf)
          × (serialize (with_buffer p buf) ≡ some after)
          × (u.undo_log ≡ c.undo_log ++ (c.page_id, before) ∷ [])
          × (append update_code c.tx_id c.page_id (some before) (some after) false c.wal
              ≡ (m'.wal, some lsn))
          × (((v : ℕ) × (page_version (with_buffer p buf) ≡ some v) × (reply ≡ ok (v, lsn)))
              ⊎ ((page_version (with_buffer p buf) ≡ none) × (reply ≡ thrown page_failed))))
