-- ===== src/Recovery/Manager/Verdicts.antt =====
-- Which transactions `analyse` of src/engine/recovery/RecoveryManager.js calls winners and losers.
use collab_write.Prelude.{
  mem-add, ℕ, ◌≡◌, ap, ◌∙◌, Bool, not, ◌&&◌, ◌||◌, List, [], ◌∷◌, eqb, eqb_iff, mem, filter, any,
  arith,
}
use collab_write.Recovery.Wal.{LogRecord, begin_code, commit_code}
use collab_write.Recovery.Manager.{Analysis, classify, classify_all, analyse}

-- The log has a record of this type for the transaction.
unfoldable pub has_record : ℕ → ℕ → List LogRecord → Bool
has_record code t rs = any (λ (r : LogRecord). eqb r.type code && eqb r.tx_id t) rs

mem-filter : (p : ℕ → Bool) (t : ℕ) (xs : List ℕ) → mem t (filter p xs) ≡ (p t && mem t xs)
mem-filter p t [] = ground arith
mem-filter p t (x ∷ xs) = ground (arith, mem-filter p t xs, eqb_iff x t, λ (e : x ≡ t). ap p e)

mem-classify :
    (t : ℕ) (r : LogRecord) (a : Analysis)
    → (mem t (classify r a).committed
        ≡ (mem t a.committed || (eqb r.type commit_code && eqb r.tx_id t)))
      × (mem t (classify r a).started
          ≡ (mem t a.started || (eqb r.type begin_code && eqb r.tx_id t)))
unfolding classify
mem-classify t r a = ground (arith, mem-add t r.tx_id a.committed, mem-add t r.tx_id a.started)

mem-classify_all :
    (t : ℕ) (rs : List LogRecord) (a : Analysis)
    → (mem t (classify_all rs a).committed ≡ (mem t a.committed || has_record commit_code t rs))
      × (mem t (classify_all rs a).started ≡ (mem t a.started || has_record begin_code t rs))
unfolding classify_all has_record
mem-classify_all t [] a = ground arith
mem-classify_all t (r ∷ rs) a =
    ground (arith, mem-classify t r a, mem-classify_all t rs (classify r a))

-- The winners are the transactions with a COMMIT record, and the losers those with a BEGIN and
-- without a COMMIT record.
pub analyse-mem :
    (rs : List LogRecord) (t : ℕ)
    → (mem t (analyse rs).winners ≡ has_record commit_code t rs)
      × (mem t (analyse rs).losers
          ≡ (not (has_record commit_code t rs) && has_record begin_code t rs))
unfolding analyse
analyse-mem rs t =
    let a : Analysis = record { started = []; committed = []; aborted = [] } in
    let (c, s) = mem-classify_all t rs a in
    (
      c,
      mem-filter (λ u. not (mem u (classify_all rs a).committed)) t (classify_all rs a).started
          ∙ ground (arith, c, s),
    )
