-- ===== src/Lock/Reach.antt =====
-- Any history of calls on a new lock manager of LockManager.js.
use collab_write.Prelude.{ℕ, ◌≡◌, ◌≢◌, sym, subst, false, some, List, [], ◌∷◌, Key, nat_key}
use collab_write.Prelude.Map
use collab_write.Prelude.Map.{Map}
use collab_write.Lock.Entry.{Mode, shared, is_compatible, Request, LockInfo}
use collab_write.Lock.Holders.{conflicting}
use collab_write.Lock.{LockManager, create, acquire, release, time_out, release_all, reset}
use collab_write.Lock.Queue.{IsBlocked, IsValid}
use collab_write.Lock.Table.{
  Valid, get-Valid, acquire-Valid, release-Valid, time_out-Valid, release_all-Valid,
}

pub data Call (R : Type 0) : Type 0 where
  acquires : (tx_id : ℕ) → R → Mode → Call R
  releases : (tx_id : ℕ) → R → Call R
  releases_all : (tx_id : ℕ) → Call R
  times_out : R → Request → Call R
  resets : Call R

module _ {R : Type 0} ⦃e : Key R⦄ where
  -- A call is made at a time.
  unfoldable pub step : ℕ → Call R → LockManager R → LockManager R
  step now (acquires tx r mode) m = (acquire tx r mode now m).0
  step now (releases tx r) m = release tx r now m
  step now (releases_all tx) m = release_all tx now m
  step now (times_out r request) m = time_out r request now m
  step now resets m = reset now m

  unfoldable pub run : List (ℕ × Call R) → LockManager R → LockManager R
  unfolding step
  run [] m = m
  run ((now, c) ∷ cs) m = run cs (step now c m)

  step-Valid :
      (now : ℕ) (c : Call R) (m : LockManager R)
      → Valid m.lock_table
      → Valid (step now c m).lock_table
  unfolding step reset
  step-Valid now (acquires tx r mode) m v = acquire-Valid tx r mode now m v
  step-Valid now (releases tx r) m v = release-Valid tx r now m v
  step-Valid now (releases_all tx) m v = release_all-Valid tx now m v
  step-Valid now (times_out r request) m v = time_out-Valid r request now m v
  step-Valid now resets m v = tt

  run-Valid :
      (cs : List (ℕ × Call R)) (m : LockManager R)
      → Valid m.lock_table
      → Valid (run cs m).lock_table
  unfolding run
  run-Valid [] m v = v
  run-Valid ((now, c) ∷ cs) m v = run-Valid cs (step now c m) (step-Valid now c m v)

  reached :
      (timeout_ms : ℕ) (cs : List (ℕ × Call R)) (r : R) (info : LockInfo)
      → Map.get r (run cs (create timeout_ms)).lock_table ≡ some info
      → IsValid info
  unfolding create
  reached timeout_ms cs r info g =
      get-Valid r (run cs (create timeout_ms)).lock_table info (run-Valid cs (create timeout_ms) tt)
        g

  -- After any history two transactions hold one resource together only in shared mode.
  pub mutual_exclusion :
      (timeout_ms : ℕ) (cs : List (ℕ × Call R)) (r : R) (info : LockInfo) (a b : ℕ) (m n : Mode)
      → Map.get r (run cs (create timeout_ms)).lock_table ≡ some info
      → Map.get a info.holders ≡ some m
      → Map.get b info.holders ≡ some n
      → a ≢ b
      → (m ≡ shared) × (n ≡ shared)
  mutual_exclusion timeout_ms cs r info a b m n g p q d =
      let s = (reached timeout_ms cs r info g).safe in
      (s.compatible a b m n p q d, s.compatible b a n m q p (λ x. d (sym x)))

  -- After any history the front of a resource's queue waits for a lock that another transaction
  -- holds in a mode that conflicts with it: no request waits for a lock that it could be given.
  pub front_waits_for_holder :
      (timeout_ms : ℕ) (cs : List (ℕ × Call R)) (r : R) (info : LockInfo) (next : Request)
      (rest : List Request)
      → Map.get r (run cs (create timeout_ms)).lock_table ≡ some info
      → info.wait_queue ≡ next ∷ rest
      → (holder : ℕ) × (held : Mode) × (Map.get holder info.holders ≡ some held)
        × (holder ≢ next.tx_id)
        × (is_compatible next.mode held ≡ false)
  front_waits_for_holder timeout_ms cs r info next rest g q =
      let v = reached timeout_ms cs r info g in
      conflicting next.tx_id next.mode info.holders v.safe.distinct
        (subst (λ w. IsBlocked w info.holders) q v.blocked)
