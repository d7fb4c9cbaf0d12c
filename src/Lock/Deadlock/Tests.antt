-- ===== src/Lock/Deadlock/Tests.antt =====
-- The deadlock detector on two transactions that wait for each other.
use collab_write.Prelude.{ℕ, ◌≡◌, refl, ◌⊎◌, true, false, [], ◌∷◌, mem, nat_key}
use collab_write.Prelude.Map
use collab_write.Lock.Entry.{shared, exclusive, Request, no_stats}
use collab_write.Lock.{LockManager, locks_held_by}
use collab_write.Lock.Deadlock.{locks_of, choose, select_victim}
use collab_write.Lock.Deadlock.Victim.{Rather, select_victim-least}

abbrev waiting : ℕ → Request
waiting t = record { request_id = t; tx_id = t; mode = exclusive; enqueued_at = 0 }

-- Transaction 1 holds 5 and waits for 6; transaction 2 holds 6 and 7 and waits for 5.
abbrev manager : LockManager ℕ
manager = record {
  timeout_ms = 0;
  lock_table =
      (5, record { holders = (1, exclusive) ∷ []; wait_queue = waiting 2 ∷ [] })
      ∷ (6, record { holders = (2, exclusive) ∷ []; wait_queue = waiting 1 ∷ [] })
      ∷ (7, record { holders = (2, shared) ∷ []; wait_queue = [] })
      ∷ [];
  ledger = no_stats;
  next_request = 3;
}

select_victim-least_example :
    (mem 1 (1 ∷ 2 ∷ []) ≡ true) × ((t : ℕ) → (mem t (1 ∷ 2 ∷ []) ≡ false) ⊎ Rather manager 1 t)
unfolding select_victim choose locks_of locks_held_by Map.has
select_victim-least_example = select_victim-least manager (1 ∷ 2 ∷ []) 1 refl
