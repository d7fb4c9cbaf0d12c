-- ===== src/Lock/Tests.antt =====
-- Runs of LockManager.js, and its theorems at a concrete history.
use mathlib.Core.List.{reverse}
use collab_write.Prelude.{
  ℕ, ◌+◌, ◌≡◌, ◌≢◌, refl, true, false, some, List, [], ◌∷◌, ◌++◌, arith, nat_key, length,
}
use collab_write.Prelude.Map
use collab_write.Lock.Entry.{
  Mode, shared, exclusive, is_compatible, Request, LockInfo, no_stats, drain_queue, drain,
  can_grant, all_compatible,
}
use collab_write.Lock.{create, acquire, release, granted}
use collab_write.Lock.Queue.{drain_queue-prefix, resolved_ids, ids, Served, holding, IsBlocked}
use collab_write.Lock.Reach.{
  Call, acquires, releases, run, mutual_exclusion, front_waits_for_holder,
}

run_all : Unit {0}
unfolding run create acquire release Map.get Map.set Map.delete drain_queue all_compatible can_grant
    drain
run_all = tt

-- Two readers, and a writer that waits for both.
abbrev history : List (ℕ × Call ℕ)
history = (0, acquires 1 5 shared) ∷ (1, acquires 2 5 shared) ∷ (2, acquires 3 5 exclusive) ∷ []

abbrev writer : Request
writer = record { request_id = 0; tx_id = 3; mode = exclusive; enqueued_at = 2 }

abbrev entry : LockInfo
entry = record { holders = (1, shared) ∷ (2, shared) ∷ []; wait_queue = writer ∷ [] }

history-entry : Map.get 5 (run history (create 0)).lock_table ≡ some entry
unfolding run_all
history-entry = refl

-- The upgrade of a reader that is alone.
upgrade_runs :
    (acquire {R = ℕ} 1 5 exclusive 9 (run ((0, acquires 1 5 shared) ∷ []) (create 0))).1
    ≡ granted 0 true
unfolding run_all
upgrade_runs = refl

-- The last release hands the lock to the writer.
hand_over_runs :
    Map.get 5 (run ((3, releases 1 5) ∷ (4, releases 2 5) ∷ []) (run history (create 0))).lock_table
    ≡ some (record { holders = (3, exclusive) ∷ []; wait_queue = [] })
unfolding run_all
hand_over_runs = refl

mutual_exclusion_example : (shared ≡ shared) × (shared ≡ shared)
unfolding Map.get
mutual_exclusion_example =
    mutual_exclusion 0 history 5 entry 1 2 shared shared history-entry refl refl (omega arith)

front_waits_for_holder_example :
    (holder : ℕ) × (held : Mode) × (Map.get holder entry.holders ≡ some held)
    × (holder ≢ writer.tx_id)
    × (is_compatible writer.mode held ≡ false)
front_waits_for_holder_example =
    front_waits_for_holder 0 history 5 entry writer [] history-entry refl

drain_queue-prefix_example :
    (served : List Request) × (entry.wait_queue
      ≡ served ++ (drain_queue 9 entry.wait_queue [] no_stats).0.wait_queue)
    × Served served []
    × ((drain_queue 9 entry.wait_queue [] no_stats).0.holders ≡ holding served [])
    × IsBlocked
        (drain_queue 9 entry.wait_queue [] no_stats).0.wait_queue
        (drain_queue 9 entry.wait_queue [] no_stats).0.holders
    × (resolved_ids (drain_queue 9 entry.wait_queue [] no_stats).1.settled
        ≡ reverse (ids served) ++ resolved_ids no_stats.settled)
    × ((drain_queue 9 entry.wait_queue [] no_stats).1.granted ≡ no_stats.granted + length served)
drain_queue-prefix_example = drain_queue-prefix 9 entry.wait_queue [] no_stats
