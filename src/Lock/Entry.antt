-- ===== src/Lock/Entry.antt =====
-- One entry of the lock table of LockManager.js: its holders, its queue, and what settles requests.
use collab_write.Prelude.{
  ℕ, ◌+◌, ◌-◌, Bool, true, false, ◌&&◌, ◌||◌, not, Option, none, some, List, [], ◌∷◌, if◌then◌else◌,
  eqb, length, any, nat_key,
}
use collab_write.Prelude.Map
use collab_write.Prelude.Map.{Map}

-- `LOCK_MODES`
pub data Mode : Type 0 where
  shared exclusive : Mode

abbrev pub mode_eqb : Mode → Mode → Bool
mode_eqb shared shared = true
mode_eqb exclusive exclusive = true
mode_eqb _ _ = false

abbrev pub is_compatible : Mode → Mode → Bool
is_compatible requested held = mode_eqb requested shared && mode_eqb held shared

-- `request_id` is the identity of the request object, and of its promise.
pub record Request : Type 0 where
  pub request_id : ℕ
  pub tx_id : ℕ
  pub mode : Mode
  pub enqueued_at : ℕ

pub record LockInfo : Type 0 where
  pub holders : Map ℕ Mode
  pub wait_queue : List Request

pub data LockError : Type 0 where
  timed_out : (tx_id timeout_ms : ℕ) → LockError
  aborted : (tx_id : ℕ) → LockError

pub data Settlement : Type 0 where
  resolved : (request : ℕ) (waited_ms : ℕ) (upgraded : Bool) → Settlement
  rejected : (request : ℕ) (error : LockError) → Settlement

-- The counters, with the settlements made so far.
pub record Ledger : Type 0 where
  pub granted : ℕ
  pub waited : ℕ
  pub timeouts : ℕ
  pub total_wait_ms : ℕ
  pub settled : List Settlement

abbrev pub no_stats : Ledger
no_stats = record { granted = 0; waited = 0; timeouts = 0; total_wait_ms = 0; settled = [] }

-- The loop over the other holders, in `canGrant` and in `drain`.
unfoldable pub all_compatible : ℕ → Mode → Map ℕ Mode → Bool
all_compatible tx_id mode [] = true
all_compatible tx_id mode ((holder, held) ∷ rest) =
    (eqb holder tx_id || is_compatible mode held) && all_compatible tx_id mode rest

-- Holding S, asking for X, and the only holder.
unfoldable pub is_upgrade : Option Mode → Mode → Map ℕ Mode → Bool
is_upgrade (some shared) exclusive holders = eqb (length holders) 1
is_upgrade _ _ holders = false

unfoldable pub can_grant : LockInfo → ℕ → Mode → Bool
unfolding all_compatible
can_grant info tx_id mode =
    not (any (λ r. not (eqb r.tx_id tx_id)) info.wait_queue)
    && all_compatible tx_id mode info.holders

-- The test of a round of `drain`.
unfoldable pub grantable : Map ℕ Mode → Request → Bool
unfolding is_upgrade all_compatible
grantable holders next =
    is_upgrade (Map.get next.tx_id holders) next.mode holders
    || all_compatible next.tx_id next.mode holders

unfoldable pub grant_next : ℕ → Map ℕ Mode → Request → Ledger → Ledger
grant_next now holders next ledger = record ledger {
  granted = ledger.granted + 1;
  total_wait_ms = ledger.total_wait_ms + (now - next.enqueued_at);
  settled =
      resolved next.request_id (now - next.enqueued_at)
        (is_upgrade (Map.get next.tx_id holders) next.mode holders)
      ∷ ledger.settled;
}

-- The loop of `drain`: the queue shrinks by its first request in each round.
unfoldable pub drain_queue : ℕ → List Request → Map ℕ Mode → Ledger → LockInfo × Ledger
unfolding grantable grant_next
drain_queue now [] holders ledger = (record { holders = holders; wait_queue = [] }, ledger)
drain_queue now (next ∷ queue) holders ledger = elim (grantable holders next) [
  | false ↦ (record { holders = holders; wait_queue = next ∷ queue }, ledger)
  | true ↦
      drain_queue now queue (Map.set next.tx_id next.mode holders)
        (grant_next now holders next ledger)
]

unfoldable pub drain : ℕ → LockInfo → Ledger → LockInfo × Ledger
unfolding drain_queue
drain now info ledger = drain_queue now info.wait_queue info.holders ledger

-- `indexOf` and `splice`: the queue without the request, if it is there.
unfoldable pub without_request : ℕ → List Request → Option (List Request)
without_request id [] = none
without_request id (r ∷ rs) =
    if eqb r.request_id id
    then some rs
    else elim (without_request id rs) [ none ↦ none | some rs' ↦ some (r ∷ rs') ]

-- `cancelRequest` on the entry that it looks up.
unfoldable pub cancel_in : ℕ → Request → LockError → LockInfo → Ledger → LockInfo × Ledger
unfolding without_request drain
cancel_in now request error info ledger =
    elim (without_request request.request_id info.wait_queue) [
      | none ↦ (info, ledger)
      | some queue ↦
          drain now (record info { wait_queue = queue })
            (record ledger { settled = rejected request.request_id error ∷ ledger.settled })
    ]

-- The loop of `releaseAll` and `reset` over requests that were collected first.
unfoldable pub cancel_each :
    ℕ → (Request → LockError) → List Request → LockInfo → Ledger → LockInfo × Ledger
unfolding cancel_in
cancel_each now error [] info ledger = (info, ledger)
cancel_each now error (r ∷ rs) info ledger =
    let (info', ledger') = cancel_in now r (error r) info ledger in
    cancel_each now error rs info' ledger'
