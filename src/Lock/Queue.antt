-- ===== src/Lock/Queue.antt =====
-- The invariant of one entry of LockManager.js, kept by every loop that works on an entry.
use mathlib.Core.List.{reverse, reverse-cons}
use collab_write.Prelude.{
  ℕ, ◌+◌, ◌≡◌, refl, sym, ap, ◌∙◌, true, false, not, List, [], ◌∷◌, ◌++◌, eqb, length, any, map,
  append_assoc, nat_key, arith, Option-cases, Bool-cases, inl, inr, ◌⊎◌,
}
use collab_write.Prelude.Map
use collab_write.Prelude.Map.{Map}
use collab_write.Lock.Entry.{
  grant_next, Mode, exclusive, Request, LockInfo, LockError, Ledger, Settlement, resolved, rejected,
  all_compatible, grantable, drain_queue, drain, without_request, cancel_in, cancel_each,
}
use collab_write.Lock.Holders.{IsSafe, empty-IsSafe, set-IsSafe, grantable-all_compatible}

-- The request in front conflicts with a lock that another transaction holds.
abbrev pub IsBlocked : List Request → Map ℕ Mode → Type 0
IsBlocked [] h = Unit
IsBlocked (r ∷ rs) h = all_compatible r.tx_id r.mode h ≡ false

-- The holders are compatible, and no request waits that could be granted: nobody sleeps through
-- the release of the lock that it waits for.
pub record IsValid (info : LockInfo) : Type 0 where
  pub safe : IsSafe info.holders
  pub blocked : IsBlocked info.wait_queue info.holders

pub empty-IsValid : IsValid (record { holders = []; wait_queue = [] })
empty-IsValid = record { safe = empty-IsSafe; blocked = tt }

pub drain_queue-IsValid :
    (now : ℕ) (q : List Request) (h : Map ℕ Mode) (l : Ledger)
    → IsSafe h
    → IsValid (drain_queue now q h l).0
unfolding drain_queue
drain_queue-IsValid now [] h l s = record { safe = s; blocked = tt }
drain_queue-IsValid now (next ∷ q) h l s = elim (Bool-cases (grantable h next)) [
  | inl yes' ↦
      rw (yes', drain_queue)
        (drain_queue-IsValid now q (Map.set next.tx_id next.mode h) _
          (set-IsSafe next.tx_id next.mode h s (sym (grantable-all_compatible h next) ∙ yes')))
  | inr no' ↦
      rw (no', drain_queue)
        (record { safe = s; blocked = sym (grantable-all_compatible h next) ∙ no' })
]

pub drain-IsValid :
    (now : ℕ) (info : LockInfo) (l : Ledger) → IsSafe info.holders → IsValid (drain now info l).0
unfolding drain
drain-IsValid now info l s = drain_queue-IsValid now info.wait_queue info.holders l s

pub cancel_in-IsValid :
    (now : ℕ) (r : Request) (error : LockError) (info : LockInfo) (l : Ledger)
    → IsValid info
    → IsValid (cancel_in now r error info l).0
unfolding cancel_in
cancel_in-IsValid now r error info l v =
    elim (Option-cases (without_request r.request_id info.wait_queue)) [
      | inl e ↦ rw (e, cancel_in) v
      | inr (q, e) ↦ rw (e, cancel_in) (drain-IsValid now (record info { wait_queue = q }) _ v.safe)
    ]

pub cancel_each-IsValid :
    (now : ℕ) (error : Request → LockError) (rs : List Request) (info : LockInfo) (l : Ledger)
    → IsValid info
    → IsValid (cancel_each now error rs info l).0
unfolding cancel_each
cancel_each-IsValid now error [] info l v = v
cancel_each-IsValid now error (r ∷ rs) info l v =
    cancel_each-IsValid now error rs (cancel_in now r (error r) info l).0
      (cancel_in now r (error r) info l).1 (cancel_in-IsValid now r (error r) info l v)

-- A holder that another request conflicts with: the loop's answer stays no, whoever else is added.
pub blocked-set :
    (tx : ℕ) (mode : Mode) (t : ℕ) (m : Mode) (h : Map ℕ Mode)
    → all_compatible t m h ≡ false
    → (eqb tx t ≡ true) ⊎ (mode ≡ exclusive)
    → all_compatible t m (Map.set tx mode h) ≡ false
unfolding all_compatible Map.set
blocked-set tx mode t m [] b x = absurd (cc)
blocked-set tx mode t m ((j, k) ∷ h) b x = elim (Bool-cases (eqb j tx)) [
  | inl here ↦ rw here (ground arith)
  | inr there ↦ rw there (ground (arith, blocked-set tx mode t m h))
]

pub IsBlocked-set :
    (tx : ℕ) (mode : Mode) (q : List Request) (h : Map ℕ Mode)
    → IsBlocked q h
    → (any (λ r. not (eqb r.tx_id tx)) q ≡ false) ⊎ (mode ≡ exclusive)
    → IsBlocked q (Map.set tx mode h)
IsBlocked-set tx mode [] h b x = tt
IsBlocked-set tx mode (r ∷ q) h b x = blocked-set tx mode r.tx_id r.mode h b (ground arith)

-- A request at the end of the queue does not move the front; alone, it is the front.
pub IsBlocked-push :
    (q : List Request) (r : Request) (h : Map ℕ Mode)
    → IsBlocked q h
    → ((q ≡ []) → all_compatible r.tx_id r.mode h ≡ false)
    → IsBlocked (q ++ r ∷ []) h
IsBlocked-push [] r h b f = f refl
IsBlocked-push (x ∷ q) r h b f = b

-- The requests whose promises a drain resolves, newest first.
pub resolved_ids : List Settlement → List ℕ
resolved_ids [] = []
resolved_ids (resolved request waited_ms upgraded ∷ l) = request ∷ resolved_ids l
resolved_ids (rejected request error ∷ l) = resolved_ids l

abbrev pub ids : List Request → List ℕ
ids = map (λ r. r.request_id)

-- Requests that a drain may serve one after the other: each is compatible with every other
-- transaction that holds a lock at its turn, the requests served before it included.
pub Served : List Request → Map ℕ Mode → Type 0
Served [] h = Unit
Served (r ∷ rs) h = (all_compatible r.tx_id r.mode h ≡ true) × Served rs (Map.set r.tx_id r.mode h)

-- The holders when the requests have their locks.
pub holding : List Request → Map ℕ Mode → Map ℕ Mode
holding [] h = h
holding (r ∷ rs) h = holding rs (Map.set r.tx_id r.mode h)

-- A drain serves a prefix of the queue: each request of it is compatible, at its turn, with the
-- locks of the other transactions; it becomes a holder in its mode; its promise is resolved, in
-- the queue's order, and counted. The rest of the queue waits in its order, and its first request
-- conflicts with a lock that another transaction then holds.
pub drain_queue-prefix :
    (now : ℕ) (q : List Request) (h : Map ℕ Mode) (l : Ledger)
    → (served : List Request) × (q ≡ served ++ (drain_queue now q h l).0.wait_queue)
      × Served served h
      × ((drain_queue now q h l).0.holders ≡ holding served h)
      × IsBlocked (drain_queue now q h l).0.wait_queue (drain_queue now q h l).0.holders
      × (resolved_ids (drain_queue now q h l).1.settled
          ≡ reverse (ids served) ++ resolved_ids l.settled)
      × ((drain_queue now q h l).1.granted ≡ l.granted + length served)
unfolding drain_queue resolved_ids grant_next Served holding
drain_queue-prefix now [] h l = ([], refl, tt, refl, tt, refl, omega arith)
drain_queue-prefix now (next ∷ q) h l = elim (Bool-cases (grantable h next)) [
  | inl go ↦
      let (served, e, c, a, b, r, n) =
        drain_queue-prefix now q (Map.set next.tx_id next.mode h) (grant_next now h next l) in
      (
        next ∷ served,
        rw (go, drain_queue) (ap (◌∷◌ next) e),
        (sym (grantable-all_compatible h next) ∙ go, c),
        rw (go, drain_queue) a,
        rw (go, drain_queue) b,
        rw (go, drain_queue)
            (r
              ∙ sym (
                  append_assoc (reverse (ids served)) (next.request_id ∷ [])
                    (resolved_ids l.settled))
              ∙ ap (λ t. t ++ resolved_ids l.settled)
                  (sym (reverse-cons next.request_id (ids served)))),
        rw (go, drain_queue) (omega (arith, n)),
      )
  | inr stop ↦ (
    [],
    rw (stop, drain_queue),
    tt,
    rw (stop, drain_queue),
    rw (stop, drain_queue) (sym (grantable-all_compatible h next) ∙ stop),
    rw (stop, drain_queue),
    rw (stop, drain_queue) (omega arith),
  )
]
