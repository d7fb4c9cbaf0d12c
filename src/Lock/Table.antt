-- ===== src/Lock/Table.antt =====
-- The whole lock table of LockManager.js: every call keeps every entry valid.
use collab_write.Prelude.{
  ℕ, ◌≡◌, refl, ap, subst, true, false, not, Option, some, [], ◌∷◌, ◌++◌, eqb, any, filter, All,
  Key, nat_key, arith, Option-cases, Bool-cases, inl, inr,
}
use collab_write.Prelude.Map
use collab_write.Prelude.Map.{Map}
use collab_write.Lock.Entry.{
  Mode, shared, exclusive, Request, LockInfo, LockError, Ledger, is_upgrade, can_grant, cancel_each,
  aborted, timed_out,
}
use collab_write.Lock.{
  LockManager, get_or_create, covers, acquire_in, acquire, release, cancel_request, time_out,
  release_entry, release_entries, prune_empty, is_used, release_all,
}
use collab_write.Lock.Holders.{set-IsSafe, delete-IsSafe, upgrade-all_compatible}
use collab_write.Lock.Queue.{
  IsValid, empty-IsValid, drain-IsValid, cancel_in-IsValid, cancel_each-IsValid, IsBlocked-set,
  IsBlocked-push,
}

upgrade-exclusive :
    (held : Option Mode) (mode : Mode) (h : Map ℕ Mode)
    → is_upgrade held mode h ≡ true
    → mode ≡ exclusive
unfolding is_upgrade
upgrade-exclusive (some shared) exclusive h u = refl
upgrade-exclusive _ _ h u = absurd (cc)

-- The entry that `acquire` leaves behind, on each of its branches.
upgraded-IsValid :
    (tx : ℕ) (mode : Mode) (info : LockInfo)
    → IsValid info
    → is_upgrade (Map.get tx info.holders) mode info.holders ≡ true
    → IsValid (record info { holders = Map.set tx mode info.holders })
upgraded-IsValid tx mode info v u = record {
  safe = set-IsSafe tx mode info.holders v.safe (upgrade-all_compatible tx mode info.holders u);
  blocked =
      IsBlocked-set tx mode info.wait_queue info.holders v.blocked
        (inr (upgrade-exclusive (Map.get tx info.holders) mode info.holders u));
}

granted-IsValid :
    (tx : ℕ) (mode : Mode) (info : LockInfo)
    → IsValid info
    → can_grant info tx mode ≡ true
    → IsValid (record info { holders = Map.set tx mode info.holders })
unfolding can_grant
granted-IsValid tx mode info v g = record {
  safe = set-IsSafe tx mode info.holders v.safe (ground arith);
  blocked = IsBlocked-set tx mode info.wait_queue info.holders v.blocked (inl (ground arith));
}

queued-IsValid :
    (r : Request) (info : LockInfo)
    → IsValid info
    → can_grant info r.tx_id r.mode ≡ false
    → IsValid (record info { wait_queue = info.wait_queue ++ r ∷ [] })
unfolding can_grant
queued-IsValid r info v g = record {
  safe = v.safe;
  blocked =
      IsBlocked-push info.wait_queue r info.holders v.blocked
        (λ q. ground (arith, ap (any (λ x. not (eqb x.tx_id r.tx_id))) q));
}

release_entry-IsValid :
    (tx now : ℕ) (info : LockInfo) (l : Ledger)
    → IsValid info
    → IsValid (release_entry tx now info l).0
unfolding release_entry
release_entry-IsValid tx now info l v =
    let c =
      cancel_each now (λ _. aborted tx) (filter (λ r. eqb r.tx_id tx) info.wait_queue) info l in
    let w =
      cancel_each-IsValid now (λ _. aborted tx) (filter (λ r. eqb r.tx_id tx) info.wait_queue) info
        l v in
    elim (Bool-cases (Map.has tx c.0.holders)) [
      | inl held ↦ rw held (
          drain-IsValid now (record c.0 { holders = Map.delete tx c.0.holders }) c.1
            (delete-IsSafe tx c.0.holders w.safe))
      | inr free ↦ rw free w
    ]

module _ {R : Type 0} ⦃e : Key R⦄ where
  -- Every entry of the table is valid.
  abbrev pub Valid : Map R LockInfo → Type 0
  Valid = All (λ p. IsValid p.1)

  pub get-Valid :
      (r : R) (t : Map R LockInfo) (info : LockInfo)
      → Valid t
      → Map.get r t ≡ some info
      → IsValid info
  unfolding Map.get
  get-Valid r [] info v h = absurd (cc)
  get-Valid r ((j, i) ∷ t) info v h = elim (Bool-cases (e.same j r)) [
    | inl here ↦ let q : i ≡ info = ground arith in subst IsValid q v.0
    | inr there ↦ get-Valid r t info v.1 (ground arith)
  ]

  set-Valid :
      (r : R) (info : LockInfo) (t : Map R LockInfo)
      → IsValid info
      → Valid t
      → Valid (Map.set r info t)
  unfolding Map.set
  set-Valid r info [] i v = (i, tt)
  set-Valid r info ((j, k) ∷ t) i v = elim (Bool-cases (e.same j r)) [
    | inl here ↦ rw here (i, v.1)
    | inr there ↦ rw there (v.0, set-Valid r info t i v.1)
  ]

  get_or_create-IsValid : (r : R) (t : Map R LockInfo) → Valid t → IsValid (get_or_create r t)
  unfolding get_or_create
  get_or_create-IsValid r t v = elim (Option-cases (Map.get r t)) [
    | inl h ↦ rw (h, get_or_create) empty-IsValid
    | inr (info, h) ↦ rw (h, get_or_create) (get-Valid r t info v h)
  ]

  acquire_in-Valid :
      (tx : ℕ) (r : R) (mode : Mode) (now : ℕ) (info : LockInfo) (m : LockManager R)
      → IsValid info
      → Valid m.lock_table
      → Valid (acquire_in tx r mode now info m).0.lock_table
  unfolding acquire_in
  acquire_in-Valid tx r mode now info m i v =
      elim (Bool-cases (covers (Map.get tx info.holders) mode)) [
        | inl c ↦ rw c (set-Valid r info m.lock_table i v)
        | inr c ↦ elim (Bool-cases (is_upgrade (Map.get tx info.holders) mode info.holders)) [
          | inl u ↦ rw (c, u) (set-Valid r _ m.lock_table (upgraded-IsValid tx mode info i u) v)
          | inr u ↦ elim (Bool-cases (can_grant info tx mode)) [
            | inl g ↦ rw (c, u, g) (set-Valid r _ m.lock_table (granted-IsValid tx mode info i g) v)
            | inr g ↦
                rw (c, u, g)
                  (set-Valid r _ m.lock_table
                    (queued-IsValid
                      (record {
                        request_id = m.next_request;
                        tx_id = tx;
                        mode = mode;
                        enqueued_at = now;
                      })
                      info i g)
                    v)
          ]
        ]
      ]

  pub acquire-Valid :
      (tx : ℕ) (r : R) (mode : Mode) (now : ℕ) (m : LockManager R)
      → Valid m.lock_table
      → Valid (acquire tx r mode now m).0.lock_table
  unfolding acquire
  acquire-Valid tx r mode now m v =
      acquire_in-Valid tx r mode now (get_or_create r m.lock_table) m
        (get_or_create-IsValid r m.lock_table v) v

  pub release-Valid :
      (tx : ℕ) (r : R) (now : ℕ) (m : LockManager R)
      → Valid m.lock_table
      → Valid (release tx r now m).lock_table
  unfolding release
  release-Valid tx r now m v = elim (Option-cases (Map.get r m.lock_table)) [
    | inl h ↦ rw (h, release) v
    | inr (info, h) ↦
        rw (h, release)
          (set-Valid r _ m.lock_table
            (drain-IsValid now (record info { holders = Map.delete tx info.holders }) m.ledger
              (delete-IsSafe tx info.holders (get-Valid r m.lock_table info v h).safe))
            v)
  ]

  pub cancel-Valid :
      (r : R) (request : Request) (error : LockError) (now : ℕ) (m : LockManager R)
      → Valid m.lock_table
      → Valid (cancel_request r request error now m).lock_table
  unfolding cancel_request
  cancel-Valid r request error now m v = elim (Option-cases (Map.get r m.lock_table)) [
    | inl h ↦ rw (h, cancel_request) v
    | inr (info, h) ↦
        rw (h, cancel_request)
          (set-Valid r _ m.lock_table
            (cancel_in-IsValid now request error info m.ledger (get-Valid r m.lock_table info v h))
            v)
  ]

  release_entries-Valid :
      (tx now : ℕ) (t : Map R LockInfo) (l : Ledger)
      → Valid t
      → Valid (release_entries tx now t l).0
  unfolding release_entries
  release_entries-Valid tx now [] l v = tt
  release_entries-Valid tx now ((r, info) ∷ t) l v = (
    release_entry-IsValid tx now info l v.0,
    release_entries-Valid tx now t (release_entry tx now info l).1 v.1,
  )

  prune-Valid : (t : Map R LockInfo) → Valid t → Valid (prune_empty t)
  unfolding prune_empty
  prune-Valid [] v = tt
  prune-Valid ((r, info) ∷ t) v = elim (Bool-cases (is_used info)) [
    | inl used ↦ rw used (v.0, prune-Valid t v.1)
    | inr idle ↦ rw idle (prune-Valid t v.1)
  ]

  pub release_all-Valid :
      (tx now : ℕ) (m : LockManager R)
      → Valid m.lock_table
      → Valid (release_all tx now m).lock_table
  unfolding release_all
  release_all-Valid tx now m v =
      prune-Valid (release_entries tx now m.lock_table m.ledger).0
        (release_entries-Valid tx now m.lock_table m.ledger v)

  pub time_out-Valid :
      (r : R) (request : Request) (now : ℕ) (m : LockManager R)
      → Valid m.lock_table
      → Valid (time_out r request now m).lock_table
  unfolding time_out
  time_out-Valid r request now m v =
      cancel-Valid r request (timed_out request.tx_id m.timeout_ms) now m v
