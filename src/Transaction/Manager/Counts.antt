-- ===== src/Transaction/Manager/Counts.antt =====
-- The counters and the map of the active transactions in
-- src/engine/transaction/TransactionManager.js, and what a call may do to them.
use collab_write.Prelude.{
  ℕ, ◌+◌, ◌≡◌, ◌<◌, refl, sym, subst, ◌∙◌, true, false, Option, none, some, List, [], ◌∷◌, ◌++◌,
  ◌⊎◌, inl, inr, mem, mem-append, without, length, All, Nodup, arith, without-Nodup, length-without,
  length-append, if_intro, option_intro,
}
use collab_write.Recovery.Wal.{append, begin_code}
use collab_write.Transaction.{Transaction, TxState, active, is_active, create}
use collab_write.Transaction.Manager.{
  TransactionManager, Stats, Fault, Reply, ok, thrown, log_failed, log, begin, assert_active,
}

add_new : (x : ℕ) (xs : List ℕ) → All (λ y. y < x) xs → mem x xs ≡ false
add_new x [] h = refl
add_new x (y ∷ xs) (h, hs) = ground (arith, h, add_new x xs hs)

append-Nodup : (xs : List ℕ) (x : ℕ) → Nodup xs → mem x xs ≡ false → Nodup (xs ++ x ∷ [])
append-Nodup [] x h e = (refl, tt)
append-Nodup (y ∷ xs) x (f, h) e =
    (mem-append y xs (x ∷ []) ∙ ground (arith, f, e), append-Nodup xs x h (ground (arith, e)))

append-All : (xs : List ℕ) (x : ℕ) → All (λ y. y < x) xs → All (λ y. y < x + 1) (xs ++ x ∷ [])
append-All [] x h = (omega arith, tt)
append-All (y ∷ xs) x (h, hs) = (omega (arith, h), append-All xs x hs)

without-All : (n a : ℕ) (xs : List ℕ) → All (λ y. y < n) xs → All (λ y. y < n) (without a xs)
without-All n a [] h = tt
without-All n a (y ∷ xs) (h, hs) = ground (arith, h, without-All n a xs hs)

later : (n : ℕ) (xs : List ℕ) → All (λ y. y < n) xs → All (λ y. y < n + 1) xs
later n [] h = tt
later n (y ∷ xs) (h, hs) = (omega (arith, h), later n xs hs)

-- As many transactions began as were committed, were aborted or are in the map, where each id stands
-- once and was given out.
pub record IsAccounted (stats : Stats) (ids : List ℕ) (next : ℕ) : Type 0 where
  pub total : stats.begun ≡ stats.committed + stats.aborted + length ids
  pub once : Nodup ids
  pub issued : All (λ k. k < next) ids

module _ {State Pool R : Type 0} where
  abbrev pub Accounted : TransactionManager State Pool R → Type 0
  Accounted m = IsAccounted m.stats m.active_ids m.next_tx_id

  -- The same map and the same counters.
  abbrev pub Same : TransactionManager State Pool R → TransactionManager State Pool R → Type 0
  Same m m' = (m'.stats ≡ m.stats) × (m'.active_ids ≡ m.active_ids) × (m'.next_tx_id ≡ m.next_tx_id)

  -- What `begin` does: the next id is used up; the transaction that it returns has it, is active,
  -- joins the map and is counted, or the log throws, and the map and the counters stay.
  unfoldable pub Begun :
      TransactionManager State Pool R
      → TransactionManager State Pool R × Reply (Transaction R (List ℕ))
      → Type 0
  Begun m (m', reply) =
      (m'.next_tx_id ≡ m.next_tx_id + 1)
      × (((t : Transaction R (List ℕ)) × (reply ≡ ok t)
            × (t.tx_id ≡ m.next_tx_id)
            × (t.state ≡ active)
            × (m'.active_ids ≡ m.active_ids ++ m.next_tx_id ∷ [])
            × (m'.stats ≡ record m.stats { begun = m.stats.begun + 1 }))
          ⊎ ((reply ≡ thrown log_failed)
              × ((append begin_code m.next_tx_id 0 none none false m.wal).1 ≡ none)
              × (m'.active_ids ≡ m.active_ids)
              × (m'.stats ≡ m.stats)))

  -- What the end of `t` does, with the counters that it leaves: `t` has the state, it alone leaves
  -- the map, and it is counted; or the call throws, for a reason that it has, and the state of `t`, the
  -- map and the counters stay.
  unfoldable pub Ended :
      (Fault → Type 0)
      → TxState
      → Stats
      → Transaction R (List ℕ)
      → TransactionManager State Pool R
      → TransactionManager State Pool R × Transaction R (List ℕ) × Option Fault
      → Type 0
  Ended Throws state counted t m (m', u, fault) =
      ((fault ≡ none)
        × (u.state ≡ state)
        × (m'.active_ids ≡ without t.tx_id m.active_ids)
        × (m'.stats.begun ≡ counted.begun)
        × (m'.stats.committed ≡ counted.committed)
        × (m'.stats.aborted ≡ counted.aborted)
        × (m'.next_tx_id ≡ m.next_tx_id))
      ⊎ ((f : Fault) × (fault ≡ some f) × Throws f × (u.state ≡ t.state) × Same m m')

  pub begin-Begun :
      (now : ℕ) (m : TransactionManager State Pool R) → Accounted m → Begun m (begin now m)
  unfolding Begun begin log create
  begin-Begun now m h =
      let k = m.next_tx_id in
      let new = add_new k m.active_ids h.issued in
      let r = append begin_code k 0 none none false m.wal in
      option_intro (Begun m) r.1 _ _ (λ e. (refl, inr (refl, e, refl, refl)))
        (λ n e. (refl, inl (_, refl, refl, refl, rw new refl, refl)))

  pub Begun-Accounted :
      (m : TransactionManager State Pool R)
      (r : TransactionManager State Pool R × Reply (Transaction R (List ℕ)))
      → Accounted m
      → Begun m r
      → Accounted r.0
  unfolding Begun
  Begun-Accounted m (m', reply) h (next, inl (t, _, _, _, ids, stats)) =
      let k = m.next_tx_id in
      rw (next, ids, stats)
        (record {
          total = omega (arith, h.total, length-append m.active_ids (k ∷ []));
          once = append-Nodup m.active_ids k h.once (add_new k m.active_ids h.issued);
          issued = append-All m.active_ids k h.issued;
        })
  Begun-Accounted m (m', reply) h (next, inr (_, _, ids, stats)) =
      rw (next, ids, stats)
        (record {
          total = h.total;
          once = h.once;
          issued = later m.next_tx_id m.active_ids h.issued;
        })

  Same-Accounted : (m m' : TransactionManager State Pool R) → Same m m' → Accounted m → Accounted m'
  Same-Accounted m m' (s, a, n) h =
      subst (λ x. IsAccounted x m'.active_ids m'.next_tx_id) (sym s)
        (subst (λ x. IsAccounted m.stats x m'.next_tx_id) (sym a)
          (subst (λ x. IsAccounted m.stats m.active_ids x) (sym n) h))

  pub Ended-Accounted :
      (Throws : Fault → Type 0) (state : TxState) (counted : Stats) (t : Transaction R (List ℕ))
      (m : TransactionManager State Pool R)
      (r : TransactionManager State Pool R × Transaction R (List ℕ) × Option Fault)
      → counted.begun ≡ m.stats.begun
      → counted.committed + counted.aborted ≡ m.stats.committed + m.stats.aborted + 1
      → Accounted m
      → mem t.tx_id m.active_ids ≡ true
      → Ended Throws state counted t m r
      → Accounted r.0
  unfolding Ended
  Ended-Accounted Throws state counted t m (m', u, fault) b c h r
        (inl (_, _, ids, nb, nc, na, next)) =
      rw (ids, next)
        (record {
          total =
              omega
                (arith, b, c, nb, nc, na, h.total, length-without t.tx_id m.active_ids h.once r);
          once = without-Nodup t.tx_id m.active_ids h.once;
          issued = without-All m.next_tx_id t.tx_id m.active_ids h.issued;
        })
  Ended-Accounted Throws state counted t m (m', u, fault) b c h r (inr (_, _, _, _, same)) =
      Same-Accounted m m' same h

  pub assert_active-Same :
      (t : Transaction R (List ℕ)) (m : TransactionManager State Pool R)
      → Same m (assert_active t m).0
  unfolding assert_active
  assert_active-Same t m =
      if_intro (λ (x : TransactionManager State Pool R × Option Fault). Same m x.0)
        (mem t.tx_id m.deadlock_victims) _ _ (λ h. (refl, refl, refl))
        (λ h.
          if_intro (λ (x : TransactionManager State Pool R × Option Fault). Same m x.0)
            (is_active t) _ _ (λ g. (refl, refl, refl)) (λ g. (refl, refl, refl)))
