-- ===== src/Lock/Holders.antt =====
-- The holders of a lock of LockManager.js: which modes stand together.
use collab_write.Prelude.{
  ℕ, ◌≡◌, ◌≢◌, refl, subst, true, false, ◌||◌, Option, some, [], ◌∷◌, eqb, nat_key, arith,
  Bool-cases, inl, inr,
}
use collab_write.Prelude.Map
use collab_write.Prelude.Map.{Map}
use collab_write.Lock.Entry.{
  Mode, shared, exclusive, is_compatible, Request, all_compatible, is_upgrade, grantable,
}

-- Two transactions hold a lock together only if both share it; and no transaction stands twice.
pub record IsSafe (h : Map ℕ Mode) : Type 0 where
  pub distinct : Map.Distinct h
  pub compatible :
      (a b : ℕ) (m n : Mode) → Map.get a h ≡ some m → Map.get b h ≡ some n → a ≢ b → m ≡ shared

pub empty-IsSafe : IsSafe []
unfolding Map.get
empty-IsSafe = record { distinct = tt; compatible = λ a b m n p q d. absurd (cc) }

-- What the loop over the other holders finds out.
pub all_compatible-holder :
    (tx : ℕ) (mode : Mode) (h : Map ℕ Mode) (b : ℕ) (held : Mode)
    → all_compatible tx mode h ≡ true
    → Map.get b h ≡ some held
    → b ≢ tx
    → (mode ≡ shared) × (held ≡ shared)
unfolding all_compatible Map.get
all_compatible-holder tx mode [] b held c e n = absurd (cc)
all_compatible-holder tx mode ((j, m) ∷ h) b held c e n = elim (Bool-cases (eqb j b)) [
  | inl here ↦ ground arith
  | inr there ↦ all_compatible-holder tx mode h b held (ground arith) (ground arith) n
]

pub set-IsSafe :
    (tx : ℕ) (mode : Mode) (h : Map ℕ Mode)
    → IsSafe h
    → all_compatible tx mode h ≡ true
    → IsSafe (Map.set tx mode h)
set-IsSafe tx mode h s c = record {
  distinct = Map.set-Distinct tx mode h s.distinct;
  compatible = λ a b m n p q d. elim (Bool-cases (eqb tx a)) [
    | inl here ↦ ground (
      arith,
      Map.get-set tx a mode h,
      Map.get-set tx b mode h,
      all_compatible-holder tx mode h b n c,
    )
    | inr there ↦ ground (
      arith,
      Map.get-set tx a mode h,
      Map.get-set tx b mode h,
      all_compatible-holder tx mode h a m c,
      s.compatible a b m n,
    )
  ];
}

pub delete-IsSafe : (tx : ℕ) (h : Map ℕ Mode) → IsSafe h → IsSafe (Map.delete tx h)
delete-IsSafe tx h s = record {
  distinct = Map.delete-Distinct tx h s.distinct;
  compatible = λ a b m n p q d.
      s.compatible a b m n (Map.get-delete tx a h s.distinct p).0
        (Map.get-delete tx b h s.distinct q).0 d;
}

is_upgrade_many :
    (o : Option Mode) (mode : Mode) (p q : ℕ × Mode) (h : Map ℕ Mode)
    → is_upgrade o mode (p ∷ q ∷ h) ≡ false
unfolding is_upgrade
is_upgrade_many (some shared) exclusive p q h = ground arith
is_upgrade_many _ _ p q h = refl

-- The only holder has no other holders to be compatible with.
pub upgrade-all_compatible :
    (tx : ℕ) (mode : Mode) (h : Map ℕ Mode)
    → is_upgrade (Map.get tx h) mode h ≡ true
    → all_compatible tx mode h ≡ true
unfolding is_upgrade all_compatible Map.get
upgrade-all_compatible tx mode [] u = cc
upgrade-all_compatible tx mode ((j, m) ∷ []) u = ground arith
upgrade-all_compatible tx mode ((j, m) ∷ k ∷ h) u =
    absurd (ground (arith, is_upgrade_many (Map.get tx ((j, m) ∷ k ∷ h)) mode (j, m) k h))

pub grantable-all_compatible :
    (h : Map ℕ Mode) (next : Request) → grantable h next ≡ all_compatible next.tx_id next.mode h
unfolding grantable
grantable-all_compatible h next = ground (arith, upgrade-all_compatible next.tx_id next.mode h)

other :
    (j k : ℕ) (h : Map ℕ Mode) (m : Mode)
    → Map.has j h ≡ false
    → Map.get k h ≡ some m
    → eqb j k ≡ false
other j k h m absent g = elim (Bool-cases (eqb j k)) [
  | inl same ↦
      let p : j ≡ k = ground arith in
      absurd (ground (arith, Map.has_of_get k h g, subst (λ i. Map.has i h ≡ false) p absent))
  | inr differ ↦ differ
]

-- Where the loop over the other holders fails, one of them is in the way.
pub conflicting :
    (tx : ℕ) (mode : Mode) (h : Map ℕ Mode)
    → Map.Distinct h
    → all_compatible tx mode h ≡ false
    → (holder : ℕ) × (held : Mode) × (Map.get holder h ≡ some held)
      × (holder ≢ tx)
      × (is_compatible mode held ≡ false)
unfolding all_compatible Map.get
conflicting tx mode [] d c = absurd (cc)
conflicting tx mode ((j, m) ∷ h) d c = elim (Bool-cases (eqb j tx || is_compatible mode m)) [
  | inl fine ↦
      let (holder, held, g, n, x) = conflicting tx mode h d.1 (ground arith) in
      (holder, held, ground (arith, Map.get_absent j h d.0, other j holder h held d.0 g), n, x)
  | inr clash ↦ (j, m, ground arith, ground arith, ground arith)
]
