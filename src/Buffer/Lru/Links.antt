-- ===== src/Buffer/Lru/Links.antt =====
-- What a doubly linked list of LRUCache.js holds: the links of `linked` nodes spell out a list, and
-- the relinking of `unlink` and `linkFront` edits that list.
use mathlib.Core.List.{reverse, reverse-cons}
use collab_write.Prelude.{
  ℕ, suc, ◌+◌, ◌≡◌, refl, sym, ap, ◌∙◌, false, Option, none, some, List, [], ◌∷◌, ◌++◌, arith,
  mem-append, Nodup-left, Nodup-right, Nodup-apart, length, mem, Nodup, append_assoc,
}
use collab_write.Buffer.Lru.{write, walk}

abbrev pub first : List ℕ → Option ℕ → Option ℕ
first [] r = r
first (x ∷ xs) r = some x

abbrev pub last_of : Option ℕ → List ℕ → Option ℕ
last_of l [] = l
last_of l (x ∷ xs) = last_of (some x) xs

-- The nodes of the list are linked in its order; `l` and `r` are what its ends lead to.
abbrev pub Linked : (ℕ → Option ℕ) → (ℕ → Option ℕ) → Option ℕ → List ℕ → Option ℕ → Type 0
Linked prev next l [] r = Unit
Linked prev next l (x ∷ xs) r =
    (prev x ≡ l) × (next x ≡ first xs r) × Linked prev next (some x) xs r

abbrev pub write_at : (ℕ → Option ℕ) → Option ℕ → Option ℕ → ℕ → Option ℕ
write_at f none v = f
write_at f (some k) v = write f k v

module _ (prev next : ℕ → Option ℕ) where
  pub Linked-left :
      (l : Option ℕ) (ys zs : List ℕ) (r : Option ℕ)
      → Linked prev next l (ys ++ zs) r
      → Linked prev next l ys (first zs r)
  Linked-left l [] zs r h = tt
  Linked-left l (y ∷ []) [] r h = h
  Linked-left l (y ∷ []) (z ∷ zs) r h = (h.0, h.1, tt)
  Linked-left l (y ∷ y' ∷ ys) zs r h = (h.0, h.1, Linked-left (some y) (y' ∷ ys) zs r h.2)

  pub Linked-right :
      (l : Option ℕ) (ys zs : List ℕ) (r : Option ℕ)
      → Linked prev next l (ys ++ zs) r
      → Linked prev next (last_of l ys) zs r
  Linked-right l [] zs r h = h
  Linked-right l (y ∷ ys) zs r h = Linked-right (some y) ys zs r h.2

  pub Linked-append :
      (l : Option ℕ) (ys zs : List ℕ) (r : Option ℕ)
      → Linked prev next l ys (first zs r)
      → Linked prev next (last_of l ys) zs r
      → Linked prev next l (ys ++ zs) r
  Linked-append l [] zs r h k = k
  Linked-append l (y ∷ []) zs r h k = (h.0, h.1, k)
  Linked-append l (y ∷ y' ∷ ys) zs r h k = (h.0, h.1, Linked-append (some y) (y' ∷ ys) zs r h.2 k)

  -- Links of other nodes do not matter.
  pub Linked-write_prev :
      (k : ℕ) (v l : Option ℕ) (xs : List ℕ) (r : Option ℕ)
      → mem k xs ≡ false
      → Linked prev next l xs r
      → Linked (write prev k v) next l xs r
  Linked-write_prev k v l [] r m h = tt
  Linked-write_prev k v l (x ∷ xs) r m h =
      (ground arith, h.1, Linked-write_prev k v (some x) xs r (ground arith) h.2)

  pub Linked-write_next :
      (k : ℕ) (v l : Option ℕ) (xs : List ℕ) (r : Option ℕ)
      → mem k xs ≡ false
      → Linked prev next l xs r
      → Linked prev (write next k v) l xs r
  Linked-write_next k v l [] r m h = tt
  Linked-write_next k v l (x ∷ xs) r m h =
      (h.0, ground arith, Linked-write_next k v (some x) xs r (ground arith) h.2)

  write_at_last :
      (y z : ℕ) (ys : List ℕ) (v : Option ℕ)
      → mem y (z ∷ ys) ≡ false
      → write_at next (last_of (some z) ys) v y ≡ next y
  write_at_last y z [] v m = ground arith
  write_at_last y z (x ∷ ys) v m = write_at_last y x ys v (ground arith)

  -- The last node of a list is made to lead elsewhere.
  pub Linked-end :
      (l : Option ℕ) (ys : List ℕ) (r r' : Option ℕ)
      → Nodup ys
      → Linked prev next l ys r
      → Linked prev (write_at next (last_of l ys) r') l ys r'
  Linked-end l [] r r' d h = tt
  Linked-end l (y ∷ []) r r' d h = (h.0, ground arith, tt)
  Linked-end l (y ∷ y' ∷ ys) r r' d h =
      (h.0, write_at_last y y' ys r' d.0 ∙ h.1, Linked-end (some y) (y' ∷ ys) r r' d.1 h.2)

  -- The first node of a list is made to lead elsewhere.
  pub Linked-begin :
      (l l' : Option ℕ) (zs : List ℕ) (r : Option ℕ)
      → Nodup zs
      → Linked prev next l zs r
      → Linked (write_at prev (first zs none) l') next l' zs r
  Linked-begin l l' [] r d h = tt
  Linked-begin l l' (z ∷ zs) r d h =
      (ground arith, h.1, Linked-write_prev z l' (some z) zs r d.0 h.2)

  -- The walks read the list off, forwards and backwards.
  pub walk-Linked :
      (l : Option ℕ) (xs : List ℕ)
      → Linked prev next l xs none
      → walk (length xs) next (first xs none) ≡ xs
  unfolding walk
  walk-Linked l [] h = refl
  walk-Linked l (x ∷ xs) h =
      ap (◌∷◌ x) (ap (walk (length xs) next) h.1 ∙ walk-Linked (some x) xs h.2)

  pub walk_back-Linked :
      (l : Option ℕ) (xs : List ℕ) (r : Option ℕ) (n : ℕ)
      → Linked prev next l xs r
      → walk (length xs + n) prev (last_of l xs) ≡ reverse xs ++ walk n prev l
  unfolding walk
  walk_back-Linked l [] r n h = ap (λ k. walk k prev l) (omega arith)
  walk_back-Linked l (x ∷ xs) r n h =
      let e : suc (length xs) + n ≡ length xs + suc n = omega arith in
      ap (λ k. walk k prev (last_of (some x) xs)) e
      ∙ walk_back-Linked (some x) xs r (suc n) h.2
      ∙ ap (λ m. reverse xs ++ (x ∷ walk n prev m)) h.0
      ∙ sym (append_assoc (reverse xs) (x ∷ []) (walk n prev l))
      ∙ ap (λ t. t ++ walk n prev l) (sym (reverse-cons x xs))

-- The node that a link leads to is not on the list.
abbrev pub Absent : Option ℕ → List ℕ → Type 0
Absent none xs = Unit
Absent (some k) xs = mem k xs ≡ false

pub last_of-Absent :
    (l : Option ℕ) (ys zs : List ℕ) → Absent l zs → Nodup (ys ++ zs) → Absent (last_of l ys) zs
last_of-Absent l [] zs a d = a
last_of-Absent l (y ∷ ys) zs a d =
    last_of-Absent (some y) ys zs (ground (arith, mem-append y ys zs)) d.1

pub first-Absent : (ys zs : List ℕ) → Nodup (ys ++ zs) → Absent (first zs none) ys
first-Absent ys [] d = tt
first-Absent ys (z ∷ zs) d = Nodup-apart ys (z ∷ zs) z d (ground arith)

module _ (prev next : ℕ → Option ℕ) where
  pub Linked-write_at_prev :
      (o v l : Option ℕ) (xs : List ℕ) (r : Option ℕ)
      → Absent o xs
      → Linked prev next l xs r
      → Linked (write_at prev o v) next l xs r
  Linked-write_at_prev none v l xs r a h = h
  Linked-write_at_prev (some k) v l xs r a h = Linked-write_prev prev next k v l xs r a h

  pub Linked-write_at_next :
      (o v l : Option ℕ) (xs : List ℕ) (r : Option ℕ)
      → Absent o xs
      → Linked prev next l xs r
      → Linked prev (write_at next o v) l xs r
  Linked-write_at_next none v l xs r a h = h
  Linked-write_at_next (some k) v l xs r a h = Linked-write_next prev next k v l xs r a h

pub last_of-append :
    (l : Option ℕ) (ys : List ℕ) (z : ℕ) (zs : List ℕ)
    → last_of l (ys ++ z ∷ zs) ≡ last_of (some z) zs
last_of-append l [] z zs = refl
last_of-append l (y ∷ ys) z zs = last_of-append (some y) ys z zs

-- Cutting one node out of the list: the links of its neighbours are joined, its own are cleared.
pub Linked-cut :
    (prev next : ℕ → Option ℕ) (p : ℕ) (ys zs : List ℕ)
    → Nodup (ys ++ p ∷ zs)
    → Linked prev next none (ys ++ p ∷ zs) none
    → Linked
        (write (write_at prev (first zs none) (last_of none ys)) p none)
        (write (write_at next (last_of none ys) (first zs none)) p none)
        none
        (ys ++ zs)
        none
Linked-cut prev next p ys zs d h = Linked-write_prev _ _ p none none (ys ++ zs) none gone (
    Linked-write_next _ _ p none none (ys ++ zs) none gone
      (Linked-append _ _ none ys zs none left right))
  where
    dz : Nodup (p ∷ zs)
    dz = Nodup-right ys (p ∷ zs) d

    gone : mem p (ys ++ zs) ≡ false
    gone = ground (arith, mem-append p ys zs, Nodup-apart ys (p ∷ zs) p d (ground arith), dz)

    apart : Absent (last_of none ys) (p ∷ zs)
    apart = last_of-Absent none ys (p ∷ zs) tt d

    apart_tail : (o : Option ℕ) → Absent o (p ∷ zs) → Absent o zs
    apart_tail none a = tt
    apart_tail (some k) a = ground arith

    first_apart : (vs : List ℕ) → Nodup (ys ++ p ∷ vs) → Absent (first vs none) ys
    first_apart [] e = tt
    first_apart (v ∷ vs) e = Nodup-apart ys (p ∷ v ∷ vs) v e (ground arith)

    left :
        Linked
          (write_at prev (first zs none) (last_of none ys))
          (write_at next (last_of none ys) (first zs none))
          none
          ys
          (first zs none)
    left =
        Linked-write_at_prev prev _ (first zs none) (last_of none ys) none ys (first zs none)
          (first_apart zs d)
          (Linked-end prev next none ys (some p) (first zs none) (Nodup-left ys (p ∷ zs) d)
            (Linked-left prev next none ys (p ∷ zs) none h))

    right :
        Linked
          (write_at prev (first zs none) (last_of none ys))
          (write_at next (last_of none ys) (first zs none))
          (last_of none ys)
          zs
          none
    right =
        Linked-write_at_next _ next (last_of none ys) (first zs none) (last_of none ys) zs none
          (apart_tail (last_of none ys) apart)
          (Linked-begin prev next (some p) (last_of none ys) zs none dz.1
            (Linked-right prev next none ys (p ∷ zs) none h).2)
