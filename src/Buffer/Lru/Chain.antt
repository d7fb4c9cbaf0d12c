-- ===== src/Buffer/Lru/Chain.antt =====
-- What the writes of src/engine/buffer/LRUCache.js do to the ends, the links and the nodes.
use collab_write.Prelude.{
  subst, ℕ, suc, ◌≡◌, refl, sym, ap, ◌∙◌, true, false, ◌||◌, Option, none, some, List, [], ◌∷◌,
  ◌++◌, arith, eqb, length, mem, Nodup, without, append-nil, if◌then◌else◌, nat_key, Bool-cases,
  ◌≢◌, inl, inr, mem-Split, mem-without, without-Nodup, without_absent, length-without,
}
use collab_write.Prelude.Map
use collab_write.Buffer.Lru.{
  LruCache, write, empty, link_front, unlink, touch, remove, or_node, link_head,
}
use collab_write.Buffer.Lru.Links.{
  first, last_of, Linked, write_at, Linked-right, Linked-write_prev, Linked-write_next,
  Linked-begin, Linked-cut, Absent, last_of-Absent, last_of-append,
}

-- The ends and the links of the cache spell out the list.
pub record Chained (c : LruCache) (xs : List ℕ) : Type 0 where
  pub front : c.head ≡ first xs none
  pub back : c.tail ≡ last_of none xs
  pub linked : Linked c.prev c.next none xs none

-- The cache stands for the list `xs`, most recently used first.
pub record Rep (c : LruCache) (xs : List ℕ) : Type 0 where
  pub chained : Chained c xs
  pub nodup : Nodup xs
  pub tracked : (k : ℕ) → Map.has k c.nodes ≡ mem k xs
  pub count : length c.nodes ≡ length xs
  pub keyed : Map.Distinct c.nodes

pub empty-Rep : Rep empty []
unfolding empty Map.has
empty-Rep = record {
  chained = record { front = refl; back = refl; linked = tt };
  nodup = tt;
  tracked = λ k. refl;
  count = refl;
  keyed = tt;
}

or_node-last_of : (x p : ℕ) (xs : List ℕ) → or_node (last_of (some x) xs) p ≡ last_of (some x) xs
unfolding or_node
or_node-last_of x p [] = refl
or_node-last_of x p (y ∷ xs) = or_node-last_of y p xs

link_front-Chained :
    (p : ℕ) (c : LruCache) (xs : List ℕ)
    → mem p xs ≡ false
    → Nodup xs
    → Chained c xs
    → Chained (link_front p c) (p ∷ xs)
unfolding link_front
link_front-Chained p c [] m d h = ground arith
link_front-Chained p c (x ∷ xs) m d h = record {
  front = refl;
  back = ap (λ t. or_node t p) h.back ∙ or_node-last_of x p xs;
  linked =
      subst
        (λ hd.
          Linked (link_head hd p (write c.prev p none)) (write c.next p hd) none (p ∷ x ∷ xs) none)
        (sym h.front)
        (
          ground arith,
          ground arith,
          Linked-begin (write c.prev p none) (write c.next p (some x)) none (some p) (x ∷ xs) none d
              (Linked-write_next (write c.prev p none) c.next p (some x) none (x ∷ xs) none m
                (Linked-write_prev c.prev c.next p none none (x ∷ xs) none m h.linked)),
        );
}

-- What `unlink` writes, for the two neighbours of the node.
record Unlinked (p : ℕ) (c d : LruCache) (a b : Option ℕ) : Type 0 where
  prev_links : d.prev ≡ write (write_at c.prev b a) p none
  next_links : d.next ≡ write (write_at c.next a b) p none
  new_head : d.head ≡ elim a [ none ↦ b | some _ ↦ c.head ]
  new_tail : d.tail ≡ elim b [ none ↦ a | some _ ↦ c.tail ]
  same_nodes : d.nodes ≡ c.nodes

unlink-Unlinked :
    (p : ℕ) (c : LruCache) (a b : Option ℕ)
    → c.prev p ≡ a
    → c.next p ≡ b
    → a ≢ some p
    → Unlinked p c (unlink p c) a b
unfolding unlink
unlink-Unlinked p c a b ea eb ne = ground arith

-- The new head and tail are the ends of the shorter list.
head-cut :
    (y : ℕ) (ys : List ℕ) (b h : Option ℕ)
    → (elim (last_of (some y) ys) [ none ↦ b | some _ ↦ h ]) ≡ h
head-cut y [] b h = refl
head-cut y (z ∷ ys) b h = head-cut z ys b h

front-cut :
    (ys zs : List ℕ) (p : ℕ) (hd : Option ℕ)
    → hd ≡ first (ys ++ p ∷ zs) none
    → (elim (last_of none ys) [ none ↦ first zs none | some _ ↦ hd ]) ≡ first (ys ++ zs) none
front-cut [] zs p hd e = refl
front-cut (y ∷ ys) zs p hd e = head-cut y ys (first zs none) hd ∙ e

back-cut :
    (ys zs : List ℕ) (p : ℕ) (tl : Option ℕ)
    → tl ≡ last_of none (ys ++ p ∷ zs)
    → (elim (first zs none) [ none ↦ last_of none ys | some _ ↦ tl ]) ≡ last_of none (ys ++ zs)
back-cut ys [] p tl e = ap (last_of none) (sym (append-nil ys))
back-cut ys (z ∷ zs) p tl e =
    e ∙ last_of-append none ys p (z ∷ zs) ∙ sym (last_of-append none ys z zs)

unlink-Chained :
    (p : ℕ) (c : LruCache) (ys zs : List ℕ)
    → Nodup (ys ++ p ∷ zs)
    → Chained c (ys ++ p ∷ zs)
    → Chained (unlink p c) (ys ++ zs)
unlink-Chained p c ys zs d h =
    let (pa, pb, _) = Linked-right c.prev c.next none ys (p ∷ zs) none h.linked in
    let apart = last_of-Absent none ys (p ∷ zs) tt d in
    let u =
      unlink-Unlinked p c (last_of none ys) (first zs none) pa pb
        (λ e. not_last (last_of none ys) zs e apart) in
    record {
      front = u.new_head ∙ front-cut ys zs p c.head h.front;
      back = u.new_tail ∙ back-cut ys zs p c.tail h.back;
      linked = rw (u.prev_links, u.next_links) (Linked-cut c.prev c.next p ys zs d h.linked);
    }
  where
    not_last : (o : Option ℕ) (vs : List ℕ) → o ≡ some p → Absent o (p ∷ vs) → ⊥
    not_last none vs e a = cc
    not_last (some k) vs e a = ground arith

unlink-without :
    (p : ℕ) (c : LruCache) (xs : List ℕ)
    → Nodup xs
    → mem p xs ≡ true
    → Chained c xs
    → Chained (unlink p c) (without p xs)
unlink-without p c xs d m h =
    let (ys, zs, e, f) = mem-Split p xs d m in
    rw f (unlink-Chained p c ys zs (subst Nodup e d) (subst (Chained c) e h))

unlink-nodes : (p : ℕ) (c : LruCache) → (unlink p c).nodes ≡ c.nodes
unfolding unlink
unlink-nodes p c = ground arith

link_front-nodes : (p : ℕ) (c : LruCache) → (link_front p c).nodes ≡ c.nodes
unfolding link_front
link_front-nodes p c = refl

pub without-mem_self : (p : ℕ) (xs : List ℕ) → mem p (without p xs) ≡ false
without-mem_self p xs = ground (arith, mem-without p p xs)

pub touch-Chained :
    (p : ℕ) (c : LruCache) (xs : List ℕ) → Rep c xs → Chained (touch p c) (p ∷ without p xs)
unfolding touch
touch-Chained p c xs r = elim (Bool-cases (Map.has p c.nodes)) [
  | inl known ↦ rw known (
      link_front-Chained p (unlink p c) (without p xs) (without-mem_self p xs)
        (without-Nodup p xs r.nodup)
        (unlink-without p c xs r.nodup (sym (r.tracked p) ∙ known) r.chained))
  | inr fresh ↦
      let m : mem p xs ≡ false = sym (r.tracked p) ∙ fresh in
      rw (fresh, without_absent p xs m)
        (link_front-Chained p (record c { nodes = Map.set p tt c.nodes }) xs m r.nodup
          (record { front = r.chained.front; back = r.chained.back; linked = r.chained.linked }))
]

pub touch-nodes :
    (p : ℕ) (c : LruCache)
    → (touch p c).nodes ≡ (if Map.has p c.nodes then c.nodes else Map.set p tt c.nodes)
unfolding touch
touch-nodes p c = ground (
  arith,
  unlink-nodes p c,
  link_front-nodes p (unlink p c),
  link_front-nodes p (record c { nodes = Map.set p tt c.nodes }),
)

has_same :
    (p k : ℕ) (m : Map.Map ℕ (Unit {0}))
    → Map.has p m ≡ true
    → Map.has k m ≡ (eqb p k || Map.has k m)
has_same p k m h = elim (Bool-cases (eqb p k)) [
  | inl e ↦ rw e (let q : p ≡ k = ground arith in subst (λ j. Map.has j m ≡ true) q h)
  | inr n ↦ rw n
]

pub touch-has :
    (p k : ℕ) (c : LruCache) → Map.has k (touch p c).nodes ≡ (eqb p k || Map.has k c.nodes)
touch-has p k c = elim (Bool-cases (Map.has p c.nodes)) [
  | inl known ↦ rw (touch-nodes p c, known) (has_same p k c.nodes known)
  | inr fresh ↦ rw (touch-nodes p c, fresh) (Map.has-set p k tt c.nodes)
]

pub mem_front : (p k : ℕ) (xs : List ℕ) → (eqb p k || mem k xs) ≡ mem k (p ∷ without p xs)
mem_front p k xs = ground (arith, mem-without p k xs)

pub touch-count :
    (p : ℕ) (c : LruCache) (xs : List ℕ)
    → Rep c xs
    → length (touch p c).nodes ≡ suc (length (without p xs))
touch-count p c xs r = elim (Bool-cases (Map.has p c.nodes)) [
  | inl known ↦
      rw (touch-nodes p c, known)
        (r.count ∙ sym (length-without p xs r.nodup (sym (r.tracked p) ∙ known)))
  | inr fresh ↦
      rw
        (
          touch-nodes p c,
          fresh,
          Map.length-set p tt c.nodes,
          fresh,
          without_absent p xs (sym (r.tracked p) ∙ fresh),
        )
        (omega (arith, r.count))
]

pub remove-nodes : (p : ℕ) (c : LruCache) → (remove p c).nodes ≡ Map.delete p c.nodes
unfolding remove
remove-nodes p c = ground (arith, unlink-nodes p c, Map.delete_absent p c.nodes)

pub remove-Chained :
    (p : ℕ) (c : LruCache) (xs : List ℕ) → Rep c xs → Chained (remove p c) (without p xs)
unfolding remove
remove-Chained p c xs r = elim (Bool-cases (Map.has p c.nodes)) [
  | inl known ↦
      let h = unlink-without p c xs r.nodup (sym (r.tracked p) ∙ known) r.chained in
      rw known (record { front = h.front; back = h.back; linked = h.linked })
  | inr fresh ↦ rw (fresh, without_absent p xs (sym (r.tracked p) ∙ fresh)) r.chained
]
