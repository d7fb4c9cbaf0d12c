-- ===== src/Buffer/Pool/Eviction.antt =====
-- `evictOne` of BufferPool.js: which frame goes, and what an eviction leaves as it was.
use mathlib.Core.List.{reverse}
use collab_write.Prelude.{
  ℕ, suc, ◌<◌, ◌≡◌, ◌≢◌, refl, ap, ◌∙◌, false, Option, none, some, List, [], ◌∷◌, ◌++◌, ltb, length,
  All, without, nat_key, arith, Option-cases, Bool-cases, inl, inr, ◌⊎◌,
}
use collab_write.Prelude.Map
use collab_write.Buffer.Lru.Order.{orders-Rep}
use collab_write.Buffer.Storage.{Storage}
use collab_write.Buffer.Pool.{
  Frame, flush_frame, flush_page, drop_frame, evict_frame, evictable, evict_from, evict_one,
}
use collab_write.Buffer.Pool.Coherence.{Pool, IsValid, flush_frame-IsValid}
use collab_write.Buffer.Pool.View.{Keeps, flush_frame-Keeps, drop_frame-Keeps, drop_frame-IsValid}

module _ (S : Storage) where
  open S use {State, Page, page_id, clean, read_page, write_page}

  -- What an eviction of the frame of `k` does: the pool stays valid and transparent, loses that
  -- frame, and keeps every other one.
  pub record Evicted (k : ℕ) (b b' : Pool S) (xs : List ℕ) : Type 0 where
    pub valid : IsValid S b' (without k xs)
    pub keeps : Keeps S b b'
    pub gone : Map.get k b'.page_table ≡ none
    pub others : (j : ℕ) → k ≢ j → Map.get j b'.page_table ≡ Map.get j b.page_table
    pub one_less : suc (length b'.page_table) ≡ length b.page_table
    pub same_capacity : b'.capacity ≡ b.capacity

  drop_frame-Evicted :
      (b : Pool S) (xs : List ℕ) (k : ℕ) (f : Frame Page)
      → IsValid S b xs
      → Map.get k b.page_table ≡ some f
      → f.dirty ≡ false
      → Evicted k b (drop_frame S k b) xs
  unfolding drop_frame
  drop_frame-Evicted b xs k f v e d = record {
    valid = drop_frame-IsValid S b xs k v;
    keeps = drop_frame-Keeps S b xs k f v e d;
    gone = Map.get-delete_self k b.page_table v.keyed;
    others = λ j n. Map.get-delete_ne k j b.page_table (ground arith);
    one_less = Map.length-delete k b.page_table (Map.has_of_get k b.page_table e);
    same_capacity = refl;
  }

  flush_drop-Evicted :
      (b : Pool S) (xs : List ℕ) (k : ℕ) (f : Frame Page)
      → IsValid S b xs
      → Map.get k b.page_table ≡ some f
      → Evicted k b (drop_frame S k (flush_frame S k f b)) xs
  unfolding flush_frame
  flush_drop-Evicted b xs k f v e =
      let known = Map.has_of_get k b.page_table e in
      let g : Frame Page = record f { page = (write_page f.page b.storage).0; dirty = false } in
      let e' : Map.get k (Map.set k g b.page_table) ≡ some g =
        ground (arith, Map.get-set k k g b.page_table) in
      let d =
        drop_frame-Evicted (flush_frame S k f b) xs k g (flush_frame-IsValid S b xs k f v e) e'
          refl in
      record {
        valid = d.valid;
        keeps = λ j q h. d.keeps j q (flush_frame-Keeps S b xs k f v e j q h);
        gone = d.gone;
        others = λ j n. d.others j n ∙ ground (arith, Map.get-set k j g b.page_table);
        one_less = d.one_less ∙ Map.length-set_present k g b.page_table known;
        same_capacity = d.same_capacity;
      }

  evict_frame-Evicted :
      (b : Pool S) (xs : List ℕ) (k : ℕ) (f : Frame Page)
      → IsValid S b xs
      → Map.get k b.page_table ≡ some f
      → Evicted k b (evict_frame S k f b) xs
  unfolding evict_frame flush_page
  evict_frame-Evicted b xs k f v e = elim (Bool-cases f.dirty) [
    | inl d ↦ rw (d, e, flush_page, d) (flush_drop-Evicted b xs k f v e)
    | inr d ↦ rw d (drop_frame-Evicted b xs k f v e d)
  ]

  -- A page that cannot be evicted: it has no frame, or a pinned one.
  abbrev pub Held : Pool S → ℕ → Type 0
  Held b k =
      (Map.get k b.page_table ≡ none)
      ⊎ ((f : Frame Page) × (Map.get k b.page_table ≡ some f) × (0 < f.pin_count))

  -- The outcome of `evictOne` over an order: nothing is changed and every page is held, or the first
  -- page that is not held is evicted.
  abbrev pub Outcome : List ℕ → Pool S → List ℕ → Pool S × Option ℕ → Type 0
  Outcome order b xs r =
      ((r ≡ (b, none)) × All (Held b) order)
      ⊎ ((before : List ℕ) × (k : ℕ) × (after : List ℕ) × (f : Frame Page) × (order
            ≡ before ++ k ∷ after)
          × All (Held b) before
          × (Map.get k b.page_table ≡ some f)
          × (f.pin_count ≡ 0)
          × (r.1 ≡ some k)
          × Evicted k b r.0 xs)

  evictable-cases :
      (b : Pool S) (k : ℕ)
      → ((evictable S k b ≡ none) × Held b k)
        ⊎ ((f : Frame Page) × (evictable S k b ≡ some f)
            × (Map.get k b.page_table ≡ some f)
            × (f.pin_count ≡ 0))
  unfolding evictable
  evictable-cases b k = elim (Option-cases (Map.get k b.page_table)) [
    | inl e ↦ inl (rw (e, evictable), inl e)
    | inr (f, e) ↦ elim (Bool-cases (ltb 0 f.pin_count)) [
      | inl pinned ↦ inl (rw (e, evictable, pinned), inr (f, e, ground arith))
      | inr free ↦ inr (f, rw (e, evictable, free), e, ground arith)
    ]
  ]

  evict_from-Outcome :
      (order : List ℕ) (b : Pool S) (xs : List ℕ)
      → IsValid S b xs
      → Outcome order b xs (evict_from S order b)
  unfolding evict_from
  evict_from-Outcome [] b xs v = inl (refl, tt)
  evict_from-Outcome (k ∷ order) b xs v = elim (evictable-cases b k) [
    | inl (e, held) ↦ elim (evict_from-Outcome order b xs v) [
      | inl (r, all) ↦ inl (rw (e, evict_from) r, (held, all))
      | inr (before, c, after, f, o, all, g, p, r, d) ↦ inr (
        k ∷ before,
        c,
        after,
        f,
        ap (◌∷◌ k) o,
        (held, all),
        g,
        p,
        rw (e, evict_from) r,
        rw (e, evict_from) d,
      )
    ]
    | inr (f, e, g, p) ↦ inr (
      [],
      k,
      order,
      f,
      refl,
      tt,
      g,
      p,
      rw (e, evict_from),
      rw (e, evict_from) (evict_frame-Evicted b xs k f v g),
    )
  ]

  -- `evictOne` goes through the pages from the least recently used: it evicts the first one whose
  -- frame has no pin, or throws, changing nothing, when every resident page is pinned.
  pub evict_one-Outcome :
      (b : Pool S) (xs : List ℕ) → IsValid S b xs → Outcome (reverse xs) b xs (evict_one S b)
  unfolding evict_one
  evict_one-Outcome b xs v =
      rw (orders-Rep b.lru xs v.lru).1 (evict_from-Outcome (reverse xs) b xs v)
