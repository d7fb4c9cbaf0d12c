-- ===== src/Buffer/Pool/Flush.antt =====
-- `flushPage` and `flushAll` of BufferPool.js.
use collab_write.Prelude.{
  ℕ, ◌+◌, ◌≡◌, refl, sym, ap, ◌∙◌, subst, true, false, ◌||◌, some, List, [], ◌∷◌, if◌then◌else◌,
  eqb, mem, nat_key, arith, Option-cases, Bool-cases, inl, inr, ◌⊎◌,
}
use collab_write.Prelude.Map
use collab_write.Buffer.Storage.{Storage}
use collab_write.Buffer.Pool.{Frame, flush_frame, flush_page, flush_keys, flush_all}
use collab_write.Buffer.Pool.Coherence.{Pool, IsValid, flush-IsValid}
use collab_write.Buffer.Pool.View.{Keeps, flush_frame-Keeps}

mem-keys : {V : Type 0} (k : ℕ) (t : Map.Map ℕ V) → mem k (Map.keys t) ≡ Map.has k t
unfolding Map.has
mem-keys k [] = refl
mem-keys k ((j, v) ∷ t) = ap (λ b. eqb j k || b) (mem-keys k t)

module _ (S : Storage) where
  open S use {State, Page, page_id, clean, read_page, write_page}

  flush-Keeps : (b : Pool S) (xs : List ℕ) (k : ℕ) → IsValid S b xs → Keeps S b (flush_page S k b).0
  unfolding flush_page
  flush-Keeps b xs k v = elim (Option-cases (Map.get k b.page_table)) [
    | inl e ↦ rw (e, flush_page) (λ j q h. h)
    | inr (f, e) ↦ elim (Bool-cases f.dirty) [
      | inl d ↦ rw (e, flush_page, d) (flush_frame-Keeps S b xs k f v e)
      | inr d ↦ rw (e, flush_page, d) (λ j q h. h)
    ]
  ]

  flush-other :
      (b : Pool S) (k j : ℕ)
      → eqb k j ≡ false
      → Map.get j (flush_page S k b).0.page_table ≡ Map.get j b.page_table
  unfolding flush_page flush_frame
  flush-other b k j n = elim (Option-cases (Map.get k b.page_table)) [
    | inl e ↦ rw (e, flush_page)
    | inr (g, e) ↦ elim (Bool-cases g.dirty) [
      | inl d ↦
          rw (e, flush_page, d)
            (Map.get-set k j (record g { page = (write_page g.page b.storage).0; dirty = false })
                b.page_table
              ∙ rw n)
      | inr d ↦ rw (e, flush_page, d)
    ]
  ]

  flush_self :
      (b : Pool S) (k : ℕ) (f : Frame Page)
      → Map.get k (flush_page S k b).0.page_table ≡ some f
      → f.dirty ≡ false
  unfolding flush_page flush_frame
  flush_self b k f h = elim (Option-cases (Map.get k b.page_table)) [
    | inl e ↦ absurd (ground (arith, rw (e, flush_page) at h, e))
    | inr (g, e) ↦ elim (Bool-cases g.dirty) [
      | inl d ↦ ground (
        arith,
        rw (e, flush_page, d) at h,
        Map.get-set k k (record g { page = (write_page g.page b.storage).0; dirty = false })
            b.page_table,
      )
      | inr d ↦ ground (arith, rw (e, flush_page, d) at h, e)
    ]
  ]

  -- After a flush a frame is clean, or it is another page's and as it was.
  flush-frames :
      (b : Pool S) (k j : ℕ) (f : Frame Page)
      → Map.get j (flush_page S k b).0.page_table ≡ some f
      → (f.dirty ≡ false) ⊎ ((eqb k j ≡ false) × (Map.get j b.page_table ≡ some f))
  flush-frames b k j f h = elim (Bool-cases (eqb k j)) [
    | inl same ↦
        let p : j ≡ k = ground arith in
        inl (flush_self b k f (subst (λ i. Map.get i (flush_page S k b).0.page_table ≡ some f) p h))
    | inr other ↦ inr (other, sym (flush-other b k j other) ∙ h)
  ]

  -- Each frame is clean, or its page is still on the list of those to be flushed.
  abbrev Pending : List ℕ → Pool S → Type 0
  Pending ks b =
      (j : ℕ) (f : Frame Page)
      → Map.get j b.page_table ≡ some f
      → (f.dirty ≡ false) ⊎ (mem j ks ≡ true)

  -- After `flushAll` the pool is valid and transparent, no frame is dirty, and the file alone holds
  -- what is seen of every resident page.
  pub record Flushed (b b' : Pool S) (xs : List ℕ) : Type 0 where
    pub valid : IsValid S b' xs
    pub keeps : Keeps S b b'
    pub on_disk :
        (k : ℕ) (f : Frame Page)
        → Map.get k b'.page_table ≡ some f
        → (f.dirty ≡ false) × (read_page k b'.storage ≡ some (clean f.page))

  flush_keys-Flushed :
      (ks : List ℕ) (b : Pool S) (n : ℕ) (xs : List ℕ)
      → IsValid S b xs
      → Pending ks b
      → Flushed b (flush_keys S ks b n).0 xs
  unfolding flush_keys
  flush_keys-Flushed [] b n xs v p = record {
    valid = v;
    keeps = λ j q h. h;
    on_disk = λ k f e.
        let d : f.dirty ≡ false = ground (arith, p k f e) in (d, (v.frames k f e).coherent d);
  }
  flush_keys-Flushed (k ∷ ks) b n xs v p =
      let b' = (flush_page S k b).0 in
      let rest =
        flush_keys-Flushed ks b' (if (flush_page S k b).1 then n + 1 else n) xs
          (flush-IsValid S b xs k v) (λ j f e. ground (arith, flush-frames b k j f e, p j f)) in
      record {
        valid = rest.valid;
        keeps = λ j q h. rest.keeps j q (flush-Keeps b xs k v j q h);
        on_disk = rest.on_disk;
      }

  pub flush_all-Flushed :
      (b : Pool S) (xs : List ℕ) → IsValid S b xs → Flushed b (flush_all S b).0 xs
  unfolding flush_all
  flush_all-Flushed b xs v =
      flush_keys-Flushed (Map.keys b.page_table) b 0 xs v
        (λ j f e. inr (mem-keys j b.page_table ∙ Map.has_of_get j b.page_table e))
