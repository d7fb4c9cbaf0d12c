-- ===== src/Buffer/Pool/View.antt =====
-- BufferPool.js is transparent: no operation but a caller's own change alters what a page holds.
use collab_write.Prelude.{
  ℕ, ◌≡◌, ◌≢◌, ◌∙◌, subst, false, none, some, List, eqb, mem-without, without, nat_key, arith,
  Bool-cases, inl, inr,
}
use collab_write.Prelude.Map
use collab_write.Buffer.Lru.Order.{remove-Rep}
use collab_write.Buffer.Storage.{Storage}
use collab_write.Buffer.Pool.{Frame, flush_frame, drop_frame}
use collab_write.Buffer.Pool.Coherence.{Pool, IsValid, view}

module _ (S : Storage) where
  open S use {State, Page, page_id, clean, read_page, write_page}

  -- Every page that could be read still reads the same.
  abbrev pub Keeps : Pool S → Pool S → Type 0
  Keeps b b' = (j : ℕ) (q : Page) → view S j b ≡ some q → view S j b' ≡ some q

  pub replace-Keeps :
      (b : Pool S) (k : ℕ) (f g : Frame Page)
      → Map.get k b.page_table ≡ some f
      → clean g.page ≡ clean f.page
      → Keeps b (record b { page_table = Map.set k g b.page_table })
  unfolding view
  replace-Keeps b k f g e c j q h = elim (Bool-cases (eqb k j)) [
    | inl same ↦
        let p : k ≡ j = ground arith in
        ground
          (arith, Map.get-set k j g b.page_table, subst (λ i. Map.get i b.page_table ≡ some f) p e)
    | inr other ↦ ground (arith, Map.get-set k j g b.page_table)
  ]

  pub flush_frame-Keeps :
      (b : Pool S) (xs : List ℕ) (k : ℕ) (f : Frame Page)
      → IsValid S b xs
      → Map.get k b.page_table ≡ some f
      → Keeps b (flush_frame S k f b)
  unfolding view flush_frame
  flush_frame-Keeps b xs k f v e j q h = elim (Bool-cases (eqb k j)) [
    | inl same ↦
        let p : k ≡ j = ground arith in
        let (c, _, _) = S.write-page f.page b.storage (v.frames k f e).storable in
        ground (
          arith,
          c,
          Map.get-set k j (record f { page = (write_page f.page b.storage).0; dirty = false })
              b.page_table,
          subst (λ i. Map.get i b.page_table ≡ some f) p e,
        )
    | inr other ↦
        let n : page_id f.page ≢ j = λ p. absurd (ground (arith, (v.frames k f e).own_id)) in
        ground (
          arith,
          Map.get-set k j (record f { page = (write_page f.page b.storage).0; dirty = false })
              b.page_table,
          S.read-write_ne j f.page b.storage q n,
        )
  ]

  pub drop_frame-Keeps :
      (b : Pool S) (xs : List ℕ) (k : ℕ) (f : Frame Page)
      → IsValid S b xs
      → Map.get k b.page_table ≡ some f
      → f.dirty ≡ false
      → Keeps b (drop_frame S k b)
  unfolding view drop_frame
  drop_frame-Keeps b xs k f v e c j q h = elim (Bool-cases (eqb k j)) [
    | inl same ↦
        let p : k ≡ j = ground arith in
        ground (
          arith,
          subst (λ i. Map.get i (Map.delete k b.page_table) ≡ none) p
              (Map.get-delete_self k b.page_table v.keyed),
          subst (λ i. Map.get i b.page_table ≡ some f) p e,
          subst (λ i. read_page i b.storage ≡ some (clean f.page)) p ((v.frames k f e).coherent c),
        )
    | inr other ↦ ground (arith, Map.get-delete_ne k j b.page_table other)
  ]

  pub drop_frame-IsValid :
      (b : Pool S) (xs : List ℕ) (k : ℕ)
      → IsValid S b xs
      → IsValid S (drop_frame S k b) (without k xs)
  unfolding drop_frame
  drop_frame-IsValid b xs k v = record {
    lru = remove-Rep k b.lru xs v.lru;
    resident = λ j.
        Map.has-delete k j b.page_table v.keyed ∙ ground (arith, v.resident j, mem-without k j xs);
    keyed = Map.delete-Distinct k b.page_table v.keyed;
    bounded = omega (arith, Map.length-delete-le k b.page_table, v.bounded);
    sound = v.sound;
    frames = λ j f e. v.frames j f (Map.get-delete k j b.page_table v.keyed e).0;
  }
