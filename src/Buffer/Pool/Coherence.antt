-- ===== src/Buffer/Pool/Coherence.antt =====
-- The invariant of BufferPool.js and what the operations do to single frames.
use collab_write.Prelude.{
  ℕ, ◌≤◌, ◌≡◌, ◌≢◌, refl, sym, ◌∙◌, subst, Bool, false, Option, none, some, List, [], eqb, length,
  mem, nat_key, arith, Option-cases, Bool-cases, inl, inr,
}
use collab_write.Prelude.Map
use collab_write.Buffer.Lru.Chain.{Rep, empty-Rep}
use collab_write.Buffer.Storage.{Storage}
use collab_write.Buffer.Pool.{BufferPool, Frame, create, unpin_page, flush_frame, flush_page}

module _ (S : Storage) where
  open S use {State, Page, page_id, clean, read_page, write_page, IsPage, IsSound}

  abbrev pub Pool : Type 0
  Pool = BufferPool Page State

  -- A frame holds a storable page under its own id; unless it is dirty, it agrees with the file.
  pub record IsFrame (s : State) (k : ℕ) (f : Frame Page) : Type 0 where
    pub own_id : page_id f.page ≡ k
    pub storable : IsPage f.page
    pub coherent : f.dirty ≡ false → read_page k s ≡ some (clean f.page)

  -- The list is the pages of the table in order of use.
  pub record IsValid (b : Pool) (xs : List ℕ) : Type 0 where
    pub lru : Rep b.lru xs
    pub resident : (k : ℕ) → Map.has k b.page_table ≡ mem k xs
    pub keyed : Map.Distinct b.page_table
    pub bounded : length b.page_table ≤ b.capacity
    pub sound : IsSound b.storage
    pub frames : (k : ℕ) (f : Frame Page) → Map.get k b.page_table ≡ some f → IsFrame b.storage k f

  -- What a reader of page `k` gets to see: the frame if there is one, else the file's page.
  unfoldable pub view : ℕ → Pool → Option Page
  view k b = elim (Map.get k b.page_table) [
    | none ↦ read_page k b.storage
    | some f ↦ some (clean f.page)
  ]

  pub create-IsValid : (s : State) (n : ℕ) → IsSound s → IsValid (create s n) []
  unfolding create Map.has Map.get
  create-IsValid s n h = record {
    lru = empty-Rep;
    resident = λ k. refl;
    keyed = tt;
    bounded = omega arith;
    sound = h;
    frames = λ k f e. absurd (cc);
  }

  -- The frames after one of them is set, where the file may have changed too.
  pub frames-set :
      (s : State) (t : Map.Map ℕ (Frame Page)) (k : ℕ) (g : Frame Page)
      → IsFrame s k g
      → ((j : ℕ) (f : Frame Page) → k ≢ j → Map.get j t ≡ some f → IsFrame s j f)
      → (j : ℕ) (f : Frame Page) → Map.get j (Map.set k g t) ≡ some f
      → IsFrame s j f
  frames-set s t k g h others j f e = elim (Bool-cases (eqb k j)) [
    | inl same ↦
        let q : g ≡ f = ground (arith, Map.get-set k j g t) in
        let p : k ≡ j = ground arith in subst (IsFrame s j) q (subst (λ i. IsFrame s i g) p h)
    | inr other ↦ others j f (ground arith) (ground (arith, Map.get-set k j g t))
  ]

  -- A pool with a frame replaced in place: only the table's value at `k` changes.
  pub replace-IsValid :
      (b : Pool) (xs : List ℕ) (k : ℕ) (f g : Frame Page)
      → IsValid b xs
      → Map.get k b.page_table ≡ some f
      → IsFrame b.storage k g
      → IsValid (record b { page_table = Map.set k g b.page_table }) xs
  replace-IsValid b xs k f g v e h =
      let known = Map.has_of_get k b.page_table e in
      record {
        lru = v.lru;
        resident = λ j. Map.has-set_present k j g b.page_table known ∙ v.resident j;
        keyed = Map.set-Distinct k g b.page_table v.keyed;
        bounded = rw (Map.length-set_present k g b.page_table known) v.bounded;
        sound = v.sound;
        frames = frames-set b.storage b.page_table k g h (λ j f' _ e'. v.frames j f' e');
      }

  -- Releasing a pin keeps the invariant, and changes what is seen of no page.
  pub unpin-IsValid :
      (b : Pool) (xs : List ℕ) (k : ℕ) (dirty : Bool)
      → IsValid b xs
      → IsValid (unpin_page k dirty b) xs
  unfolding unpin_page
  unpin-IsValid b xs k dirty v = elim (Option-cases (Map.get k b.page_table)) [
    | inl e ↦ rw (e, unpin_page) v
    | inr (f, e) ↦
        let h = v.frames k f e in
        rw (e, unpin_page)
          (replace-IsValid b xs k f _ v e (record {
            own_id = h.own_id;
            storable = h.storable;
            coherent = λ clear. h.coherent (ground arith);
          }))
  ]

  write-IsFrame :
      (s : State) (j k : ℕ) (f g : Frame Page)
      → k ≢ j
      → IsFrame s k g
      → IsFrame s j f
      → IsFrame (write_page g.page s).1 j f
  write-IsFrame s j k f g n hg h = record {
    own_id = h.own_id;
    storable = h.storable;
    coherent =
        λ c. S.read-write_ne j g.page s (clean f.page) (λ q. n (sym hg.own_id ∙ q)) (h.coherent c);
  }

  pub flush_frame-IsValid :
      (b : Pool) (xs : List ℕ) (k : ℕ) (f : Frame Page)
      → IsValid b xs
      → Map.get k b.page_table ≡ some f
      → IsValid (flush_frame S k f b) xs
  unfolding flush_frame
  flush_frame-IsValid b xs k f v e =
      let h = v.frames k f e in
      let known = Map.has_of_get k b.page_table e in
      let (same, own, storable) = S.write-page f.page b.storage h.storable in
      record {
        lru = v.lru;
        resident = λ j. Map.has-set_present k j _ b.page_table known ∙ v.resident j;
        keyed = Map.set-Distinct k _ b.page_table v.keyed;
        bounded = rw (Map.length-set_present k _ b.page_table known) v.bounded;
        sound = S.write-IsSound f.page b.storage h.storable v.sound;
        frames =
            frames-set (write_page f.page b.storage).1 b.page_table k _
              (record {
                own_id = own ∙ h.own_id;
                storable = storable;
                coherent =
                    λ _. rw (same, ← h.own_id) (S.read-write_self f.page b.storage h.storable);
              })
              (λ j f' n e'. write-IsFrame b.storage j k f' f n h (v.frames j f' e'));
      }

  pub flush-IsValid :
      (b : Pool) (xs : List ℕ) (k : ℕ) → IsValid b xs → IsValid (flush_page S k b).0 xs
  unfolding flush_page
  flush-IsValid b xs k v = elim (Option-cases (Map.get k b.page_table)) [
    | inl e ↦ rw (e, flush_page) v
    | inr (f, e) ↦ elim (Bool-cases f.dirty) [
      | inl d ↦ rw (e, flush_page, d) (flush_frame-IsValid b xs k f v e)
      | inr d ↦ rw (e, flush_page, d) v
    ]
  ]
