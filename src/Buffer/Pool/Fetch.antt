-- ===== src/Buffer/Pool/Fetch.antt =====
-- `fetchPage` of BufferPool.js on a hit, on a miss with room, and on a miss that evicts.
use collab_write.Prelude.{
  ℕ, ◌+◌, ◌≤◌, ◌<◌, ◌≡◌, ◌≢◌, refl, ap, ◌∙◌, subst, ◌||◌, false, Option, none, some, List, ◌∷◌, eqb,
  leb, length, mem, without, nat_key, arith, Option-cases, Bool-cases, inl, inr,
}
use collab_write.Prelude.Map
use collab_write.Buffer.Lru
use collab_write.Buffer.Lru.Chain.{mem_front}
use collab_write.Buffer.Lru.Order.{touch-Rep}
use collab_write.Buffer.Storage.{Storage}
use collab_write.Buffer.Pool.{
  Frame, evict_one, load_page, make_room, miss_page, hit_page, fetch_page, counted,
}
use collab_write.Buffer.Pool.Coherence.{Pool, IsValid, view, frames-set, replace-IsValid}
use collab_write.Buffer.Pool.View.{Keeps, replace-Keeps}
use collab_write.Buffer.Pool.Eviction.{Evicted, evict_one-Outcome}

module _ (S : Storage) where
  open S use {State, Page, page_id, clean, read_page, write_page}

  -- A frame of `f` that is still there, with no pin lost.
  abbrev pub Survives : ℕ → Frame Page → Pool S → Type 0
  Survives j f b =
      (g : Frame Page) × (Map.get j b.page_table ≡ some g)
      × (g.page ≡ f.page)
      × (g.dirty ≡ f.dirty)
      × (f.pin_count ≤ g.pin_count)

  -- What a fetch of `k` does, whatever its outcome.
  pub record Fetched (k : ℕ) (b : Pool S) (r : Pool S × Option Page) : Type 0 where
    pub valid : (ys : List ℕ) × IsValid S r.0 ys
    pub keeps : Keeps S b r.0
    pub pinned :
        (j : ℕ) (f : Frame Page)
        → Map.get j b.page_table ≡ some f
        → 0 < f.pin_count
        → Survives j f r.0
    pub pins :
        (q : Page)
        → r.1 ≡ some q
        → (g : Frame Page) × (Map.get k r.0.page_table ≡ some g) × (g.page ≡ q) × (0 < g.pin_count)

  resident-touch :
      (t : Map.Map ℕ (Frame Page)) (xs : List ℕ) (k : ℕ) (g : Frame Page)
      → ((j : ℕ) → Map.has j t ≡ mem j xs)
      → (j : ℕ) → Map.has j (Map.set k g t) ≡ mem j (k ∷ without k xs)
  resident-touch t xs k g r j =
      Map.has-set k j g t ∙ ap (λ m. eqb k j || m) (r j) ∙ mem_front k j xs

  -- One more pin on a frame: the frames survive.
  pin-Survives :
      (b : Pool S) (k : ℕ) (f : Frame Page)
      → Map.get k b.page_table ≡ some f
      → (j : ℕ) (f' : Frame Page) → Map.get j b.page_table ≡ some f'
      → Survives j f' (hit_page S k f b).0
  unfolding hit_page
  pin-Survives b k f e j f' e' = elim (Bool-cases (eqb k j)) [
    | inl same ↦
        let p : k ≡ j = ground arith in
        let q : f ≡ f' = ground (arith, subst (λ i. Map.get i b.page_table ≡ some f) p e) in
        (
          record f { pin_count = f.pin_count + 1 },
          ground (arith, Map.get-set k j (record f { pin_count = f.pin_count + 1 }) b.page_table),
          ap (λ (x : Frame Page). x.page) q,
          ap (λ (x : Frame Page). x.dirty) q,
          omega (arith, ap (λ (x : Frame Page). x.pin_count) q),
        )
    | inr other ↦ (
      f',
      ground (arith, Map.get-set k j (record f { pin_count = f.pin_count + 1 }) b.page_table),
      refl,
      refl,
      omega arith,
    )
  ]

  hit-Fetched :
      (b : Pool S) (xs : List ℕ) (k : ℕ) (f : Frame Page)
      → IsValid S b xs
      → Map.get k b.page_table ≡ some f
      → Fetched k b (hit_page S k f b)
  unfolding hit_page view
  hit-Fetched b xs k f v e =
      let g : Frame Page = record f { pin_count = f.pin_count + 1 } in
      let h = v.frames k f e in
      let w =
        replace-IsValid S b xs k f g v e
          (record { own_id = h.own_id; storable = h.storable; coherent = h.coherent }) in
      record {
        valid = (
          k ∷ without k xs,
          record {
            lru = touch-Rep k b.lru xs v.lru;
            resident = resident-touch b.page_table xs k g v.resident;
            keyed = w.keyed;
            bounded = w.bounded;
            sound = w.sound;
            frames = w.frames;
          },
        );
        keeps = λ j q h. replace-Keeps S b k f g e refl j q h;
        pinned = λ j f' e' _. pin-Survives b k f e j f' e';
        pins =
            λ q r. (g, ground (arith, Map.get-set k k g b.page_table), ground arith, ground arith);
      }

  -- The pool of a miss, with the page that was read.
  abbrev loaded : ℕ → Page → Pool S → Pool S
  loaded k page b = record b {
    page_table = Map.set k (record { page = page; pin_count = 1; dirty = false }) b.page_table;
    lru = Lru.touch k b.lru;
  }

  loaded-Keeps :
      (b : Pool S) (k : ℕ) (page : Page)
      → Map.get k b.page_table ≡ none
      → read_page k b.storage ≡ some page
      → clean page ≡ page
      → Keeps S b (loaded k page b)
  unfolding view
  loaded-Keeps b k page e r same j q h = elim (Bool-cases (eqb k j)) [
    | inl here ↦
        let p : k ≡ j = ground arith in
        ground (
          arith,
          Map.get-set k j (record { page = page; pin_count = 1; dirty = false }) b.page_table,
          subst (λ i. Map.get i b.page_table ≡ none) p e,
          subst (λ i. read_page i b.storage ≡ some page) p r,
        )
    | inr other ↦
        ground (
          arith,
          Map.get-set k j (record { page = page; pin_count = 1; dirty = false }) b.page_table,
        )
  ]

  loaded-Survives :
      (b : Pool S) (k : ℕ) (page : Page)
      → Map.get k b.page_table ≡ none
      → (j : ℕ) (f : Frame Page) → Map.get j b.page_table ≡ some f
      → Survives j f (loaded k page b)
  loaded-Survives b k page e j f e' =
      let n : k ≢ j =
        λ p. absurd (ground (arith, subst (λ i. Map.get i b.page_table ≡ none) p e)) in
      (
        f,
        ground (
          arith,
          Map.get-set k j (record { page = page; pin_count = 1; dirty = false }) b.page_table,
        ),
        refl,
        refl,
        omega arith,
      )

  -- A fetch that throws at once.
  unchanged-Fetched : (b : Pool S) (xs : List ℕ) (k : ℕ) → IsValid S b xs → Fetched k b (b, none)
  unchanged-Fetched b xs k v = record {
    valid = (xs, v);
    keeps = λ j q h. h;
    pinned = λ j f e _. (f, e, refl, refl, omega arith);
    pins = λ q r. absurd (cc);
  }

  loaded-Fetched :
      (b : Pool S) (xs : List ℕ) (k : ℕ) (page : Page)
      → IsValid S b xs
      → Map.get k b.page_table ≡ none
      → length b.page_table < b.capacity
      → read_page k b.storage ≡ some page
      → Fetched k b (loaded k page b, some page)
  unfolding view
  loaded-Fetched b xs k page v e room r =
      let g : Frame Page = record { page = page; pin_count = 1; dirty = false } in
      let (own, storable, same) = S.read-page_id k b.storage page v.sound r in
      let absent : Map.has k b.page_table ≡ false = rw (Map.has-get k b.page_table, e) in
      record {
        valid = (
          k ∷ without k xs,
          record {
            lru = touch-Rep k b.lru xs v.lru;
            resident = resident-touch b.page_table xs k g v.resident;
            keyed = Map.set-Distinct k g b.page_table v.keyed;
            bounded = rw (Map.length-set k g b.page_table, absent) (omega arith);
            sound = v.sound;
            frames =
                frames-set S b.storage b.page_table k g
                  (record { own_id = own; storable = storable; coherent = λ _. rw same r })
                  (λ j f _ e'. v.frames j f e');
          },
        );
        keeps = λ j q h. loaded-Keeps b k page e r same j q h;
        pinned = λ j f e' _. loaded-Survives b k page e j f e';
        pins =
            λ q r'. (g, ground (arith, Map.get-set k k g b.page_table), ground arith, omega arith);
      }

  load-Fetched :
      (b : Pool S) (xs : List ℕ) (k : ℕ)
      → IsValid S b xs
      → Map.get k b.page_table ≡ none
      → length b.page_table < b.capacity
      → Fetched k b (load_page S k b)
  unfolding load_page
  load-Fetched b xs k v e room = elim (Option-cases (read_page k b.storage)) [
    | inl r ↦ rw (r, load_page) (unchanged-Fetched b xs k v)
    | inr (page, r) ↦ rw (r, load_page) (loaded-Fetched b xs k page v e room r)
  ]

  counted-IsValid : (b : Pool S) (xs : List ℕ) → IsValid S b xs → IsValid S (counted S b) xs
  unfolding counted
  counted-IsValid b xs v = record {
    lru = v.lru;
    resident = v.resident;
    keyed = v.keyed;
    bounded = v.bounded;
    sound = v.sound;
    frames = v.frames;
  }

  -- A load after an eviction.
  evict_load-Fetched :
      (b b' : Pool S) (xs : List ℕ) (k c : ℕ) (f : Frame Page)
      → IsValid S b xs
      → Map.get k b.page_table ≡ none
      → Map.get c b.page_table ≡ some f
      → f.pin_count ≡ 0
      → Evicted S c b b' xs
      → Fetched k b (load_page S k b')
  evict_load-Fetched b b' xs k c f v e g p d =
      let n : c ≢ k =
        λ q. absurd (ground (arith, subst (λ i. Map.get i b.page_table ≡ some f) q g)) in
      let l =
        load-Fetched b' (without c xs) k d.valid (d.others k n ∙ e)
          (omega (arith, d.one_less, d.same_capacity, v.bounded)) in
      record {
        valid = l.valid;
        keeps = λ j q h. l.keeps j q (d.keeps j q h);
        pinned = λ j f' e' p'.
            let m : c ≢ j =
              λ q. absurd (ground (arith, subst (λ i. Map.get i b.page_table ≡ some f) q g)) in
            l.pinned j f' (d.others j m ∙ e') p';
        pins = l.pins;
      }

  make_room-Fetched :
      (b : Pool S) (xs : List ℕ) (k : ℕ)
      → IsValid S b xs
      → Map.get k b.page_table ≡ none
      → Fetched k b (make_room S k b)
  unfolding make_room
  make_room-Fetched b xs k v e = elim (evict_one-Outcome S b xs v) [
    | inl (r, _) ↦
        rw (ap (λ (t : Pool S × Option ℕ). t.1) r, make_room, ap (λ (t : Pool S × Option ℕ). t.0) r)
          (unchanged-Fetched b xs k v)
    | inr (_, c, _, f, _, _, g, p, r, d) ↦
        rw (r, make_room) (evict_load-Fetched b (evict_one S b).0 xs k c f v e g p d)
  ]

  from_counted :
      (k : ℕ) (b : Pool S) (r : Pool S × Option Page) → Fetched k (counted S b) r → Fetched k b r
  unfolding counted view
  from_counted k b r h = record {
    valid = h.valid;
    keeps = h.keeps;
    pinned = h.pinned;
    pins = h.pins;
  }

  miss-Fetched :
      (b : Pool S) (xs : List ℕ) (k : ℕ)
      → IsValid S b xs
      → Map.get k b.page_table ≡ none
      → Fetched k b (miss_page S k b)
  unfolding miss_page counted
  miss-Fetched b xs k v e = elim (Bool-cases (leb b.capacity (length b.page_table))) [
    | inl full ↦ rw full (
        from_counted k b (make_room S k (counted S b))
          (make_room-Fetched (counted S b) xs k (counted-IsValid b xs v) e))
    | inr room ↦ rw room (
        from_counted k b (load_page S k (counted S b))
          (load-Fetched (counted S b) xs k (counted-IsValid b xs v) e (ground arith)))
  ]

  -- On a valid pool every fetch, also one that throws, leaves a valid pool, changes nothing that can
  -- be read of any page, and takes no pin from and no frame of a pinned page. A page that is
  -- returned is pinned in the frame of its id.
  pub fetch-Fetched :
      (b : Pool S) (xs : List ℕ) (k : ℕ) → IsValid S b xs → Fetched k b (fetch_page S k b)
  unfolding fetch_page
  fetch-Fetched b xs k v = elim (Option-cases (Map.get k b.page_table)) [
    | inl e ↦ rw (e, fetch_page) (miss-Fetched b xs k v e)
    | inr (f, e) ↦ rw (e, fetch_page) (hit-Fetched b xs k f v e)
  ]
