-- ===== src/Storage/Manager/Pages.antt =====
-- `readPage` of src/engine/storage/StorageManager.js after `writePage`.
use collab_write.Prelude.{
  ℕ, ◌+◌, ◌*◌, ◌≡◌, ◌≢◌, ◌≤◌, ◌⊎◌, inl, inr, refl, ap, sym, subst, ◌∙◌, true, false, some, List,
  ◌++◌, length, take, drop, length-take, length-drop, length-append, arith, ltb, eqb, leb,
  Bool-cases, Option-cases,
}
use collab_write.Prelude.Bytes.{bytes_of, length-bytes_of}
use collab_write.Storage.Page.{
  Page, Record, Outcome, returned, page_full, range_error, page_id, set_dirty, patch, write_uint,
}
use collab_write.Storage.Page.Layout.{header, encode, Holds, write_uint-eq}
use collab_write.Storage.Page.Contents.{page_id-Holds}
use collab_write.Storage.Page.Checksum.{
  serialize, deserialize, Loaded, loaded, wrong_size, corrupt, too_short, crc32,
}
use collab_write.Storage.Page.Image.{Clean, serialize-Clean}
use collab_write.Storage.Manager.{
  StorageManager, Answer, done, failed, out_of_range, assert_open, read_page, write_page, read_at,
  write_at,
}
use collab_write.Storage.Manager.Bytes.{apart, read_at-write_at, read_at_before, read_at_behind}

length-patch :
    (off : ℕ) (bs buf : List ℕ)
    → off + length bs ≤ length buf
    → length (patch off bs buf) ≡ length buf
unfolding patch
length-patch off bs buf h = omega (
  arith,
  h,
  length-append (take off buf ++ bs) (drop (off + length bs) buf),
  length-append (take off buf) bs,
  length-take off buf,
  length-drop (off + length bs) buf,
)

set_dirty-Holds :
    (size id : ℕ) (rs : List Record) (buf : List ℕ)
    → Holds size id rs buf
    → (b : List ℕ) × (set_dirty false buf ≡ returned tt b) × Holds size id rs b
unfolding Holds set_dirty patch header bytes_of
set_dirty-Holds size id rs buf (k, d, rest, e, l, i, n, h) =
    let c = encode rs ++ rest in
    (
      header id k 0 (length rs) ++ c,
      ap (write_uint 1 0 8) e
          ∙ write_uint-eq 1 0 8 (header id k d (length rs) ++ c) refl (omega arith),
      (k, 0, rest, refl, sym (ap length e) ∙ l, i, n, h),
    )

-- What `writePage` does with a page that holds records.
pub write_page-Holds :
    (p : Page) (s : StorageManager) (id : ℕ) (rs : List Record)
    → s.opened ≡ true
    → Holds p.page_size id rs p.buffer
    → (image : List ℕ) × (b : List ℕ) × (write_page p s
        ≡ done
            (record p { buffer = b })
            (record s { file = write_at (id * s.page_size) image s.file }))
      × Holds p.page_size id rs b
      × Clean p.page_size id rs image
unfolding write_page assert_open
write_page-Holds p s id rs o v =
    let (image, e, c) = serialize-Clean p id rs v in
    let (b, f, w) = set_dirty-Holds p.page_size id rs p.buffer v in
    (image, b, ground (arith, o, e, page_id-Holds p.page_size id rs p.buffer v, f), w, c)

read_page_loaded :
    (k : ℕ) (s : StorageManager) (b : List ℕ)
    → s.opened ≡ true
    → s.directory_pages ≤ k
    → read_at (k * s.page_size) s.page_size s.file ≡ b
    → length b ≡ s.page_size
    → deserialize b s.page_size ≡ loaded (record { page_size = s.page_size; buffer = b })
    → read_page k s ≡ done (record { page_size = s.page_size; buffer = b }) s
unfolding read_page assert_open
read_page_loaded k s b o h e l d = ground (arith, o, h, e, l, d)

-- What a write of a page with records leaves.
unfoldable pub Stored : Page → StorageManager → ℕ → List Record → Type 0
Stored p s id rs =
    (q : Page) × (s' : StorageManager) × (b : List ℕ) × (write_page p s ≡ done q s')
    × Holds p.page_size id rs q.buffer
    × (read_page id s' ≡ done (record { page_size = s.page_size; buffer = b }) s')
    × Clean p.page_size id rs b

-- In an open storage manager writePage of a page behind the directory that holds given records
-- leaves the page with them, and readPage then gives a page with the same records under the same
-- id, clean and with a valid checksum.
pub write_page-Stored :
    (p : Page) (s : StorageManager) (id : ℕ) (rs : List Record)
    → s.opened ≡ true
    → s.directory_pages ≤ id
    → p.page_size ≡ s.page_size
    → Holds p.page_size id rs p.buffer
    → Stored p s id rs
unfolding Stored Clean Holds
write_page-Stored p s id rs o h z v =
    let (image, b, e, w, c) = write_page-Holds p s id rs o v in
    let (_, _, _, _, size, _, _, _) = c.0 in
    let s' : StorageManager = record s { file = write_at (id * s.page_size) image s.file } in
    (
      record p { buffer = b },
      s',
      image,
      e,
      w,
      read_page_loaded id s' image o h
          (ap (λ n. read_at (id * s.page_size) n s'.file) (sym (size ∙ z))
            ∙ read_at-write_at (id * s.page_size) image s.file)
          (size ∙ z)
          (subst (λ n. deserialize image n ≡ loaded (record { page_size = n; buffer = image })) z
            c.2),
      c,
    )

length-serialize : (p : Page) (b : List ℕ) → serialize p ≡ some b → length b ≡ length p.buffer
unfolding serialize
length-serialize p b h = elim (Bool-cases (leb 9 (length p.buffer))) [
  | inl big ↦ ground (
    arith,
    h,
    big,
    length-patch 8 (bytes_of 1 0) p.buffer (ground (arith, big, length-bytes_of 1 0)),
    length-patch 4 (bytes_of 4 (crc32 (patch 8 (bytes_of 1 0) p.buffer) 4 8))
        (patch 8 (bytes_of 1 0) p.buffer)
        (ground (
          arith,
          big,
          length-bytes_of 4 (crc32 (patch 8 (bytes_of 1 0) p.buffer) 4 8),
          length-patch 8 (bytes_of 1 0) p.buffer (ground (arith, big, length-bytes_of 1 0)),
        )),
  )
  | inr small ↦ absurd (ground (arith, h, small))
]

-- The state that a call leaves.
abbrev pub state_of {ℓ} : {A : Type ℓ} → Answer A → StorageManager
state_of (done a s) = s
state_of (failed e s) = s

dirtied :
    (p : Page) (s : StorageManager) (o : Outcome {0} Unit)
    → state_of (elim o [
      | returned u buf ↦ done (record p { buffer = buf }) s
      | page_full id n a buf ↦ failed out_of_range s
      | range_error buf ↦ failed out_of_range s
    ])
      ≡ s
dirtied p s (returned u buf) = refl
dirtied p s (page_full id n a buf) = refl
dirtied p s (range_error buf) = refl

-- What `writePage` has done when it returns.
write_page_done :
    (p q : Page) (s s' : StorageManager) (id : ℕ)
    → page_id p.buffer ≡ some id
    → write_page p s ≡ done q s'
    → (image : List ℕ) × (serialize p ≡ some image)
      × (s' ≡ record s { file = write_at (id * s.page_size) image s.file })
unfolding write_page assert_open
write_page_done p q s s' id i h = elim (Bool-cases s.opened) [
  | inr shut ↦ absurd (ground (arith, h, shut))
  | inl o ↦ elim (Option-cases (serialize p)) [
    | inl e ↦ absurd (ground (arith, h, i, e, o))
    | inr (image, e) ↦
        let t : StorageManager = record s { file = write_at (id * s.page_size) image s.file } in
        let f = dirtied p t (set_dirty false p.buffer) in
        (image, e, sym (ap state_of h) ∙ ground (arith, i, e, o, f))
  ]
]

Loaded-cases :
    (d : Loaded)
    → ((p : Page) × (d ≡ loaded p))
      ⊎ ((d ≡ wrong_size)
          ⊎ (((id : ℕ) × (x : ℕ) × (y : ℕ) × (d ≡ corrupt id x y)) ⊎ (d ≡ too_short)))
Loaded-cases (loaded p) = inl (p, refl)
Loaded-cases wrong_size = inr (inl refl)
Loaded-cases (corrupt id x y) = inr (inr (inl (id, x, y, refl)))
Loaded-cases too_short = inr (inr (inr refl))

-- A page whose bytes are the same in another file is read from it too.
pub read_page_same :
    (k : ℕ) (s : StorageManager) (r : Page) (file : List ℕ)
    → read_page k s ≡ done r s
    → read_at (k * s.page_size) s.page_size file ≡ read_at (k * s.page_size) s.page_size s.file
    → read_page k (record s { file = file }) ≡ done r (record s { file = file })
unfolding read_page assert_open
read_page_same k s r file h e =
    elim (Loaded-cases (deserialize (read_at (k * s.page_size) s.page_size s.file) s.page_size)) [
      | inl (p, d) ↦ ground (arith, h, e, d)
      | inr (inl d) ↦ absurd (ground (arith, h, d))
      | inr (inr (inl (id, x, y, d))) ↦ absurd (ground (arith, h, d))
      | inr (inr (inr d)) ↦ absurd (ground (arith, h, d))
    ]

read_page_size :
    (k : ℕ) (s : StorageManager) (r : Page)
    → read_page k s ≡ done r s
    → length (read_at (k * s.page_size) s.page_size s.file) ≡ s.page_size
unfolding read_page assert_open
read_page_size k s r h =
    elim (Bool-cases (eqb (length (read_at (k * s.page_size) s.page_size s.file)) s.page_size)) [
      | inl whole ↦ ground (arith, whole)
      | inr short ↦ absurd (ground (arith, h, short))
    ]

in_file :
    (k n : ℕ) (file : List ℕ)
    → length (read_at (k * n) n file) ≡ n
    → (n ≡ 0) ⊎ (k * n + n ≤ length file)
unfolding read_at
in_file k n file h = ground (arith, h, length-take n (drop (k * n) file), length-drop (k * n) file)

read_other :
    (k id n : ℕ) (image file : List ℕ)
    → length image ≡ n
    → k ≢ id
    → (n ≡ 0) ⊎ (k * n + n ≤ length file)
    → read_at (k * n) n (write_at (id * n) image file) ≡ read_at (k * n) n file
unfolding read_at
read_other k id n image file l ne (inl z) =
    ap (λ m. take m (drop (k * n) (write_at (id * n) image file))) z
    ∙ ap (λ m. take m (drop (k * n) file)) (sym z)
read_other k id n image file l ne (inr h) = elim (Bool-cases (ltb k id)) [
  | inl before ↦
      read_at_before (id * n) image file (k * n) n (apart k id n (ground (arith, before))) h
  | inr behind ↦
      read_at_behind (id * n) image file (k * n) n
        (omega (arith, l, apart id k n (ground (arith, behind, ne))))
]

-- A page that could be read is read unchanged after writePage of a page of the right size with
-- another id.
pub read_page-write_page_ne :
    (k id : ℕ) (p q r : Page) (s s' : StorageManager)
    → page_id p.buffer ≡ some id
    → length p.buffer ≡ s.page_size
    → write_page p s ≡ done q s'
    → read_page k s ≡ done r s
    → k ≢ id
    → read_page k s' ≡ done r s'
read_page-write_page_ne k id p q r s s' i l w h ne =
    let (image, e, f) = write_page_done p q s s' id i w in
    subst (λ t. read_page k t ≡ done r t) (sym f)
      (read_page_same k s r (write_at (id * s.page_size) image s.file) h (
        read_other k id s.page_size image s.file (length-serialize p image e ∙ l) ne
          (in_file k s.page_size s.file (read_page_size k s r h))))
