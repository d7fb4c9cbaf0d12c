-- ===== src/Storage/Manager/Flush.antt =====
-- `flushDirectory` and `loadDirectory` of src/engine/storage/StorageManager.js on the whole file.
use collab_write.Prelude.{
  ℕ, ◌+◌, ◌-◌, ◌*◌, ◌≡◌, ◌≤◌, ◌<◌, refl, ap, sym, ◌∙◌, true, some, List, [], ◌++◌, length, arith,
  Bool-cases, inl, inr, ◌⊎◌, ltb, nat_key, append-nil, length-append, length-drop, drop,
}
use collab_write.Prelude.Bytes.{bytes_of, number_of, length-bytes_of, number_of-bytes_of, word-Fits}
use collab_write.Prelude.Map.{Map, Distinct}
use collab_write.Storage.Page.{read_uint, zeroes}
use collab_write.Storage.Page.Layout.{read_uint-eq, write_uint-prefix}
use collab_write.Storage.Manager.{
  StorageManager, done, failed, assert_open, load_directory, directory_region, built, overflow,
  writing, put_entries, directory_image, flush_directory, read_at, write_at, directory_overflow,
}
use collab_write.Storage.Manager.Bytes.{read_at-write_at, length-zeroes}
use collab_write.Storage.Manager.Entries.{
  entries, entries_size, InRange, past_entries, length-entries, put_entries-prefix,
  put_entries-overflow, word-ltb,
}
use collab_write.Storage.Manager.Directory.{
  length-past_entries, load_entries-prefix, set_all-append,
}

-- The region of a directory that fits.
region_of : StorageManager → List ℕ
region_of s =
    bytes_of 4 (length s.directory)
    ++ (entries s.directory
        ++ past_entries s.directory (drop 4 (zeroes (s.directory_pages * s.page_size))))

counted :
    (s : StorageManager)
    → length s.directory < 4294967296
    → 4 ≤ s.directory_pages * s.page_size
    → directory_image s
      ≡ put_entries s.directory 4
          (bytes_of 4 (length s.directory) ++ drop 4 (zeroes (s.directory_pages * s.page_size)))
unfolding directory_image writing
counted s n h =
    ap (λ o. writing o (put_entries s.directory 4))
      (write_uint-prefix 4 (length s.directory) 0 [] (zeroes (s.directory_pages * s.page_size))
        (word-ltb (length s.directory) n) refl
        (omega (arith, h, length-zeroes (s.directory_pages * s.page_size))))

directory_image-fits :
    (s : StorageManager)
    → length s.directory < 4294967296
    → InRange s.directory
    → 4 + entries_size s.directory ≤ s.directory_pages * s.page_size
    → directory_image s ≡ built (region_of s)
unfolding region_of
directory_image-fits s n h l =
    let z = zeroes (s.directory_pages * s.page_size) in
    counted s n (omega (arith, l))
    ∙ put_entries-prefix s.directory 4 (bytes_of 4 (length s.directory)) (drop 4 z)
        (length-bytes_of 4 (length s.directory)) h
        (omega (arith, l, length-drop 4 z, length-zeroes (s.directory_pages * s.page_size)))

directory_image-overflow :
    (s : StorageManager)
    → length s.directory < 4294967296
    → InRange s.directory
    → 4 ≤ s.directory_pages * s.page_size
    → s.directory_pages * s.page_size < 4 + entries_size s.directory
    → directory_image s ≡ overflow
directory_image-overflow s n h big l =
    let z = zeroes (s.directory_pages * s.page_size) in
    counted s n big
    ∙ put_entries-overflow s.directory 4 (bytes_of 4 (length s.directory)) (drop 4 z)
        (length-bytes_of 4 (length s.directory)) h
        (omega (arith, l, length-drop 4 z, length-zeroes (s.directory_pages * s.page_size)))

length-region_of :
    (s : StorageManager)
    → 4 + entries_size s.directory ≤ s.directory_pages * s.page_size
    → length (region_of s) ≡ s.directory_pages * s.page_size
unfolding region_of bytes_of
length-region_of s l =
    let z = zeroes (s.directory_pages * s.page_size) in
    omega (
      arith,
      l,
      length-append (entries s.directory) (past_entries s.directory (drop 4 z)),
      length-entries s.directory,
      length-past_entries s.directory (drop 4 z),
      length-drop 4 z,
      length-zeroes (s.directory_pages * s.page_size),
    )

region_read :
    (t : StorageManager) (region file : List ℕ)
    → length region ≡ t.directory_pages * t.page_size
    → directory_region (record t { file = write_at 0 region file }) ≡ region
unfolding directory_region zeroes
region_read t region file l =
    let n = t.directory_pages * t.page_size in
    let e : read_at 0 n (write_at 0 region file) ≡ region =
      ap (λ m. read_at 0 m (write_at 0 region file)) (sym l) ∙ read_at-write_at 0 region file in
    ap (λ b. b ++ zeroes (n - length b)) e
    ∙ ap (λ m. region ++ zeroes m) (no_more n (length region) l)
    ∙ append-nil region
  where
    no_more : (n m : ℕ) → m ≡ n → n - m ≡ 0
    no_more n m e = omega (arith, e)

load_directory-region :
    (t : StorageManager) (m : Map ℕ (List ℕ)) (rest : List ℕ)
    → directory_region t ≡ bytes_of 4 (length m) ++ (entries m ++ rest)
    → length m < 4294967296
    → InRange m
    → Distinct m
    → load_directory t ≡ done tt (record t { directory = m })
unfolding load_directory bytes_of number_of
load_directory-region t m rest e n h d =
    let region = bytes_of 4 (length m) ++ (entries m ++ rest) in
    let count : read_uint 4 0 region ≡ some (length m) =
      read_uint-eq 4 0 region (omega arith)
      ∙ ap some (number_of-bytes_of 4 (length m) [] (word-Fits (length m) n)) in
    rw
      (
        load_directory,
        e,
        count,
        e,
        load_entries-prefix m 4 (bytes_of 4 (length m)) rest (record t { directory = [] }) refl h,
      )
      (ap (λ z. done tt (record t { directory = z })) (set_all-append m [] d))

-- What a flush leaves, when another directory is in memory as the file is loaded.
unfoldable pub Saved : Map ℕ (List ℕ) → StorageManager → Type 0
Saved stale s =
    ((s' : StorageManager) × (flush_directory s ≡ done tt s')
      × (s'.directory ≡ s.directory)
      × (load_directory (record s' { directory = stale }) ≡ done tt s'))
    ⊎ ((flush_directory s ≡ failed directory_overflow s)
        × (s.directory_pages * s.page_size < 4 + entries_size s.directory))

-- In an open storage manager whose ids and counts are in range and whose region has room for the
-- count, flushDirectory writes the directory, and loadDirectory then restores it whatever is in
-- memory; or the directory does not fit, and flushDirectory throws and changes nothing.
pub flush_directory-Saved :
    (stale : Map ℕ (List ℕ)) (s : StorageManager)
    → s.opened ≡ true
    → 4 ≤ s.directory_pages * s.page_size
    → length s.directory < 4294967296
    → InRange s.directory
    → Distinct s.directory
    → Saved stale s
unfolding Saved flush_directory assert_open region_of
flush_directory-Saved stale s o big n h d =
    elim (Bool-cases (ltb (s.directory_pages * s.page_size) (4 + entries_size s.directory))) [
      | inl full ↦ inr (
        ground (arith, o, directory_image-overflow s n h big (ground (arith, full))),
        ground (arith, full),
      )
      | inr fits ↦
          let l : 4 + entries_size s.directory ≤ s.directory_pages * s.page_size =
            ground (arith, fits) in
          let s' : StorageManager = record s { file = write_at 0 (region_of s) s.file } in
          inl (
            s',
            ground (arith, o, directory_image-fits s n h l),
            refl,
            load_directory-region (record s' { directory = stale }) s.directory
                (past_entries s.directory (drop 4 (zeroes (s.directory_pages * s.page_size))))
                (region_read (record s { directory = stale }) (region_of s) s.file
                  (length-region_of s l))
                n h d,
          )
    ]
