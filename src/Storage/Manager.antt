-- ===== src/Storage/Manager.antt =====
-- src/engine/storage/StorageManager.js: the data file is the list of its bytes, `durable` its bytes
-- at the last `fsync`. A call that throws keeps what it has changed, so both cases carry the state.
-- `openReadWrite` and the `fs` calls are taken to succeed; the page size is not 0.
pub mod Bytes
pub mod Pages
pub mod Entries
pub mod Directory
pub mod Flush
use collab_write.Prelude.{
  ℕ, zero, suc, ◌+◌, ◌-◌, ◌*◌, ◌/◌, ◌≡◌, Bool, true, false, Option, none, some, List, [], ◌∷◌, ◌++◌,
  map, length, take, drop, if◌then◌else◌, ltb, eqb, Key, nat_key,
}
use collab_write.Prelude.Map.{Map, get, set, has}
use collab_write.Storage.Page.{
  Page, Record, Outcome, returned, page_full, range_error, zeroes, blank, page_id, read_uint,
  write_uint, set_dirty, list_records,
}
use collab_write.Storage.Page.Checksum.{
  serialize, deserialize, Loaded, loaded, wrong_size, corrupt, too_short,
}

pub record StorageManager : Type 0 where
  pub page_size : ℕ
  pub directory_pages : ℕ
  pub file : List ℕ
  pub durable : List ℕ
  pub directory : Map ℕ (List ℕ)
  pub opened : Bool

-- What is thrown.
pub data Fault : Type 0 where
  not_open : Fault
  no_document : ℕ → Fault
  directory_overflow : Fault
  reserved_page : ℕ → Fault
  short_read : ℕ → Fault
  bad_image : Fault
  out_of_range : Fault

pub data Answer {ℓ} (A : Type ℓ) : Type ℓ where
  done : A → StorageManager → Answer A
  failed : Fault → StorageManager → Answer A

infixr 5 ◌and_then◌
unfoldable pub ◌and_then◌ {ℓ κ} :
    {A : Type ℓ} {B : Type κ} → Answer A → (A → StorageManager → Answer B) → Answer B
done a s and_then f = f a s
failed e s and_then f = failed e s

-- `ftruncate`, a write at a position and a read at one.
unfoldable pub truncate : ℕ → List ℕ → List ℕ
truncate n file = take n file ++ zeroes (n - length file)

unfoldable pub write_at : ℕ → List ℕ → List ℕ → List ℕ
write_at off bs file = truncate off file ++ bs ++ drop (off + length bs) file

unfoldable pub read_at : ℕ → ℕ → List ℕ → List ℕ
read_at off n file = take n (drop off file)

unfoldable pub page_count : StorageManager → ℕ
page_count s = if s.opened then length s.file / s.page_size else 0

unfoldable pub close : StorageManager → StorageManager
close s = record s { opened = false }

unfoldable pub assert_open {ℓ} : {A : Type ℓ} → StorageManager → Answer A → Answer A
assert_open s a = if s.opened then a else failed not_open s

-- The inner loop of `loadDirectory`.
unfoldable pub load_ids : ℕ → ℕ → List ℕ → Option (List ℕ)
load_ids zero off region = some []
load_ids (suc n) off region = elim (read_uint 4 off region) [
  | none ↦ none
  | some k ↦ elim (load_ids n (off + 4) region) [ none ↦ none | some ks ↦ some (k ∷ ks) ]
]

-- The loop of `loadDirectory`, which fills the map; none when a read throws.
unfoldable pub load_entries : ℕ → ℕ → List ℕ → StorageManager → Answer {0} Unit
load_entries zero off region s = done tt s
load_entries (suc n) off region s = elim (read_uint 4 off region) [
  | none ↦ failed out_of_range s
  | some doc_id ↦ elim (read_uint 2 (off + 4) region) [
    | none ↦ failed out_of_range s
    | some count ↦ elim (load_ids count (off + 6) region) [
      | none ↦ failed out_of_range s
      | some ks ↦
          load_entries n (off + 6 + 4 * count) region
            (record s { directory = set doc_id ks s.directory })
    ]
  ]
]

-- The directory's region, behind whose bytes in the file the buffer stays zero.
unfoldable pub directory_region : StorageManager → List ℕ
directory_region s =
    let size = s.directory_pages * s.page_size in
    let bs = read_at 0 size s.file in bs ++ zeroes (size - length bs)

unfoldable pub load_directory : StorageManager → Answer {0} Unit
load_directory s =
    let region = directory_region s in
    let empty : StorageManager = record s { directory = [] } in
    elim (read_uint 4 0 region) [
      | none ↦ failed out_of_range empty
      | some n ↦ load_entries n 4 region empty
    ]

-- The region that `flushDirectory` builds, or what it throws.
pub data Region : Type 0 where
  built : List ℕ → Region
  overflow : Region
  unwritable : Region

unfoldable pub writing : Outcome {0} Unit → (List ℕ → Region) → Region
writing (returned u region) f = f region
writing (page_full k n a region) f = unwritable
writing (range_error region) f = unwritable

-- The inner loop of `flushDirectory`, and what follows it.
unfoldable pub put_ids : List ℕ → ℕ → List ℕ → (List ℕ → Region) → Region
put_ids [] off region next = next region
put_ids (k ∷ ks) off region next =
    writing (write_uint 4 k off region) λ r. put_ids ks (off + 4) r next

unfoldable pub put_entries : Map ℕ (List ℕ) → ℕ → List ℕ → Region
put_entries [] off region = built region
put_entries ((doc_id, ks) ∷ m) off region =
    if ltb (length region) (off + (6 + length ks * 4))
    then overflow
    else writing (write_uint 4 doc_id off region) λ r1.
      writing (write_uint 2 (length ks) (off + 4) r1)
        λ r2. put_ids ks (off + 6) r2 λ r3. put_entries m (off + 6 + 4 * length ks) r3

unfoldable pub directory_image : StorageManager → Region
directory_image s =
    writing (write_uint 4 (length s.directory) 0 (zeroes (s.directory_pages * s.page_size)))
      (put_entries s.directory 4)

unfoldable pub flush_directory : StorageManager → Answer {0} Unit
flush_directory s = assert_open s (elim (directory_image s) [
  | built region ↦ done tt (record s { file = write_at 0 region s.file })
  | overflow ↦ failed directory_overflow s
  | unwritable ↦ failed out_of_range s
])

unfoldable pub open_storage : StorageManager → Answer {0} Unit
open_storage s0 =
    if s0.opened
    then done tt s0
    else let s : StorageManager = record s0 { opened = true } in
      if eqb (length s.file) 0
      then flush_directory (record s { file = truncate (s.directory_pages * s.page_size) s.file })
      else load_directory s

unfoldable pub has_document : ℕ → StorageManager → Bool
has_document doc_id s = has doc_id s.directory

unfoldable pub list_documents : StorageManager → List ℕ
list_documents s = map (λ e. e.0) s.directory

unfoldable pub get_document_pages : ℕ → StorageManager → Answer (List ℕ)
get_document_pages doc_id s = elim (get doc_id s.directory) [
  | none ↦ failed (no_document doc_id) s
  | some ks ↦ done ks s
]

-- `readPage`
unfoldable pub read_page : ℕ → StorageManager → Answer Page
read_page k s =
    let image = read_at (k * s.page_size) s.page_size s.file in
    assert_open s (
      if ltb k s.directory_pages
      then failed (reserved_page k) s
      else if eqb (length image) s.page_size
      then elim (deserialize image s.page_size) [
        | loaded p ↦ done p s
        | wrong_size ↦ failed bad_image s
        | corrupt id expected actual ↦ failed bad_image s
        | too_short ↦ failed out_of_range s
      ]
      else failed (short_read k) s)

-- The page with its dirty flag off, as `writePage` leaves the object that it is given.
unfoldable pub write_page : Page → StorageManager → Answer Page
write_page p s = assert_open s (elim (serialize p) [
  | none ↦ failed out_of_range s
  | some image ↦ elim (page_id p.buffer) [
    | none ↦ failed out_of_range s
    | some k ↦
        let written : StorageManager = record s {
          file = write_at (k * s.page_size) image s.file;
        } in
        elim (set_dirty false p.buffer) [
          | returned u buf ↦ done (record p { buffer = buf }) written
          | page_full id n a buf ↦ failed out_of_range written
          | range_error buf ↦ failed out_of_range written
        ]
  ]
])

unfoldable pub write_page_image : ℕ → List ℕ → StorageManager → Answer Page
write_page_image k image s = assert_open s (elim (deserialize image s.page_size) [
  | loaded p ↦ write_page p s
  | wrong_size ↦ failed bad_image s
  | corrupt id expected actual ↦ failed bad_image s
  | too_short ↦ failed out_of_range s
])

-- `this.directory.get(docId).push(pageId)`
unfoldable pub push_page : ℕ → ℕ → Map ℕ (List ℕ) → Map ℕ (List ℕ)
push_page doc_id k m = elim (get doc_id m) [ none ↦ m | some ks ↦ set doc_id (ks ++ k ∷ []) m ]

unfoldable pub allocate_page : ℕ → StorageManager → Answer ℕ
allocate_page doc_id s = assert_open s (
    if has doc_id s.directory
    then (let k = page_count s in
        let longer : StorageManager = record s { file = truncate ((k + 1) * s.page_size) s.file } in
        elim (blank k s.page_size) [
          | none ↦ failed out_of_range longer
          | some p ↦ write_page p longer and_then λ (q : Page) (s1 : StorageManager).
              flush_directory (record s1 { directory = push_page doc_id k s1.directory })
              and_then λ (u : Unit) (s2 : StorageManager). done k s2
        ])
    else failed (no_document doc_id) s)

-- The page of a document that is there already; none is the `undefined` of one without pages.
unfoldable pub create_document : ℕ → StorageManager → Answer (Option ℕ)
create_document doc_id s = assert_open s (elim (get doc_id s.directory) [
  | some [] ↦ done none s
  | some (k ∷ ks) ↦ done (some k) s
  | none ↦
      allocate_page doc_id (record s { directory = set doc_id [] s.directory })
      and_then λ (k : ℕ) (s1 : StorageManager). done (some k) s1
])

unfoldable pub ensure_capacity : ℕ → StorageManager → Answer {0} Unit
ensure_capacity k s =
    let required = (k + 1) * s.page_size in
    assert_open s (
      done tt
        (if ltb (length s.file) required then record s { file = truncate required s.file } else s))

unfoldable pub sync : StorageManager → Answer {0} Unit
sync s = assert_open s (done tt (record s { durable = s.file }))

-- The loops of `readDocumentRecords`; each record comes with its page.
unfoldable pub read_records : List ℕ → StorageManager → Answer (List (Record × ℕ))
read_records [] s = done [] s
read_records (k ∷ ks) s = read_page k s and_then λ (p : Page) (s1 : StorageManager).
    elim (list_records p.buffer) [
      | none ↦ failed out_of_range s1
      | some rs ↦ read_records ks s1 and_then λ (more : List (Record × ℕ)) (s2 : StorageManager).
          done (map (λ r. (r, k)) rs ++ more) s2
    ]

unfoldable pub read_document_records : ℕ → StorageManager → Answer (List (Record × ℕ))
read_document_records doc_id s =
    get_document_pages doc_id s and_then λ (ks : List ℕ) (s1 : StorageManager). read_records ks s1
