-- ===== src/Storage/Tests.antt =====
-- The theorems on src/engine/storage at concrete pages and files.
use collab_write.Prelude.{
  ℕ, ◌≡◌, refl, ap, sym, ◌∙◌, true, not, some, List, [], ◌∷◌, ◌++◌, length, arith, eqb, All,
  nat_key,
}
use collab_write.Prelude.Bytes.{bytes_of, number_of}
use collab_write.Prelude.Map.{Map, Distinct, has}
use collab_write.Storage.Page.{
  Page, Record, returned, zeroes, read_uint, record_count, list_records, delete_record, page_id,
}
use collab_write.Storage.Page.Layout.{InRange, encode_one, encode, header, Holds}
use collab_write.Storage.Page.Contents.{page_id-Holds, list_records-Holds}
use collab_write.Storage.Page.Changes.{Inserted, insert_record-Inserted}
use collab_write.Storage.Page.Rewriting.{
  Updated, update_record-Updated, others, delete_record-Holds,
}
use collab_write.Storage.Page.Checksum.{serialize, deserialize, loaded, is_blank}
use collab_write.Storage.Page.Image.{Clean, serialize-Clean, Accepted, deserialize-Accepted}
use collab_write.Storage.Manager.{StorageManager, done, write_page, read_page, assert_open, read_at}
use collab_write.Storage.Manager.Pages.{
  state_of, Stored, write_page-Stored, read_page-write_page_ne,
}
use collab_write.Storage.Manager.Flush.{Saved, flush_directory-Saved}
use collab_write.Storage.Manager.Entries

abbrev title : Record
title = record { record_id = 1; version = 1; payload = 72 ∷ 105 ∷ [] }

abbrev body : Record
body = record { record_id = 2; version = 1; payload = 111 ∷ 107 ∷ 33 ∷ [] }

abbrev longer_title : Record
longer_title = record { record_id = 1; version = 2; payload = 72 ∷ 101 ∷ 121 ∷ 33 ∷ [] }

abbrev two : List Record
two = title ∷ body ∷ []

-- Page 3 of 64 bytes with the two records.
abbrev page : Page
page = record { page_size = 64; buffer = header 3 0 1 2 ++ (encode two ++ zeroes 24) }

two-InRange : All InRange two
unfolding InRange
two-InRange =
    ((omega arith, omega arith, omega arith), ((omega arith, omega arith, omega arith), tt))

page-Holds : Holds 64 3 two page.buffer
unfolding Holds header encode encode_one bytes_of zeroes
page-Holds = (0, 1, zeroes 24, refl, refl, omega arith, omega arith, two-InRange)

list_records-Holds_example : list_records page.buffer ≡ some two
list_records-Holds_example = list_records-Holds 64 3 two page.buffer page-Holds

abbrev fifth : Record
fifth = record { record_id = 5; version = 1; payload = 72 ∷ [] }

fifth-InRange : InRange fifth
unfolding InRange
fifth-InRange = (omega arith, omega arith, omega arith)

longer_title-InRange : InRange longer_title
unfolding InRange
longer_title-InRange = (omega arith, omega arith, omega arith)

insert_record-Inserted_example : Inserted fifth page 3 two
insert_record-Inserted_example =
    insert_record-Inserted fifth page 3 two page-Holds fifth-InRange (omega arith)

update_record-Updated_example : Updated longer_title page 3 two
update_record-Updated_example =
    update_record-Updated longer_title page 3 two page-Holds longer_title-InRange

delete_record-Holds_example :
    (b : List ℕ) × (delete_record 1 page
      ≡ returned (not (eqb (length (others 1 two)) (length two))) b)
    × Holds 64 3 (others 1 two) b
delete_record-Holds_example = delete_record-Holds 1 page 3 two page-Holds

serialize-Clean_example : (b : List ℕ) × (serialize page ≡ some b) × Clean 64 3 two b
serialize-Clean_example = serialize-Clean page 3 two page-Holds

-- A page that was never written.
blank_loads : deserialize (zeroes 64) 64 ≡ loaded (record { page_size = 64; buffer = zeroes 64 })
unfolding deserialize zeroes read_uint number_of page_id record_count is_blank
blank_loads = refl

deserialize-Accepted_example :
    Accepted (zeroes 64) 64 (record { page_size = 64; buffer = zeroes 64 })
deserialize-Accepted_example =
    deserialize-Accepted (zeroes 64) 64 (record { page_size = 64; buffer = zeroes 64 }) blank_loads

abbrev directory : Map ℕ (List ℕ)
directory = (7, 1 ∷ 3 ∷ []) ∷ (9, 2 ∷ []) ∷ []

-- A file of the directory page and five pages that were never written.
abbrev storage : StorageManager
storage = record {
  page_size = 64;
  directory_pages = 1;
  file = zeroes 384;
  durable = [];
  directory = directory;
  opened = true;
}

write_page-Stored_example : Stored page storage 3 two
write_page-Stored_example = write_page-Stored page storage 3 two refl (omega arith) refl page-Holds

directory-InRange : Entries.InRange directory
unfolding Entries.InRange
directory-InRange = (
  omega arith,
  omega arith,
  (omega arith, (omega arith, tt)),
  (omega arith, omega arith, (omega arith, tt), tt),
)

directory-Distinct : Distinct directory
unfolding has
directory-Distinct = (refl, (refl, tt))

flush_directory-Saved_example : Saved [] storage
flush_directory-Saved_example =
    flush_directory-Saved [] storage refl (omega arith) (omega arith) directory-InRange
      directory-Distinct

abbrev empty_page : Page
empty_page = record { page_size = 64; buffer = zeroes 64 }

page_four : read_page 4 storage ≡ done empty_page storage
unfolding read_page deserialize zeroes read_uint number_of page_id record_count is_blank assert_open
    read_at
page_four = refl

abbrev after : StorageManager
after = state_of (write_page page storage)

written : (q : Page) × (write_page page storage ≡ done q after)
unfolding Stored
written =
    let (q, s', b, w, _, _, _) =
      write_page-Stored page storage 3 two refl (omega arith) refl page-Holds in
    (q, w ∙ ap (done q) (sym (ap state_of w)))

page-size : length page.buffer ≡ 64
unfolding header encode encode_one bytes_of zeroes
page-size = refl

read_page-write_page_ne_example : read_page 4 after ≡ done empty_page after
read_page-write_page_ne_example =
    read_page-write_page_ne 4 3 page written.0 empty_page storage after
      (page_id-Holds 64 3 two page.buffer page-Holds) page-size written.1 page_four (omega arith)
