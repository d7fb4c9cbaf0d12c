-- ===== src/Storage/Page.antt =====
-- src/engine/storage/Page.js: a page is its size and its buffer, a list of bytes. A call that
-- throws in the middle keeps what it has written, so an outcome carries the buffer.
pub mod Checksum
pub mod Layout
pub mod Records
pub mod Writing
pub mod Contents
pub mod Changes
pub mod Rewriting
pub mod Image
use collab_write.Prelude.{
  ℕ, zero, suc, ◌+◌, ◌-◌, ◌*◌, ◌^◌, ◌≡◌, Bool, true, false, not, ◌&&◌, Option, none, some, List, [],
  ◌∷◌, ◌++◌, length, take, drop, filter, set, if◌then◌else◌, ltb, leb, eqb,
}
use collab_write.Prelude.Bytes.{bytes_of, number_of}
use collab_write.Prelude.Int.{ℤ, sub_ℕ}

-- PAGE_HEADER_SIZE, RECORD_HEADER_SIZE and the offsets of the header.
abbrev pub page_header_size : ℕ
page_header_size = 11

abbrev pub record_header_size : ℕ
record_header_size = 12

abbrev pub offset_page_id : ℕ
offset_page_id = 0

abbrev pub offset_checksum : ℕ
offset_checksum = 4

abbrev pub offset_dirty : ℕ
offset_dirty = 8

abbrev pub offset_record_count : ℕ
offset_record_count = 9

pub record Page : Type 0 where
  pub page_size : ℕ
  pub buffer : List ℕ

pub record Record : Type 0 where
  pub record_id : ℕ
  pub version : ℕ
  pub payload : List ℕ

-- What a call gives, with the buffer it leaves: a result, a `PageFullError`, or the `RangeError` of
-- a read or a write outside of the buffer or of the integer's range.
pub data Outcome {ℓ} (A : Type ℓ) : Type ℓ where
  returned : A → List ℕ → Outcome A
  page_full : (page_id needed : ℕ) (available : ℤ) → List ℕ → Outcome A
  range_error : List ℕ → Outcome A

-- The next statement, when this one has not thrown.
infixr 5 ◌then_do◌
unfoldable pub ◌then_do◌ {ℓ κ} :
    {A : Type ℓ} {B : Type κ} → Outcome A → (A → List ℕ → Outcome B) → Outcome B
returned a buf then_do f = f a buf
page_full k n a buf then_do f = page_full k n a buf
range_error buf then_do f = range_error buf

-- A read, whose failure is a `RangeError`.
unfoldable pub reading {ℓ κ} :
    {A : Type ℓ} {B : Type κ} → Option A → List ℕ → (A → Outcome B) → Outcome B
reading none buf f = range_error buf
reading (some a) buf f = f a

-- `readUInt…LE` of `w` bytes.
unfoldable pub read_uint : ℕ → ℕ → List ℕ → Option ℕ
read_uint w off buf = if leb (off + w) (length buf) then some (number_of w (drop off buf)) else none

-- The bytes from `off` on replaced.
unfoldable pub patch : ℕ → List ℕ → List ℕ → List ℕ
patch off bs buf = take off buf ++ bs ++ drop (off + length bs) buf

-- `writeUInt…LE` of `w` bytes.
unfoldable pub write_uint : ℕ → ℕ → ℕ → List ℕ → Outcome {0} Unit
write_uint w n off buf =
    if ltb n (256 ^ w) && leb (off + w) (length buf)
    then returned tt (patch off (bytes_of w n) buf)
    else range_error buf

-- `body.copy(buffer, off)`: what does not fit is left out.
unfoldable pub copy : List ℕ → ℕ → List ℕ → List ℕ
copy body off buf = patch off (take (length buf - off) body) buf

unfoldable pub zeroes : ℕ → List ℕ
zeroes zero = []
zeroes (suc n) = 0 ∷ zeroes n

-- `buffer.fill(0, off)`
unfoldable pub fill : ℕ → List ℕ → Outcome {0} Unit
fill off buf =
    if leb off (length buf)
    then returned tt (take off buf ++ zeroes (length buf - off))
    else range_error buf

-- `new Page(pageId, pageSize, buffer)`; none when it throws.
unfoldable pub of_buffer : ℕ → List ℕ → Option Page
of_buffer page_size buf =
    if eqb (length buf) page_size
    then some (record { page_size = page_size; buffer = buf })
    else none

-- `new Page(pageId, pageSize)`
unfoldable pub blank : ℕ → ℕ → Option Page
blank page_id page_size =
    elim (write_uint 4 page_id offset_page_id (zeroes page_size)
      then_do λ (u : Unit) (buf : List ℕ). write_uint 2 0 offset_record_count buf) [
        | returned u buf ↦ some (record { page_size = page_size; buffer = buf })
        | page_full k n a buf ↦ none
        | range_error buf ↦ none
      ]

unfoldable pub page_id : List ℕ → Option ℕ
page_id buf = read_uint 4 offset_page_id buf

unfoldable pub record_count : List ℕ → Option ℕ
record_count buf = read_uint 2 offset_record_count buf

unfoldable pub dirty : List ℕ → Option Bool
dirty buf = elim (read_uint 1 offset_dirty buf) [ none ↦ none | some d ↦ some (eqb d 1) ]

unfoldable pub set_dirty : Bool → List ℕ → Outcome {0} Unit
set_dirty value buf = write_uint 1 (if value then 1 else 0) offset_dirty buf

-- The loop of `endOffset`, with the rounds that are left.
unfoldable pub end_from : ℕ → ℕ → List ℕ → Option ℕ
end_from zero off buf = some off
end_from (suc n) off buf = elim (read_uint 4 (off + 4) buf) [
  | none ↦ none
  | some len ↦ end_from n (off + (record_header_size + len)) buf
]

unfoldable pub end_offset : List ℕ → Option ℕ
end_offset buf = elim (record_count buf) [ none ↦ none | some n ↦ end_from n page_header_size buf ]

unfoldable pub free_space : Page → Option ℤ
free_space p = elim (end_offset p.buffer) [ none ↦ none | some e ↦ some (sub_ℕ p.page_size e) ]

-- The record at an offset, with the length that its header gives: the payload is cut at the end of
-- the buffer.
unfoldable pub record_at : ℕ → List ℕ → Option (Record × ℕ)
record_at off buf = elim (read_uint 4 off buf) [
  | none ↦ none
  | some id ↦ elim (read_uint 4 (off + 4) buf) [
    | none ↦ none
    | some len ↦ elim (read_uint 4 (off + 8) buf) [
      | none ↦ none
      | some version ↦ some (
        record {
          record_id = id;
          version = version;
          payload = take len (drop (off + record_header_size) buf);
        },
        len,
      )
    ]
  ]
]

-- The loop of `readRecord`, with the record's offset; the inner none is its `null`.
unfoldable pub find_from : ℕ → ℕ → ℕ → List ℕ → Option (Option (Record × ℕ))
find_from id zero off buf = some none
find_from id (suc n) off buf = elim (record_at off buf) [
  | none ↦ none
  | some (r, len) ↦
      let rest = find_from id n (off + (record_header_size + len)) buf in
      if eqb r.record_id id then some (some (r, off)) else rest
]

unfoldable pub read_record : ℕ → List ℕ → Option (Option (Record × ℕ))
read_record id buf = elim (record_count buf) [
  | none ↦ none
  | some n ↦ find_from id n page_header_size buf
]

-- The loop of `listRecords`.
unfoldable pub list_from : ℕ → ℕ → List ℕ → Option (List Record)
list_from zero off buf = some []
list_from (suc n) off buf = elim (record_at off buf) [
  | none ↦ none
  | some (r, len) ↦ elim (list_from n (off + (record_header_size + len)) buf) [
    | none ↦ none
    | some rs ↦ some (r ∷ rs)
  ]
]

unfoldable pub list_records : List ℕ → Option (List Record)
list_records buf = elim (record_count buf) [
  | none ↦ none
  | some n ↦ list_from n page_header_size buf
]

-- The three numbers and the payload, as `insertRecord` and `rewriteRecords` write them.
unfoldable pub put_record : Record → ℕ → List ℕ → Outcome {0} Unit
put_record r off b0 = write_uint 4 r.record_id off b0 then_do λ (u : Unit) (b1 : List ℕ).
    write_uint 4 (length r.payload) (off + 4) b1 then_do λ (u : Unit) (b2 : List ℕ).
    write_uint 4 r.version (off + 8) b2 then_do λ (u : Unit) (b3 : List ℕ).
    returned tt (copy r.payload (off + record_header_size) b3)

-- The count and the dirty flag at the end of a change.
unfoldable pub put_count : ℕ → List ℕ → Outcome {0} Unit
put_count n b0 =
    write_uint 2 n offset_record_count b0 then_do λ (u : Unit) (b1 : List ℕ). set_dirty true b1

unfoldable pub insert_record : ℕ → List ℕ → ℕ → Page → Outcome ℕ
insert_record id body version p =
    let buf : List ℕ = p.buffer in
    let needed = record_header_size + length body in
    let r : Record = record { record_id = id; version = version; payload = body } in
    reading (end_offset buf) buf λ (off : ℕ). reading (page_id buf) buf λ (k : ℕ).
      reading (record_count buf) buf λ (n : ℕ).
        if ltb p.page_size (off + needed)
        then page_full k needed (sub_ℕ p.page_size off) buf
        else put_record r off buf then_do λ (u : Unit) (b1 : List ℕ).
            put_count (n + 1) b1 then_do λ (u : Unit) (b2 : List ℕ). returned id b2

-- The `reduce` of `rewriteRecords`.
unfoldable pub required : List Record → ℕ
required [] = 0
required (r ∷ rs) = record_header_size + length r.payload + required rs

-- The loop of `rewriteRecords`.
unfoldable pub put_all : List Record → ℕ → List ℕ → Outcome {0} Unit
put_all [] off buf = returned tt buf
put_all (r ∷ rs) off buf = put_record r off buf then_do λ (u : Unit) (b1 : List ℕ).
    put_all rs (off + (record_header_size + length r.payload)) b1

unfoldable pub rewrite_records : List Record → Page → Outcome {0} Unit
rewrite_records rs p =
    let buf : List ℕ = p.buffer in
    reading (page_id buf) buf λ (k : ℕ).
      if ltb p.page_size (page_header_size + required rs)
      then page_full k (required rs) (sub_ℕ p.page_size page_header_size) buf
      else fill page_header_size buf then_do λ (u : Unit) (b1 : List ℕ).
          put_all rs page_header_size b1 then_do λ (u : Unit) (b2 : List ℕ).
          put_count (length rs) b2

-- The first record with the id replaced; none when there is no such record (`findIndex` gives -1).
unfoldable pub replace_first : Record → List Record → Option (List Record)
replace_first r [] = none
replace_first r (q ∷ qs) =
    let rest : Option (List Record) = replace_first r qs in
    if eqb q.record_id r.record_id
    then some (r ∷ qs)
    else elim rest [ none ↦ none | some rs ↦ some (q ∷ rs) ]

unfoldable pub update_record : ℕ → List ℕ → ℕ → Page → Outcome Bool
update_record id body version p =
    let buf : List ℕ = p.buffer in
    reading (list_records buf) buf λ (rs : List Record).
      elim (replace_first (record { record_id = id; version = version; payload = body }) rs) [
        | none ↦ returned false buf
        | some qs ↦ rewrite_records qs p then_do λ (u : Unit) (b : List ℕ). returned true b
      ]

unfoldable pub delete_record : ℕ → Page → Outcome Bool
delete_record id p =
    let buf : List ℕ = p.buffer in
    reading (list_records buf) buf λ (rs : List Record).
      let remaining = filter (λ r. not (eqb r.record_id id)) rs in
      if eqb (length remaining) (length rs)
      then returned false buf
      else rewrite_records remaining p then_do λ (u : Unit) (b : List ℕ). returned true b
