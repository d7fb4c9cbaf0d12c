-- ===== src/Recovery/Wal.antt =====
-- src/engine/recovery/WAL.js: the write-ahead log. The file is the list of its bytes; what has been
-- made durable by `fsync` is the length that it had then. A read is of the bytes from the cursor on.
pub mod Codec
pub mod Crash
use collab_write.Prelude.{
  ℕ, zero, suc, ◌+◌, ◌≡◌, Bool, true, false, ◌&&◌, ◌||◌, Option, none, some, List, [], ◌∷◌, ◌++◌,
  if◌then◌else◌, ltb, eqb, length, take, drop,
}
use collab_write.Prelude.Bytes.{bytes_of, number_of}

-- RECORD_TYPES
abbrev pub begin_code : ℕ
begin_code = 1

abbrev pub update_code : ℕ
update_code = 2

abbrev pub commit_code : ℕ
commit_code = 3

abbrev pub abort_code : ℕ
abort_code = 4

abbrev pub checkpoint_code : ℕ
checkpoint_code = 5

-- A record that is read. Its `typeName` is a function of its type.
pub record LogRecord : Type 0 where
  pub lsn : ℕ
  pub type : ℕ
  pub tx_id : ℕ
  pub page_id : ℕ
  pub before_image : Option (List ℕ)
  pub after_image : Option (List ℕ)

pub record Wal : Type 0 where
  pub file : List ℕ
  pub synced : ℕ
  pub sync_on_commit : Bool
  pub opened : Bool
  pub next_lsn : ℕ

abbrev pub payload_header_size : ℕ
payload_header_size = 25

-- `image || Buffer.alloc(0)`
unfoldable pub or_empty : Option (List ℕ) → List ℕ
or_empty none = []
or_empty (some b) = b

unfoldable pub payload_length : LogRecord → ℕ
payload_length r =
    payload_header_size + length (or_empty r.before_image) + length (or_empty r.after_image)

-- What follows the length in the frame of a record.
unfoldable pub payload : LogRecord → List ℕ
payload r =
    bytes_of 8 r.lsn
    ++ bytes_of 1 r.type
    ++ bytes_of 4 r.tx_id
    ++ bytes_of 4 r.page_id
    ++ bytes_of 4 (length (or_empty r.before_image))
    ++ bytes_of 4 (length (or_empty r.after_image))
    ++ or_empty r.before_image
    ++ or_empty r.after_image

unfoldable pub frame : LogRecord → List ℕ
unfolding payload payload_length
frame r = bytes_of 4 (payload_length r) ++ payload r

-- The writes of the frame throw when a number is out of range.
unfoldable pub in_range : LogRecord → Bool
unfolding payload_length
in_range r =
    ltb r.lsn 18446744073709551616
    && ltb r.type 256
    && ltb r.tx_id 4294967296
    && ltb r.page_id 4294967296
    && ltb (payload_length r) 4294967296

unfoldable pub write : Bool → LogRecord → Wal → Wal
unfolding frame
write sync r w =
    let file = w.file ++ frame r in
    record w {
      file = file;
      synced =
          if sync || (w.sync_on_commit && eqb r.type commit_code) then length file else w.synced;
      next_lsn = w.next_lsn + 1;
    }

-- The number of the record, or none when the call throws.
unfoldable pub append : ℕ → ℕ → ℕ → Option (List ℕ) → Option (List ℕ) → Bool → Wal → Wal × Option ℕ
unfolding write in_range
append type tx_id page_id before_image after_image sync w =
    let r : LogRecord = record {
      lsn = w.next_lsn;
      type = type;
      tx_id = tx_id;
      page_id = page_id;
      before_image = before_image;
      after_image = after_image;
    } in
    if w.opened && in_range r then (write sync r w, some w.next_lsn) else (w, none)

-- `length ? data.subarray(…) : null`
unfoldable pub image : ℕ → List ℕ → Option (List ℕ)
image zero bs = none
image (suc n) bs = some (take (suc n) bs)

-- The record whose payload starts here.
unfoldable pub parse : List ℕ → LogRecord
unfolding image
parse p =
    let before_length = number_of 4 (drop 17 p) in
    let after_length = number_of 4 (drop 21 p) in
    record {
      lsn = number_of 8 p;
      type = number_of 1 (drop 8 p);
      tx_id = number_of 4 (drop 9 p);
      page_id = number_of 4 (drop 13 p);
      before_image = image before_length (drop 25 p);
      after_image = image after_length (drop before_length (drop 25 p));
    }

-- The loop of `readAll` over the bytes from the cursor on. Each turn takes a record; the number of
-- bytes bounds the turns.
unfoldable pub read_from : ℕ → List ℕ → List LogRecord
unfolding parse
read_from zero bs = []
read_from (suc n) bs =
    let p = drop 4 bs in
    let size = number_of 4 bs in
    let rest = read_from n (drop size p) in
    if ltb (length bs) 4
    then []
    else if ltb size payload_header_size || ltb (length bs) (4 + size)
    then []
    else parse p ∷ rest

unfoldable pub read_bytes : List ℕ → List LogRecord
unfolding read_from
read_bytes bs = read_from (length bs) bs

-- None when the log is not open.
unfoldable pub read_all : Wal → Option (List LogRecord)
unfolding read_bytes
read_all w = if w.opened then some (read_bytes w.file) else none

last_lsn : List LogRecord → ℕ
last_lsn [] = 0
last_lsn (r ∷ []) = r.lsn
last_lsn (r ∷ s ∷ rs) = last_lsn (s ∷ rs)

unfoldable pub open_log : Wal → Wal
unfolding read_bytes last_lsn
open_log w =
    if w.opened then w else record w { opened = true; next_lsn = last_lsn (read_bytes w.file) + 1 }

unfoldable pub close : Wal → Wal
close w = record w { opened = false }

-- None when the log is not open.
unfoldable pub truncate : Wal → Option Wal
truncate w = if w.opened then some (record w { file = []; next_lsn = 1 }) else none
