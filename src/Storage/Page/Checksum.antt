-- ===== src/Storage/Page/Checksum.antt =====
-- The CRC-32 of src/engine/storage/Page.js, and the images that it guards. A signed 32-bit number
-- of the source stands here as its unsigned pattern.
use Prim.Native.Nat.{bit_xor}
use collab_write.Prelude.{
  ℕ, zero, suc, ◌+◌, ◌/◌, ◌%◌, ◌^◌, Bool, ◌&&◌, Option, none, some, List, [], ◌∷◌, length,
  if◌then◌else◌, ltb, leb, eqb,
}
use collab_write.Prelude.Bytes.{bytes_of}
use collab_write.Storage.Page.{
  Page, read_uint, patch, page_id, record_count, offset_dirty, offset_checksum,
}

-- The inner loop of `CRC_TABLE`, with the rounds that are left.
unfoldable pub table_entry : ℕ → ℕ → ℕ
table_entry zero c = c
table_entry (suc bit) c =
    table_entry bit (if eqb (c % 2) 1 then bit_xor 0xedb88320 (c / 2) else c / 2)

-- The loop of `crc32` from the index `i` on.
unfoldable pub crc_from : ℕ → ℕ → ℕ → ℕ → List ℕ → ℕ
crc_from skip_start skip_end i crc [] = crc
crc_from skip_start skip_end i crc (b ∷ bs) =
    crc_from skip_start skip_end (i + 1)
      (if leb skip_start i && ltb i skip_end
        then crc
        else bit_xor (crc / 256) (table_entry 8 (bit_xor crc b % 256)))
      bs

-- The defaults -1 skip nothing, as equal bounds do.
unfoldable pub crc32 : List ℕ → ℕ → ℕ → ℕ
crc32 buf skip_start skip_end =
    bit_xor (crc_from skip_start skip_end 0 0xffffffff buf) 0xffffffff % 2 ^ 32

-- `serialize`: the image; none when the buffer has no room for the header.
unfoldable pub serialize : Page → Option (List ℕ)
serialize p =
    if leb 9 (length p.buffer)
    then (let image = patch offset_dirty (bytes_of 1 0) p.buffer in
        some (
          patch offset_checksum (bytes_of 4 (crc32 image offset_checksum (offset_checksum + 4)))
            image))
    else none

-- What `deserialize` gives: a page, or its three errors.
pub data Loaded : Type 0 where
  loaded : Page → Loaded
  wrong_size : Loaded
  corrupt : (page_id expected actual : ℕ) → Loaded
  too_short : Loaded

unfoldable pub is_blank : ℕ → ℕ → Bool
is_blank stored count = eqb stored 0 && eqb count 0

-- The record count is read only when the stored checksum is 0.
unfoldable pub deserialize : List ℕ → ℕ → Loaded
deserialize image page_size =
    if eqb (length image) page_size
    then elim (read_uint 4 offset_checksum image) [
      | none ↦ too_short
      | some stored ↦ elim (page_id image) [
        | none ↦ too_short
        | some k ↦
            let actual = crc32 image offset_checksum (offset_checksum + 4) in
            let page : Page = record { page_size = page_size; buffer = image } in
            elim (record_count image) [
              | none ↦
                  if eqb stored 0
                  then too_short
                  else if eqb actual stored
                  then loaded page
                  else corrupt k stored actual
              | some count ↦
                  if is_blank stored count
                  then loaded page
                  else if eqb actual stored
                  then loaded page
                  else corrupt k stored actual
            ]
      ]
    ]
    else wrong_size
