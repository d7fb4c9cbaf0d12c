-- ===== src/Recovery/Tests.antt =====
-- The theorems on the log and on recovery at concrete logs.
use collab_write.Prelude.{
  ℕ, ◌≡◌, refl, sym, ◌∙◌, ◌⊎◌, inl, inr, Bool-cases, true, false, none, some, List, [], ◌∷◌, ◌++◌,
  length, take, map, eqb, eqb_iff, arith, nat_key,
}
use collab_write.Prelude.Map
use collab_write.Prelude.Map.{Map, get-set}
use collab_write.Prelude.Bytes.{bytes_of}
use collab_write.Recovery.Wal.{
  LogRecord, Wal, begin_code, commit_code, or_empty, payload_length, payload, frame, in_range,
  append, read_bytes,
}
use collab_write.Recovery.Wal.Codec.{as_read, frames}
use collab_write.Recovery.Wal.Crash.{appended, append-read_bytes, commit_lost}
use collab_write.Recovery.Manager.{Pages, Disk, analyse, repair}
use collab_write.Recovery.Manager.Lost.{control, update, abort_then_commit, committed_update_lost}

abbrev whole : List LogRecord
whole = control 1 begin_code 1 ∷ update 2 1 7 (7 ∷ []) (7 ∷ 9 ∷ []) ∷ []

-- An update with images of some size, so that a commit record fits into what is missing of it.
abbrev torn : LogRecord
torn = update 3 1 8 (7 ∷ 1 ∷ 1 ∷ 1 ∷ 1 ∷ 1 ∷ 1 ∷ 1 ∷ []) (7 ∷ 1 ∷ 1 ∷ 1 ∷ 1 ∷ 1 ∷ 1 ∷ 1 ∷ [])

abbrev log_of : List ℕ → Wal
log_of file = record { file = file; synced = 0; sync_on_commit = true; opened = true; next_lsn = 3 }

append-read_bytes_example :
    let w = log_of (frames whole) in
    let (w', lsn) = append commit_code 1 0 none none false w in
    ((lsn ≡ none) × (w' ≡ w))
    ⊎ ((lsn ≡ some 3)
        × (w'.next_lsn ≡ 4)
        × (read_bytes w'.file
            ≡ read_bytes w.file ++ as_read (appended commit_code 1 0 none none false w) ∷ []))
unfolding in_range payload_length or_empty
append-read_bytes_example =
    append-read_bytes commit_code 1 0 none none false (log_of (frames whole)) whole refl
      (refl, (refl, tt))

commit_lost_example :
    let (w', lsn) =
      append commit_code 2 0 none none true (log_of (frames whole ++ take 15 (frame torn))) in
    (lsn ≡ some 3) × (w'.synced ≡ length w'.file) × (read_bytes w'.file ≡ map as_read whole)
unfolding in_range payload_length or_empty frame payload bytes_of
commit_lost_example =
    commit_lost whole torn 15 2 (log_of (frames whole ++ take 15 (frame torn))) (refl, (refl, tt))
      refl (omega arith) (omega arith) refl refl (omega arith) (omega arith)

-- A file of images that start with their page's number.
abbrev first_byte : List ℕ → ℕ
first_byte [] = 0
first_byte (x ∷ xs) = x

pub others_stay :
    (b : List ℕ) (s : Map ℕ (List ℕ)) (k : ℕ)
    → (k ≡ first_byte b) ⊎ (Map.get k (Map.set (first_byte b) b s) ≡ Map.get k s)
others_stay b s k = elim (Bool-cases (eqb (first_byte b) k)) [
  | inl e ↦ inl (sym ((eqb_iff (first_byte b) k).0 e))
  | inr e ↦ inr (get-set (first_byte b) k b s ∙ ground (arith, e))
]

pub page_written :
    (b : List ℕ) (s : Map ℕ (List ℕ)) → Map.get (first_byte b) (Map.set (first_byte b) b s) ≡ some b
page_written b s =
    get-set (first_byte b) (first_byte b) b s
    ∙ ground (arith, eqb_iff (first_byte b) (first_byte b))

abbrev pub file_pages : Pages
file_pages = record {
  State = Map ℕ (List ℕ);
  Pool = Unit;
  ensure_capacity = λ p s. s;
  write_image = λ b s. some (Map.set (first_byte b) b s);
  sync = λ s. s;
  invalidate = λ p q. q;
  flush_all = λ q s. some (q, s);
  look = λ k s. Map.get k s;
  id_of = first_byte;
  IsImage = λ b. Unit;
  look-ensure_capacity = λ k p s b e. e;
  write-look = λ b s v. (Map.set (first_byte b) b s, refl, page_written b s, others_stay b s);
  look-sync = λ k s. refl;
}

abbrev disk : Disk file_pages
disk = record { state = (7, 7 ∷ 5 ∷ []) ∷ []; pool = none }

committed_update_lost_example :
    let rs = abort_then_commit 7 (7 ∷ []) (7 ∷ 1 ∷ []) (7 ∷ 2 ∷ []) in
    ((analyse rs).winners ≡ 2 ∷ [])
    × ((d' : Disk file_pages) × (redone : ℕ) × (undone : ℕ) × (repair file_pages rs disk
          ≡ some (d', redone, undone))
        × (Map.get 7 d'.state ≡ some (7 ∷ [])))
committed_update_lost_example =
    committed_update_lost file_pages disk 7 (7 ∷ []) (7 ∷ 1 ∷ []) (7 ∷ 2 ∷ []) tt tt refl refl
