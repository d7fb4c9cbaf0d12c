-- ===== src/Recovery/Wal/Crash.antt =====
-- What src/engine/recovery/WAL.js reads after appends, and after a crash in the middle of one.
use collab_write.Prelude.{
  ℕ, ◌+◌, ◌≤◌, ◌<◌, ◌≡◌, refl, ap, sym, ◌∙◌, ◌⊎◌, inl, inr, Bool, true, ◌&&◌, Option, none, some,
  List, [], ◌∷◌, ◌++◌, if_intro, length, take, map, append-nil, append_assoc, arith, All,
}
use collab_write.Recovery.Wal.{
  LogRecord, Wal, or_empty, commit_code, payload_length, frame, in_range, write, append, read_from,
  read_bytes,
}
use collab_write.Recovery.Wal.Codec.{
  as_read, frames, read_bytes-frames, read_from_short, read_from_cut, length-frame,
}
use mathlib.Core.List.{map-append}

frames_last : (rs : List LogRecord) (r : LogRecord) → frames rs ++ frame r ≡ frames (rs ++ r ∷ [])
unfolding frames
frames_last [] r = sym (append-nil (frame r))
frames_last (s ∷ rs) r =
    append_assoc (frame s) (frames rs) (frame r) ∙ ap (λ l. frame s ++ l) (frames_last rs r)

append-All :
    (rs : List LogRecord) (r : LogRecord)
    → All (λ s. in_range s ≡ true) rs
    → in_range r ≡ true
    → All (λ s. in_range s ≡ true) (rs ++ r ∷ [])
append-All [] r h e = (e, tt)
append-All (s ∷ rs) r (v, h) e = (v, append-All rs r h e)

empty_tail : (n : ℕ) → read_from n [] ≡ []
empty_tail n = read_from_short n [] (omega arith)

-- The whole log is read.
read_bytes_whole :
    (rs : List LogRecord)
    → All (λ r. in_range r ≡ true) rs
    → read_bytes (frames rs) ≡ map as_read rs
read_bytes_whole rs h =
    ap read_bytes (sym (append-nil (frames rs))) ∙ read_bytes-frames rs [] h empty_tail

module _ (type tx_id page_id : ℕ) (before_image after_image : Option (List ℕ)) (sync : Bool)
    (w : Wal) where
  -- The record that `append` writes.
  abbrev pub appended : LogRecord
  appended = record {
    lsn = w.next_lsn;
    type = type;
    tx_id = tx_id;
    page_id = page_id;
    before_image = before_image;
    after_image = after_image;
  }

  -- On a log of whole frames append throws and changes nothing, or it returns the next number,
  -- moves it on by one, and what is then read is what was read before and the new record.
  pub append-read_bytes :
      (rs : List LogRecord)
      → w.file ≡ frames rs
      → All (λ s. in_range s ≡ true) rs
      → let (w', lsn) = append type tx_id page_id before_image after_image sync w in
        ((lsn ≡ none) × (w' ≡ w))
        ⊎ ((lsn ≡ some w.next_lsn)
            × (w'.next_lsn ≡ w.next_lsn + 1)
            × (read_bytes w'.file ≡ read_bytes w.file ++ as_read appended ∷ []))
  unfolding append write
  append-read_bytes rs e h =
      if_intro
        (λ (p : Wal × Option ℕ).
          ((p.1 ≡ none) × (p.0 ≡ w))
          ⊎ ((p.1 ≡ some w.next_lsn)
              × (p.0.next_lsn ≡ w.next_lsn + 1)
              × (read_bytes p.0.file ≡ read_bytes w.file ++ as_read appended ∷ [])))
        (w.opened && in_range appended) _ _
        (λ c.
          let v : in_range appended ≡ true = ground (arith, c) in
          inr (
            refl,
            refl,
            ap (λ f. read_bytes (f ++ frame appended)) e
                ∙ ap read_bytes (frames_last rs appended)
                ∙ read_bytes_whole (rs ++ appended ∷ []) (append-All rs appended h v)
                ∙ map-append as_read rs (appended ∷ [])
                ∙ ap (λ l. l ++ as_read appended ∷ [])
                    (sym (ap read_bytes e ∙ read_bytes_whole rs h)),
          ))
        (λ _. inl (refl, refl))

-- Behind a torn frame of which at least four bytes were written and more than a commit record's
-- 29 are missing, the append of a commit record in range returns its number and syncs, but the
-- record is not read: only what stood before the torn frame is.
pub commit_lost :
    (rs : List LogRecord) (r : LogRecord) (k tx_id : ℕ) (w : Wal)
    → All (λ s. in_range s ≡ true) rs
    → in_range r ≡ true
    → 4 ≤ k
    → k + 29 < length (frame r)
    → w.file ≡ frames rs ++ take k (frame r)
    → w.opened ≡ true
    → w.next_lsn < 18446744073709551616
    → tx_id < 4294967296
    → let (w', lsn) = append commit_code tx_id 0 none none true w in
      (lsn ≡ some w.next_lsn) × (w'.synced ≡ length w'.file) × (read_bytes w'.file ≡ map as_read rs)
unfolding append write in_range payload_length or_empty
commit_lost rs r k tx_id w h v l b e o n t =
    let c = appended commit_code tx_id 0 none none true w in
    let size : length (frame c) ≡ 29 = length-frame c in
    if_intro
      (λ (p : Wal × Option ℕ).
        (p.1 ≡ some w.next_lsn)
        × (p.0.synced ≡ length p.0.file)
        × (read_bytes p.0.file ≡ map as_read rs))
      (w.opened && in_range c) _ _
      (λ _. (
        refl,
        refl,
        ap (λ f. read_bytes (f ++ frame c)) e
            ∙ ap read_bytes (append_assoc (frames rs) (take k (frame r)) (frame c))
            ∙ read_bytes-frames rs (take k (frame r) ++ frame c) h
                (λ m. read_from_cut k r (frame c) m v l (ground (arith, b, size))),
      ))
      (λ f. ground (arith, f, o, n, t))
