-- ===== src/Storage/Manager/Entries.antt =====
-- The bytes that `flushDirectory` of src/engine/storage/StorageManager.js writes of the entries.
use collab_write.Prelude.{
  ℕ, ◌+◌, ◌-◌, ◌*◌, ◌^◌, ◌≡◌, ◌≤◌, ◌<◌, refl, ap, sym, ◌∙◌, true, false, List, [], ◌∷◌, ◌++◌,
  length, arith, All, ltb, Bool-cases, inl, inr, nat_key, append_assoc, append-nil, length-append,
  length-drop, drop,
}
use collab_write.Prelude.Bytes.{bytes_of, length-bytes_of}
use collab_write.Prelude.Map.{Map}
use collab_write.Storage.Page.Layout.{write_uint-prefix}
use collab_write.Storage.Manager.{Region, built, overflow, writing, put_ids, put_entries}

unfoldable pub ids : List ℕ → List ℕ
ids [] = []
ids (k ∷ ks) = bytes_of 4 k ++ ids ks

unfoldable pub entries : Map ℕ (List ℕ) → List ℕ
entries [] = []
entries ((doc_id, ks) ∷ m) = (bytes_of 4 doc_id ++ bytes_of 2 (length ks)) ++ (ids ks ++ entries m)

-- The bytes that the entries take.
unfoldable pub entries_size : Map ℕ (List ℕ) → ℕ
entries_size [] = 0
entries_size ((doc_id, ks) ∷ m) = 6 + length ks * 4 + entries_size m

-- The ids and the counts fit into their fields.
unfoldable pub InRange : Map ℕ (List ℕ) → Type 0
InRange [] = Unit
InRange ((doc_id, ks) ∷ m) =
    (doc_id < 4294967296) × (length ks < 65536) × All (λ k. k < 4294967296) ks × InRange m

pub word-ltb : (n : ℕ) → n < 4294967296 → ltb n (256 ^ 4) ≡ true
word-ltb n h = ground (arith, h)

half-ltb : (n : ℕ) → n < 65536 → ltb n (256 ^ 2) ≡ true
half-ltb n h = ground (arith, h)

pub longer : (w n off : ℕ) (a : List ℕ) → length a ≡ off → length (a ++ bytes_of w n) ≡ off + w
longer w n off a e = omega (arith, length-append a (bytes_of w n), length-bytes_of w n, e)

pub length-ids : (ks : List ℕ) → length (ids ks) ≡ length ks * 4
unfolding ids bytes_of
length-ids [] = refl
length-ids (k ∷ ks) = omega (arith, length-ids ks)

pub length-entries : (m : Map ℕ (List ℕ)) → length (entries m) ≡ entries_size m
unfolding entries entries_size bytes_of
length-entries [] = refl
length-entries ((doc_id, ks) ∷ m) =
    omega (arith, length-append (ids ks) (entries m), length-ids ks, length-entries m)

-- What the ids leave of the bytes behind them.
unfoldable pub past_ids : List ℕ → List ℕ → List ℕ
past_ids [] c = c
past_ids (k ∷ ks) c = past_ids ks (drop 4 c)

length-past_ids : (ks c : List ℕ) → length (past_ids ks c) ≡ length c - length ks * 4
unfolding past_ids
length-past_ids [] c = omega arith
length-past_ids (k ∷ ks) c = omega (arith, length-past_ids ks (drop 4 c), length-drop 4 c)

put_ids-prefix :
    (ks : List ℕ) (off : ℕ) (a c : List ℕ) (next : List ℕ → Region)
    → length a ≡ off
    → All (λ k. k < 4294967296) ks
    → length ks * 4 ≤ length c
    → put_ids ks off (a ++ c) next ≡ next ((a ++ ids ks) ++ past_ids ks c)
unfolding put_ids ids past_ids writing
put_ids-prefix [] off a c next e h l = ap (λ z. next (z ++ c)) (sym (append-nil a))
put_ids-prefix (k ∷ ks) off a c next e (h, hs) l =
    ap (λ o. writing o λ r. put_ids ks (off + 4) r next)
      (write_uint-prefix 4 k off a c (word-ltb k h) e (omega (arith, l)))
    ∙ put_ids-prefix ks (off + 4) (a ++ bytes_of 4 k) (drop 4 c) next (longer 4 k off a e) hs
        (omega (arith, l, length-drop 4 c))
    ∙ ap (λ z. next (z ++ past_ids ks (drop 4 c))) (append_assoc a (bytes_of 4 k) (ids ks))

-- What the entries leave.
unfoldable pub past_entries : Map ℕ (List ℕ) → List ℕ → List ℕ
past_entries [] c = c
past_entries ((doc_id, ks) ∷ m) c = past_entries m (past_ids ks (drop 2 (drop 4 c)))

regroup :
    (a x y z u w : List ℕ) → (((a ++ x) ++ y) ++ z) ++ (u ++ w) ≡ a ++ (((x ++ y) ++ (z ++ u)) ++ w)
regroup [] x y z u w =
    append_assoc (x ++ y) z (u ++ w)
    ∙ ap ((x ++ y) ++◌) (sym (append_assoc z u w))
    ∙ sym (append_assoc (x ++ y) (z ++ u) w)
regroup (b ∷ a) x y z u w = ap (◌∷◌ b) (regroup a x y z u w)

-- One entry that fits.
put_entry :
    (doc_id : ℕ) (ks : List ℕ) (m : Map ℕ (List ℕ)) (off : ℕ) (a c : List ℕ)
    → length a ≡ off
    → InRange ((doc_id, ks) ∷ m)
    → 6 + length ks * 4 ≤ length c
    → put_entries ((doc_id, ks) ∷ m) off (a ++ c)
      ≡ put_entries m (off + 6 + 4 * length ks) (
          (((a ++ bytes_of 4 doc_id) ++ bytes_of 2 (length ks)) ++ ids ks)
          ++ past_ids ks (drop 2 (drop 4 c)))
unfolding put_entries InRange writing
put_entry doc_id ks m off a c e (h, n, hs, hm) l =
    let a1 = a ++ bytes_of 4 doc_id in
    let a2 = a1 ++ bytes_of 2 (length ks) in
    let c2 = drop 2 (drop 4 c) in
    let e1 = longer 4 doc_id off a e in
    let e2 : length a2 ≡ off + 6 = longer 2 (length ks) (off + 4) a1 e1 ∙ omega arith in
    let room : ltb (length (a ++ c)) (off + (6 + length ks * 4)) ≡ false =
      ground (arith, l, e, length-append a c) in
    rw
      (
        put_entries,
        room,
        write_uint-prefix 4 doc_id off a c (word-ltb doc_id h) e (omega (arith, l)),
        writing,
        write_uint-prefix 2 (length ks) (off + 4) a1 (drop 4 c) (half-ltb (length ks) n) e1
            (omega (arith, l, length-drop 4 c)),
      )
      (put_ids-prefix ks (off + 6) a2 c2 (λ r. put_entries m (off + 6 + 4 * length ks) r) e2 hs
        (omega (arith, l, length-drop 4 c, length-drop 2 (drop 4 c))))

length-put_entry :
    (doc_id : ℕ) (ks : List ℕ) (off : ℕ) (a : List ℕ)
    → length a ≡ off
    → length (((a ++ bytes_of 4 doc_id) ++ bytes_of 2 (length ks)) ++ ids ks)
      ≡ off + 6 + 4 * length ks
length-put_entry doc_id ks off a e =
    let a1 = a ++ bytes_of 4 doc_id in
    omega (
      arith,
      length-append (a1 ++ bytes_of 2 (length ks)) (ids ks),
      longer 2 (length ks) (off + 4) a1 (longer 4 doc_id off a e),
      length-ids ks,
    )

pub length-past_entry :
    (ks c : List ℕ) → length (past_ids ks (drop 2 (drop 4 c))) ≡ length c - (6 + length ks * 4)
length-past_entry ks c =
    omega (arith, length-past_ids ks (drop 2 (drop 4 c)), length-drop 4 c, length-drop 2 (drop 4 c))

pub put_entries-prefix :
    (m : Map ℕ (List ℕ)) (off : ℕ) (a c : List ℕ)
    → length a ≡ off
    → InRange m
    → entries_size m ≤ length c
    → put_entries m off (a ++ c) ≡ built (a ++ (entries m ++ past_entries m c))
unfolding entries entries_size past_entries InRange put_entries
put_entries-prefix [] off a c e h l = refl
put_entries-prefix ((doc_id, ks) ∷ m) off a c e h l =
    let a3 = ((a ++ bytes_of 4 doc_id) ++ bytes_of 2 (length ks)) ++ ids ks in
    let c3 = past_ids ks (drop 2 (drop 4 c)) in
    put_entry doc_id ks m off a c e h (omega (arith, l))
    ∙ put_entries-prefix m (off + 6 + 4 * length ks) a3 c3 (length-put_entry doc_id ks off a e) h.3
        (omega (arith, l, length-past_entry ks c))
    ∙ ap built (
        regroup a (bytes_of 4 doc_id) (bytes_of 2 (length ks)) (ids ks) (entries m)
          (past_entries m c3))

-- An entry that does not fit stops the flush.
pub put_entries-overflow :
    (m : Map ℕ (List ℕ)) (off : ℕ) (a c : List ℕ)
    → length a ≡ off
    → InRange m
    → length c < entries_size m
    → put_entries m off (a ++ c) ≡ overflow
unfolding entries_size InRange put_entries
put_entries-overflow [] off a c e h l = ground (arith, l)
put_entries-overflow ((doc_id, ks) ∷ m) off a c e h l =
    elim (Bool-cases (ltb (length c) (6 + length ks * 4))) [
      | inl short ↦
          let full : ltb (length (a ++ c)) (off + (6 + length ks * 4)) ≡ true =
            ground (arith, short, e, length-append a c) in
          rw (put_entries, full) refl
      | inr fits ↦
          put_entry doc_id ks m off a c e h (ground (arith, fits))
          ∙ put_entries-overflow m (off + 6 + 4 * length ks)
              (((a ++ bytes_of 4 doc_id) ++ bytes_of 2 (length ks)) ++ ids ks)
              (past_ids ks (drop 2 (drop 4 c))) (length-put_entry doc_id ks off a e) h.3
              (ground (arith, l, fits, length-past_entry ks c))
    ]
