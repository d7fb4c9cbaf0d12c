-- ===== src/Storage/Manager/Directory.antt =====
-- The page directory of src/engine/storage/StorageManager.js is loaded as it was flushed.
use collab_write.Prelude.{
  ℕ, ◌+◌, ◌-◌, ◌*◌, ◌≡◌, ◌<◌, refl, ap, sym, subst, ◌∙◌, false, some, List, [], ◌∷◌, ◌++◌, length,
  arith, All, nat_key, append_assoc, append-nil, length-append, drop, eqb_iff, ◌||◌,
}
use collab_write.Prelude.Bytes.{bytes_of, number_of, length-bytes_of, number_of-bytes_of, word-Fits}
use collab_write.Prelude.Map.{Map, set, has, Distinct}
use collab_write.Storage.Page.{read_uint}
use collab_write.Storage.Page.Layout.{read_uint-prefix}
use collab_write.Storage.Manager.{StorageManager, done, load_ids, load_entries}
use collab_write.Storage.Manager.Entries.{
  ids, entries, entries_size, InRange, longer, length-ids, past_ids, past_entries,
  length-past_entry,
}

load_ids-prefix :
    (ks : List ℕ) (off : ℕ) (a c : List ℕ)
    → length a ≡ off
    → All (λ k. k < 4294967296) ks
    → load_ids (length ks) off (a ++ (ids ks ++ c)) ≡ some ks
unfolding load_ids ids bytes_of number_of
load_ids-prefix [] off a c e h = refl
load_ids-prefix (k ∷ ks) off a c e (h, hs) =
    let first : read_uint 4 off (a ++ (ids (k ∷ ks) ++ c)) ≡ some k =
      ap (λ n. read_uint 4 n (a ++ (ids (k ∷ ks) ++ c))) (omega arith)
      ∙ read_uint-prefix 4 off 0 a (ids (k ∷ ks) ++ c) e (omega arith)
      ∙ ap some (number_of-bytes_of 4 k [] (word-Fits k h)) in
    let next : load_ids (length ks) (off + 4) (a ++ (ids (k ∷ ks) ++ c)) ≡ some ks =
      ap (load_ids (length ks) (off + 4)) (
        ap (a ++◌) (append_assoc (bytes_of 4 k) (ids ks) c)
        ∙ sym (append_assoc a (bytes_of 4 k) (ids ks ++ c)))
      ∙ load_ids-prefix ks (off + 4) (a ++ bytes_of 4 k) c (longer 4 k off a e) hs in
    rw (load_ids, first, next) refl

-- The entries set one after the other.
unfoldable pub set_all : Map ℕ (List ℕ) → Map ℕ (List ℕ) → Map ℕ (List ℕ)
set_all [] d = d
set_all ((doc_id, ks) ∷ m) d = set_all m (set doc_id ks d)

-- The reads of one entry.
entry_reads :
    (doc_id : ℕ) (ks : List ℕ) (off : ℕ) (a rest : List ℕ)
    → length a ≡ off
    → doc_id < 4294967296
    → length ks < 65536
    → All (λ k. k < 4294967296) ks
    → let z = a ++ ((bytes_of 4 doc_id ++ bytes_of 2 (length ks)) ++ (ids ks ++ rest)) in
      (read_uint 4 off z ≡ some doc_id)
      × (read_uint 2 (off + 4) z ≡ some (length ks))
      × (load_ids (length ks) (off + 6) z ≡ some ks)
unfolding bytes_of number_of
entry_reads doc_id ks off a rest e h n hs =
    let b = bytes_of 4 doc_id ++ bytes_of 2 (length ks) in
    let c = b ++ (ids ks ++ rest) in
    (
      ap (λ n. read_uint 4 n (a ++ c)) (omega arith)
          ∙ read_uint-prefix 4 off 0 a c e (omega arith)
          ∙ ap some (number_of-bytes_of 4 doc_id [] (word-Fits doc_id h)),
      read_uint-prefix 2 off 4 a c e (omega arith) ∙ ap some (omega (arith, n)),
      ap (load_ids (length ks) (off + 6)) (sym (append_assoc a b (ids ks ++ rest)))
          ∙ load_ids-prefix ks (off + 6) (a ++ b) rest (omega (arith, e, length-append a b)) hs,
    )

pub load_entries-prefix :
    (m : Map ℕ (List ℕ)) (off : ℕ) (a c : List ℕ) (s : StorageManager)
    → length a ≡ off
    → InRange m
    → load_entries (length m) off (a ++ (entries m ++ c)) s
      ≡ done tt (record s { directory = set_all m s.directory })
unfolding load_entries entries InRange set_all
load_entries-prefix [] off a c s e h = refl
load_entries-prefix ((doc_id, ks) ∷ m) off a c s e (h, n, hs, hm) =
    let b = bytes_of 4 doc_id ++ bytes_of 2 (length ks) in
    let (r1, r2, r3) = entry_reads doc_id ks off a (entries m ++ c) e h n hs in
    let t : StorageManager = record s { directory = set doc_id ks s.directory } in
    let next =
      ap (λ z. load_entries (length m) (off + 6 + 4 * length ks) z t)
        (sym (regroup_entry a b (ids ks) (entries m ++ c)))
      ∙ load_entries-prefix m (off + 6 + 4 * length ks) ((a ++ b) ++ ids ks) c t
          (omega (
            arith,
            e,
            length-append (a ++ b) (ids ks),
            length-append a b,
            length-ids ks,
            six doc_id ks,
          ))
          hm in
    ap (λ z. load_entries (length ((doc_id, ks) ∷ m)) off z s)
      (regroup_first a b (ids ks) (entries m) c)
    ∙ rw (load_entries, r1, r2, r3) next
  where
    six : (doc_id : ℕ) (ks : List ℕ) → length (bytes_of 4 doc_id ++ bytes_of 2 (length ks)) ≡ 6
    six doc_id ks =
        length-append (bytes_of 4 doc_id) (bytes_of 2 (length ks))
        ∙ omega (arith, length-bytes_of 4 doc_id, length-bytes_of 2 (length ks))

    regroup_entry : (a b x y : List ℕ) → ((a ++ b) ++ x) ++ y ≡ a ++ (b ++ (x ++ y))
    regroup_entry a b x y = append_assoc (a ++ b) x y ∙ append_assoc a b (x ++ y)

    regroup_first : (a b x y z : List ℕ) → a ++ ((b ++ (x ++ y)) ++ z) ≡ a ++ (b ++ (x ++ (y ++ z)))
    regroup_first a b x y z =
        ap (a ++◌) (append_assoc b (x ++ y) z ∙ ap (b ++◌) (append_assoc x y z))

has-append : (k : ℕ) (d m : Map ℕ (List ℕ)) → has k (d ++ m) ≡ (has k d || has k m)
unfolding has
has-append k [] m = refl
has-append k ((j, v) ∷ d) m = ground (arith, has-append k d m)

set_fresh :
    (k : ℕ) (v : List ℕ) (d : Map ℕ (List ℕ)) → has k d ≡ false → set k v d ≡ d ++ (k, v) ∷ []
unfolding has set
set_fresh k v [] h = refl
set_fresh k v ((j, w) ∷ d) h = ground (arith, h, set_fresh k v d)

Distinct-fresh :
    (k : ℕ) (v : List ℕ) (d m : Map ℕ (List ℕ)) → Distinct (d ++ (k, v) ∷ m) → has k d ≡ false
unfolding has
Distinct-fresh k v [] m h = refl
Distinct-fresh k v ((j, w) ∷ d) m (h, hs) =
    ground
      (arith, h, has-append j d ((k, v) ∷ m), Distinct-fresh k v d m hs, eqb_iff j k, eqb_iff k j)

pub set_all-append : (m d : Map ℕ (List ℕ)) → Distinct (d ++ m) → set_all m d ≡ d ++ m
unfolding set_all
set_all-append [] d h = sym (append-nil d)
set_all-append ((k, v) ∷ m) d h =
    ap (set_all m) (set_fresh k v d (Distinct-fresh k v d m h))
    ∙ set_all-append m (d ++ (k, v) ∷ []) (subst Distinct (sym (append_assoc d ((k, v) ∷ []) m)) h)
    ∙ append_assoc d ((k, v) ∷ []) m

pub length-past_entries :
    (m : Map ℕ (List ℕ)) (c : List ℕ) → length (past_entries m c) ≡ length c - entries_size m
unfolding past_entries entries_size
length-past_entries [] c = omega arith
length-past_entries ((doc_id, ks) ∷ m) c =
    omega (arith, length-past_entries m (past_ids ks (drop 2 (drop 4 c))), length-past_entry ks c)
