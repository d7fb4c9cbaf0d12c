-- ===== src/Storage/Page/Rewriting.antt =====
-- `rewriteRecords`, `updateRecord` and `deleteRecord` of src/engine/storage/Page.js on a page that
-- holds given records.
use collab_write.Prelude.{
  ℕ, zero, suc, ◌+◌, ◌≡◌, ◌≤◌, ◌<◌, ◌⊎◌, inl, inr, refl, ap, sym, ◌∙◌, true, false, not, none, some,
  List, [], ◌∷◌, ◌++◌, length, arith, All, eqb, eqb_iff, ltb, le→leb, filter, Bool-cases,
  Option-cases, subst,
}
use collab_write.Prelude.Bytes.{bytes_of}
use collab_write.Prelude.Int.{sub_ℕ}
use collab_write.Storage.Page.{
  Page, Record, returned, page_full, ◌then_do◌, reading, required, rewrite_records, update_record,
  delete_record, fill, zeroes, replace_first,
}
use collab_write.Storage.Page.Layout.{InRange, encode, header, Holds}
use collab_write.Storage.Page.Contents.{page_id-Holds, list_records-Holds}
use collab_write.Storage.Page.Writing.{put_all-prefix, put_count-header, left_all, length-left_all}
use collab_write.Storage.Page.Changes.{Changed, changed, size-Holds}

length-zeroes : (n : ℕ) → length (zeroes n) ≡ n
unfolding zeroes
length-zeroes zero = refl
length-zeroes (suc n) = ap suc (length-zeroes n)

fill-header :
    (id k d n : ℕ) (c : List ℕ)
    → fill 11 (header id k d n ++ c) ≡ returned tt (header id k d n ++ zeroes (length c))
unfolding fill header bytes_of
fill-header id k d n c =
    rw (fill, le→leb 11 (length (header id k d n ++ c)) (omega arith))
      (ap (λ z. returned tt (header id k d n ++ zeroes z)) (omega arith))

rewrite_records-room :
    (qs : List Record) (p : Page) (id k d : ℕ) (rs : List Record) (rest : List ℕ)
    → Holds p.page_size id rs p.buffer
    → p.buffer ≡ header id k d (length rs) ++ (encode rs ++ rest)
    → All InRange qs
    → length qs < 65536
    → 11 + required qs ≤ p.page_size
    → required qs ≤ length (encode rs ++ rest)
    → rewrite_records qs p
      ≡ returned tt (
          header id k 1 (length qs)
          ++ (encode qs ++ left_all qs (zeroes (length (encode rs ++ rest)))))
unfolding rewrite_records reading ◌then_do◌ header bytes_of
rewrite_records-room qs p id k d rs rest v e hs n l m =
    let old = encode rs ++ rest in
    let fits : ltb p.page_size (11 + required qs) ≡ false = ground (arith, l) in
    rw
      (
        rewrite_records,
        page_id-Holds p.page_size id rs p.buffer v,
        reading,
        fits,
        ap (fill 11) e ∙ fill-header id k d (length rs) old,
        ◌then_do◌,
        put_all-prefix qs 11 (header id k d (length rs)) (zeroes (length old)) refl hs
            (omega (arith, m, length-zeroes (length old))),
        put_count-header (length qs) id k d (length rs)
            (encode qs ++ left_all qs (zeroes (length old))) n,
      )
      refl

rewrite_records-full :
    (qs : List Record) (p : Page) (id : ℕ) (rs : List Record)
    → Holds p.page_size id rs p.buffer
    → p.page_size < 11 + required qs
    → rewrite_records qs p ≡ page_full id (required qs) (sub_ℕ p.page_size 11) p.buffer
unfolding rewrite_records reading
rewrite_records-full qs p id rs v l =
    let full : ltb p.page_size (11 + required qs) ≡ true = ground (arith, l) in
    rw (rewrite_records, page_id-Holds p.page_size id rs p.buffer v, reading, full) refl

split_header : (id k d n : ℕ) (c : List ℕ) → length (header id k d n ++ c) ≡ 11 + length c
unfolding header bytes_of
split_header id k d n c = omega arith

-- A rewriting that fits.
rewrite_records-Changed :
    (qs : List Record) (p : Page) (id : ℕ) (rs : List Record)
    → Holds p.page_size id rs p.buffer
    → All InRange qs
    → length qs < 65536
    → 11 + required qs ≤ p.page_size
    → (b : List ℕ) × (rewrite_records qs p ≡ returned tt b) × Changed p.page_size id qs b
unfolding Holds
rewrite_records-Changed qs p id rs v hs n l =
    let (k, d, rest, e, size, i, c, h) = v in
    let old = encode rs ++ rest in
    let whole : 11 + length old ≡ p.page_size =
      sym (ap length e ∙ split_header id k d (length rs) old) ∙ size in
    let m : required qs ≤ length old = omega (arith, l, whole) in
    (
      header id k 1 (length qs) ++ (encode qs ++ left_all qs (zeroes (length old))),
      rewrite_records-room qs p id k d rs rest v e hs n l m,
      changed p.page_size id k qs (left_all qs (zeroes (length old)))
          (omega (
            arith,
            length-left_all qs (zeroes (length old)),
            length-zeroes (length old),
            whole,
            l,
            m,
          ))
          i n hs,
    )

replace_first-InRange :
    (r : Record) (rs qs : List Record)
    → InRange r
    → All InRange rs
    → replace_first r rs ≡ some qs
    → All InRange qs × (length qs ≡ length rs)
unfolding replace_first
replace_first-InRange r [] qs h hs e = absurd (cc)
replace_first-InRange r (x ∷ rs) qs h (hx, hs) e = elim (Bool-cases (eqb x.record_id r.record_id)) [
  | inl here ↦ ground (arith, here, h, hs, e)
  | inr other ↦ elim (Option-cases (replace_first r rs)) [
    | inl f ↦ absurd (ground (arith, other, f, e))
    | inr (ys, f) ↦ ground (arith, other, f, e, hx, replace_first-InRange r rs ys h hs f)
  ]
]

-- No record has the id.
abbrev pub Lacks : ℕ → List Record → Type 0
Lacks wanted = All (λ r. eqb r.record_id wanted ≡ false)

-- The second list is the first with its first record of the same id as `r` replaced by `r`.
abbrev pub Replaces : Record → List Record → List Record → Type 0
Replaces r rs qs =
    (before : List Record) × (old : Record) × (after : List Record) × (rs ≡ before ++ old ∷ after)
    × (old.record_id ≡ r.record_id)
    × Lacks r.record_id before
    × (qs ≡ before ++ r ∷ after)

replace_first-none :
    (r : Record) (rs : List Record) → replace_first r rs ≡ none → Lacks r.record_id rs
unfolding replace_first
replace_first-none r [] e = tt
replace_first-none r (x ∷ rs) e = elim (Bool-cases (eqb x.record_id r.record_id)) [
  | inl here ↦ absurd (ground (arith, here, e))
  | inr other ↦ elim (Option-cases (replace_first r rs)) [
    | inl f ↦ (other, replace_first-none r rs f)
    | inr (ys, f) ↦ absurd (ground (arith, other, f, e))
  ]
]

replace_first-Replaces :
    (r : Record) (rs qs : List Record) → replace_first r rs ≡ some qs → Replaces r rs qs
unfolding replace_first
replace_first-Replaces r [] qs e = absurd (cc)
replace_first-Replaces r (x ∷ rs) qs e = elim (Bool-cases (eqb x.record_id r.record_id)) [
  | inl here ↦
      ([], x, rs, refl, (eqb_iff x.record_id r.record_id).0 here, tt, ground (arith, here, e))
  | inr other ↦ elim (Option-cases (replace_first r rs)) [
    | inl f ↦ absurd (ground (arith, other, f, e))
    | inr (ys, f) ↦
        let (before, old, after, split, same, lacks, result) = replace_first-Replaces r rs ys f in
        (
          x ∷ before,
          old,
          after,
          ap (◌∷◌ x) split,
          same,
          (other, lacks),
          ground (arith, other, f, e, result),
        )
  ]
]

-- The three outcomes of an update.
unfoldable pub Updated : Record → Page → ℕ → List Record → Type 0
Updated r p id rs =
    (Lacks r.record_id rs
      × (update_record r.record_id r.payload r.version p ≡ returned false p.buffer))
    ⊎ ((qs : List Record) × Replaces r rs qs
        × (((b : List ℕ) × (update_record r.record_id r.payload r.version p ≡ returned true b)
              × Changed p.page_size id qs b)
            ⊎ ((update_record r.record_id r.payload r.version p
                  ≡ page_full id (required qs) (sub_ℕ p.page_size 11) p.buffer)
                × (p.page_size < 11 + required qs))))

-- On a page that holds given records, updateRecord of a record whose numbers are in range returns
-- false and changes nothing when no record has the id; else it leaves a dirty page with the same
-- records in order, where the first one with the id is replaced by the new record, or throws
-- PageFullError and changes nothing when these records do not fit.
pub update_record-Updated :
    (r : Record) (p : Page) (id : ℕ) (rs : List Record)
    → Holds p.page_size id rs p.buffer
    → InRange r
    → Updated r p id rs
unfolding Updated Holds update_record reading ◌then_do◌
update_record-Updated r p id rs v h =
    let (_, _, _, _, _, _, n, hs) = v in
    let listed = list_records-Holds p.page_size id rs p.buffer v in
    elim (Option-cases (replace_first r rs)) [
      | inl e ↦ inl (replace_first-none r rs e, rw (update_record, listed, reading, e) refl)
      | inr (qs, e) ↦
          let (ks, same) = replace_first-InRange r rs qs h hs e in
          let replaced = replace_first-Replaces r rs qs e in
          elim (Bool-cases (ltb p.page_size (11 + required qs))) [
            | inl full ↦ inr (
              qs,
              replaced,
              inr (
                rw
                    (
                      update_record,
                      listed,
                      reading,
                      e,
                      rewrite_records-full qs p id rs v (ground (arith, full)),
                      ◌then_do◌,
                    )
                    refl,
                ground (arith, full),
              ),
            )
            | inr room ↦
                let (b, done, c) =
                  rewrite_records-Changed qs p id rs v ks (omega (arith, same, n))
                    (ground (arith, room)) in
                inr (
                  qs,
                  replaced,
                  inl (b, rw (update_record, listed, reading, e, done, ◌then_do◌) refl, c),
                )
          ]
    ]

unfoldable pub others : ℕ → List Record → List Record
others wanted rs = filter (λ r. not (eqb r.record_id wanted)) rs

others-InRange :
    (wanted : ℕ) (rs : List Record)
    → All InRange rs
    → All InRange (others wanted rs)
      × (length (others wanted rs) ≤ length rs)
      × (required (others wanted rs) ≤ required rs)
unfolding others required
others-InRange wanted [] h = (tt, omega arith, omega arith)
others-InRange wanted (r ∷ rs) (h, hs) = ground (arith, h, others-InRange wanted rs hs)

others_all :
    (wanted : ℕ) (rs : List Record) → length (others wanted rs) ≡ length rs → others wanted rs ≡ rs
unfolding others
others_all wanted [] e = refl
others_all wanted (r ∷ rs) e = elim (Bool-cases (eqb r.record_id wanted)) [
  | inl here ↦ absurd (ground (arith, here, e, length_others wanted rs))
  | inr other ↦ ground (arith, other, e, others_all wanted rs)
]
  where
    length_others :
        (wanted : ℕ) (rs : List Record)
        → length (filter (λ r. not (eqb r.record_id wanted)) rs) ≤ length rs
    length_others wanted [] = omega arith
    length_others wanted (r ∷ rs) = ground (arith, length_others wanted rs)

-- On a page that holds given records deleteRecord never throws: it leaves the records without
-- those that have the id, and returns whether there are fewer of them.
pub delete_record-Holds :
    (wanted : ℕ) (p : Page) (id : ℕ) (rs : List Record)
    → Holds p.page_size id rs p.buffer
    → (b : List ℕ) × (delete_record wanted p
        ≡ returned (not (eqb (length (others wanted rs)) (length rs))) b)
      × Holds p.page_size id (others wanted rs) b
unfolding Holds delete_record reading ◌then_do◌ others Changed
delete_record-Holds wanted p id rs v =
    let (k, d, rest, e, size, i, n, hs) = v in
    let listed = list_records-Holds p.page_size id rs p.buffer v in
    let (ks, fewer, less) = others-InRange wanted rs hs in
    elim (Bool-cases (eqb (length (others wanted rs)) (length rs))) [
      | inl all ↦ (
        p.buffer,
        rw (delete_record, listed, reading, all) refl,
        subst (λ z. Holds p.page_size id z p.buffer)
            (sym (others_all wanted rs (ground (arith, all)))) v,
      )
      | inr some_less ↦
          let (b, done, c) =
            rewrite_records-Changed (others wanted rs) p id rs v ks (omega (arith, fewer, n))
              (omega (arith, less, size, ap length e, size-Holds id k d rs rest)) in
          (b, rw (delete_record, listed, reading, some_less, done, ◌then_do◌) refl, c.0)
    ]
