-- ===== src/Transaction/Tests.antt =====
-- A transaction that reads a page twice and writes two pages.
use collab_write.Prelude.{ℕ, ◌≡◌, List, [], ◌∷◌, map, mem, Nodup, nat_key}
use collab_write.Prelude.Map
use collab_write.Transaction.{create}
use collab_write.Transaction.Records.{
  Access, locks, reads, writes, run, first_read, written, run-records,
}

abbrev accesses : List (Access ℕ ℕ)
accesses =
    locks 5 ∷ reads 7 1 ∷ writes 7 100 ∷ reads 7 2 ∷ locks 5 ∷ writes 8 200 ∷ writes 7 101 ∷ []

run-records_example :
    let t = run accesses (create 0 1) in
    (Map.get 7 t.read_versions ≡ first_read 7 accesses)
    × (t.undo_log ≡ written accesses)
    × (mem 7 t.modified_pages ≡ mem 7 (map (λ w. w.0) (written accesses)))
    × Nodup t.modified_pages
run-records_example = run-records 0 1 accesses 7
