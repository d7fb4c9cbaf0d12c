-- ===== src/Transaction/Manager/Tests.antt =====
-- The theorems on the transaction manager at a transaction that wrote a page twice.
use collab_write.Prelude.{
  ℕ, refl, true, Option, none, some, eqb, if◌then◌else◌, List, [], ◌∷◌, ◌++◌, length, arith,
  nat_key,
}
use collab_write.Prelude.Map
use collab_write.Lock.{LockManager}
use collab_write.Lock
use collab_write.Recovery.Manager.{Pages}
use collab_write.Recovery.Wal.{Wal}
use collab_write.Recovery.Tests.{file_pages}
use collab_write.Storage.Page.{Page, Outcome, returned}
use collab_write.Transaction.{Transaction, create, committed}
use collab_write.Transaction.Manager.{TransactionManager, Frames, begin}
use collab_write.Transaction.Manager.Access.{write_locked}
use collab_write.Transaction.Manager.Ending.{commit, abort}
use collab_write.Transaction.Manager.Abort.{Residency, Aborted, abort-Aborted}
use collab_write.Transaction.Manager.Written.{Logged}
use collab_write.Transaction.Manager.Logging.{write_call, write_locked-Logged}
use collab_write.Transaction.Manager.Counts.{Accounted, Begun, Ended}
use collab_write.Transaction.Manager.Reasons.{CommitThrows}
use collab_write.Transaction.Manager.Accounting.{AbortEnded, one_committed, begin-commit-abort}

-- A pool that has images of pages.
abbrev pooled_pages : Pages
pooled_pages = record {
  State = file_pages.State;
  Pool = ℕ → Option (List ℕ);
  ensure_capacity = file_pages.ensure_capacity;
  write_image = file_pages.write_image;
  sync = file_pages.sync;
  invalidate = λ j q k. if eqb j k then none else q k;
  flush_all = λ q s. some (q, s);
  look = file_pages.look;
  id_of = file_pages.id_of;
  IsImage = file_pages.IsImage;
  look-ensure_capacity = file_pages.look-ensure_capacity;
  write-look = file_pages.write-look;
  look-sync = file_pages.look-sync;
}

abbrev residency : Residency pooled_pages
residency = record { resident = λ k q. q k; resident-invalidate = λ k j q. refl }

abbrev frames : Frames (Map.Map ℕ (List ℕ)) (ℕ → Option (List ℕ))
frames = record {
  fetch_page = λ k q s. (
    elim (Map.get k s) [
      | none ↦ none
      | some b ↦ some (record { page_size = length b; buffer = b })
    ],
    q,
    s,
  );
  install = λ k p q. q;
  unpin_page = λ k dirty q. q;
  flush_page = λ k q s. some (q, s);
}

abbrev wal : Wal
wal = record { file = []; synced = 0; sync_on_commit = true; opened = true; next_lsn = 1 }

abbrev image : List ℕ
image = 7 ∷ 0 ∷ 0 ∷ 0 ∷ 9 ∷ 9 ∷ 9 ∷ 9 ∷ 0 ∷ 0 ∷ 0 ∷ 1 ∷ []

abbrev manager : TransactionManager (Map.Map ℕ (List ℕ)) (ℕ → Option (List ℕ)) ℕ
manager = record {
  storage = (7, image) ∷ [];
  buffer_pool = λ k. if eqb k 7 then some (7 ∷ 3 ∷ []) else none;
  lock_manager = Lock.create 1000;
  wal = wal;
  conflict_resolver = none;
  next_tx_id = 4;
  active_ids = 1 ∷ 3 ∷ [];
  stats = record { begun = 3; committed = 1; aborted = 0; total_commit_ms = 12 };
  deadlock_victims = [];
}

abbrev tx : Transaction ℕ (List ℕ)
tx = record (create 0 3) {
  modified_pages = 7 ∷ [];
  undo_log = (7, 7 ∷ 1 ∷ []) ∷ (7, 7 ∷ 2 ∷ []) ∷ [];
}

abort-Aborted_example :
    Aborted pooled_pages residency 9 tx manager (abort pooled_pages frames 5 9 tx manager)
unfolding create
abort-Aborted_example =
    abort-Aborted pooled_pages residency frames 5 9 tx manager refl ((tt, refl), ((tt, refl), tt))

-- A change of one byte of the payload.
abbrev mutator : Page → Outcome {0} (Unit {0})
mutator p = returned tt (image ++ 1 ∷ [])

write_locked-Logged_example :
    Logged
      (write_call pooled_pages frames 7 mutator none tx manager)
      (write_locked pooled_pages frames 7 mutator none tx manager)
write_locked-Logged_example = write_locked-Logged pooled_pages frames 7 mutator none tx manager

begin-commit-abort_example :
    (Begun manager (begin 9 manager) × Accounted (begin 9 manager).0)
    × (Ended
          (CommitThrows pooled_pages frames tx manager)
          committed
          (one_committed pooled_pages manager)
          tx
          manager
          (commit pooled_pages frames 9 tx manager)
        × Accounted (commit pooled_pages frames 9 tx manager).0)
    × (AbortEnded pooled_pages tx manager (abort pooled_pages frames 5 9 tx manager)
        × Accounted (abort pooled_pages frames 5 9 tx manager).0)
unfolding create
begin-commit-abort_example =
    begin-commit-abort pooled_pages frames 5 9 tx manager
      (record {
        total = refl;
        once = (refl, (refl, tt));
        issued = (omega arith, (omega arith, tt));
      })
      refl
