-- ===== src/Buffer/Tests.antt =====
-- Runs of LRUCache.js and BufferPool.js, and their theorems at concrete inputs.
use mathlib.Core.List.{reverse}
use collab_write.Prelude.{
  ℕ, ◌*◌, ◌≡◌, ◌≢◌, refl, true, Option, some, List, [], ◌∷◌, arith, nat_key, eqb, if◌then◌else◌,
}
use collab_write.Buffer.Lru.{empty, usage_order, eviction_order}
use collab_write.Buffer.Lru.Order.{Call, touches, removes, run, use_orders, use_order, orders-run}
use collab_write.Buffer.Storage.{Storage}
use collab_write.Buffer.Pool.{BufferPool, create, fetch_page, unpin_page, evict_one, flush_all}
use collab_write.Buffer.Pool.Coherence.{IsValid, create-IsValid, unpin-IsValid}
use collab_write.Buffer.Pool.Eviction.{Outcome, evict_one-Outcome}
use collab_write.Buffer.Pool.Fetch.{Fetched, fetch-Fetched}
use collab_write.Buffer.Pool.Flush.{Flushed, flush_all-Flushed}

abbrev calls : List Call
calls = touches 4 ∷ touches 7 ∷ touches 9 ∷ touches 4 ∷ removes 7 ∷ touches 8 ∷ []

orders-run_example :
    (usage_order (run empty calls) ≡ use_orders [] calls)
    × (eviction_order (run empty calls) ≡ reverse (use_orders [] calls))
orders-run_example = orders-run calls

calls_order : use_orders [] calls ≡ 8 ∷ 4 ∷ 9 ∷ []
unfolding use_orders use_order
calls_order = refl

-- A file as a function from page ids to contents; a page is its id and its content.
abbrev put_page : (ℕ → ℕ) → ℕ × ℕ → ℕ → ℕ
put_page f q k = if eqb q.0 k then q.1 else f k

memory-read :
    (k : ℕ) (s : ℕ → ℕ) (q : ℕ × ℕ)
    → ◌≡◌ {A = Option (ℕ × ℕ)} (some (k, s k)) (some q)
    → (q.0 ≡ k) × Unit {0} × (q ≡ q)
memory-read k s q e = (ground arith, tt, refl)

memory-written :
    (q : ℕ × ℕ) (s : ℕ → ℕ) → ◌≡◌ {A = Option (ℕ × ℕ)} (some (q.0, put_page s q q.0)) (some q)
memory-written q s = ground arith

memory-other :
    (k : ℕ) (q : ℕ × ℕ) (s : ℕ → ℕ) (r : ℕ × ℕ)
    → q.0 ≢ k
    → ◌≡◌ {A = Option (ℕ × ℕ)} (some (k, s k)) (some r)
    → ◌≡◌ {A = Option (ℕ × ℕ)} (some (k, put_page s q k)) (some r)
memory-other k q s r n e = ground arith

abbrev memory : Storage
memory = record {
  State = ℕ → ℕ;
  Page = ℕ × ℕ;
  page_id = λ q. q.0;
  clean = λ q. q;
  read_page = λ k s. some (k, s k);
  write_page = λ q s. (q, put_page s q);
  IsPage = λ q. Unit {0};
  IsSound = λ s. Unit {0};
  read-page_id = λ k s q _ e. memory-read k s q e;
  write-IsSound = λ q s _ _. tt;
  read-write_self = λ q s _. memory-written q s;
  read-write_ne = λ k q s r n e. memory-other k q s r n e;
  write-page = λ q s _. (refl, refl, tt);
}

abbrev contents : ℕ → ℕ
contents k = k * 10

abbrev pool : BufferPool (ℕ × ℕ) (ℕ → ℕ)
pool = create contents 2

pool-IsValid : IsValid memory pool []
pool-IsValid = create-IsValid memory contents 2 tt

fetch-Fetched_example : Fetched memory 4 pool (fetch_page memory 4 pool)
fetch-Fetched_example = fetch-Fetched memory pool [] 4 pool-IsValid

-- Page 4, fetched and released as dirty.
abbrev used : BufferPool (ℕ × ℕ) (ℕ → ℕ)
used = unpin_page 4 true (fetch_page memory 4 pool).0

used_order : List ℕ
used_order = (fetch-Fetched memory pool [] 4 pool-IsValid).valid.0

used-IsValid : IsValid memory used used_order
unfolding used_order
used-IsValid =
    unpin-IsValid memory (fetch_page memory 4 pool).0 used_order 4 true
      (fetch-Fetched memory pool [] 4 pool-IsValid).valid.1

evict_one-Outcome_example :
    Outcome memory (reverse used_order) used used_order (evict_one memory used)
evict_one-Outcome_example = evict_one-Outcome memory used used_order used-IsValid

flush_all-Flushed_example : Flushed memory used (flush_all memory used).0 used_order
flush_all-Flushed_example = flush_all-Flushed memory used used_order used-IsValid
