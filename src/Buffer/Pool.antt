-- ===== src/Buffer/Pool.antt =====
-- src/engine/buffer/BufferPool.js, over any storage with the contract of `Storage`. A call returns
-- the new pool, the new file and its result; `none` is a thrown error.
pub mod View
pub mod Coherence
pub mod Eviction
pub mod Fetch
pub mod Flush
use collab_write.Prelude.{
  ℕ, ◌+◌, ◌-◌, Bool, true, false, not, ◌||◌, ◌&&◌, Option, none, some, List, [], ◌∷◌, if◌then◌else◌,
  eqb, ltb, leb, length, nat_key,
}
use collab_write.Prelude.Map
use collab_write.Prelude.Map.{Map}
use collab_write.Buffer.Lru
use collab_write.Buffer.Lru.{LruCache}
use collab_write.Buffer.Storage.{Storage}

pub record Frame (P : Type 0) : Type 0 where
  pub page : P
  pub pin_count : ℕ
  pub dirty : Bool

pub record Stats : Type 0 where
  pub hits : ℕ
  pub misses : ℕ
  pub evictions : ℕ
  pub flushes : ℕ

-- The pool with the storage that it works on.
pub record BufferPool (P D : Type 0) : Type 0 where
  pub storage : D
  pub capacity : ℕ
  pub page_table : Map ℕ (Frame P)
  pub lru : LruCache
  pub stats : Stats

abbrev pub no_stats : Stats
no_stats = record { hits = 0; misses = 0; evictions = 0; flushes = 0 }

module _ {P D : Type 0} where
  unfoldable pub create : D → ℕ → BufferPool P D
  create storage frames = record {
    storage = storage;
    capacity = frames;
    page_table = [];
    lru = Lru.empty;
    stats = no_stats;
  }

  unfoldable pub pin_count : ℕ → BufferPool P D → ℕ
  pin_count k b = elim (Map.get k b.page_table) [ none ↦ 0 | some f ↦ f.pin_count ]

  unfoldable pub is_dirty : ℕ → BufferPool P D → Bool
  is_dirty k b = elim (Map.get k b.page_table) [ none ↦ false | some f ↦ f.dirty ]

  -- `frame.pinCount = Math.max(0, frame.pinCount - 1)`
  unfoldable pub unpin_page : ℕ → Bool → BufferPool P D → BufferPool P D
  unpin_page k dirty b = elim (Map.get k b.page_table) [
    | none ↦ b
    | some f ↦ record b {
      page_table =
          Map.set k (record f { pin_count = f.pin_count - 1; dirty = dirty || f.dirty })
            b.page_table;
    }
  ]

  unfoldable pub invalidate : ℕ → BufferPool P D → BufferPool P D
  invalidate k b = record b { page_table = Map.delete k b.page_table; lru = Lru.remove k b.lru }

  unfoldable pub invalidate_all : BufferPool P D → BufferPool P D
  invalidate_all b = record b { page_table = []; lru = Lru.clear b.lru }

  unfoldable pub reset_stats : BufferPool P D → BufferPool P D
  reset_stats b = record b { stats = no_stats }

module _ (S : Storage) where
  open S use {State, Page, page_id, clean, read_page, write_page}

  -- The write of a dirty frame in `flushPage`.
  pub flush_frame : ℕ → Frame Page → BufferPool Page State → BufferPool Page State
  flush_frame k f b =
      let (page, storage) = write_page f.page b.storage in
      record b {
        storage = storage;
        page_table = Map.set k (record f { page = page; dirty = false }) b.page_table;
        stats = record b.stats { flushes = b.stats.flushes + 1 };
      }

  -- True when a write happened.
  unfoldable pub flush_page : ℕ → BufferPool Page State → BufferPool Page State × Bool
  unfolding flush_frame
  flush_page k b = elim (Map.get k b.page_table) [
    | none ↦ (b, false)
    | some f ↦ if f.dirty then (flush_frame k f b, true) else (b, false)
  ]

  -- The loop of `flushAll` over the table's keys.
  pub flush_keys : List ℕ → BufferPool Page State → ℕ → BufferPool Page State × ℕ
  flush_keys [] b written = (b, written)
  flush_keys (k ∷ ks) b written =
      let (b', wrote) = flush_page k b in flush_keys ks b' (if wrote then written + 1 else written)

  unfoldable pub flush_all : BufferPool Page State → BufferPool Page State × ℕ
  unfolding flush_keys
  flush_all b = flush_keys (Map.keys b.page_table) b 0

  -- The end of a round of `evictOne`: the frame is dropped.
  pub drop_frame : ℕ → BufferPool Page State → BufferPool Page State
  drop_frame k b = record b {
    page_table = Map.delete k b.page_table;
    lru = Lru.remove k b.lru;
    stats = record b.stats { evictions = b.stats.evictions + 1 };
  }

  pub evict_frame : ℕ → Frame Page → BufferPool Page State → BufferPool Page State
  unfolding drop_frame
  evict_frame k f b = if f.dirty then drop_frame k (flush_page k b).0 else drop_frame k b

  pub evictable : ℕ → BufferPool Page State → Option (Frame Page)
  evictable k b = elim (Map.get k b.page_table) [
    | none ↦ none
    | some f ↦ if ltb 0 f.pin_count then none else some f
  ]

  -- The loop of `evictOne` over `evictionOrder`.
  pub evict_from : List ℕ → BufferPool Page State → BufferPool Page State × Option ℕ
  unfolding evictable evict_frame
  evict_from [] b = (b, none)
  evict_from (candidate ∷ rest) b = elim (evictable candidate b) [
    | none ↦ evict_from rest b
    | some f ↦ (evict_frame candidate f b, some candidate)
  ]

  unfoldable pub evict_one : BufferPool Page State → BufferPool Page State × Option ℕ
  unfolding evict_from
  evict_one b = evict_from (Lru.eviction_order b.lru) b

  -- The read of a miss, once there is room.
  pub load_page : ℕ → BufferPool Page State → BufferPool Page State × Option Page
  load_page k b = elim (read_page k b.storage) [
    | none ↦ (b, none)
    | some page ↦ (
      record b {
        page_table = Map.set k (record { page = page; pin_count = 1; dirty = false }) b.page_table;
        lru = Lru.touch k b.lru;
      },
      some page,
    )
  ]

  pub make_room : ℕ → BufferPool Page State → BufferPool Page State × Option Page
  make_room k b =
      let (b', victim) = evict_one b in elim victim [ none ↦ (b', none) | some _ ↦ load_page k b' ]

  -- `this.stats.misses += 1`
  pub counted : BufferPool Page State → BufferPool Page State
  counted b = record b { stats = record b.stats { misses = b.stats.misses + 1 } }

  pub miss_page : ℕ → BufferPool Page State → BufferPool Page State × Option Page
  unfolding load_page make_room counted
  miss_page k b =
      if leb b.capacity (length b.page_table)
      then make_room k (counted b)
      else load_page k (counted b)

  pub hit_page : ℕ → Frame Page → BufferPool Page State → BufferPool Page State × Option Page
  hit_page k f b = (
    record b {
      page_table = Map.set k (record f { pin_count = f.pin_count + 1 }) b.page_table;
      lru = Lru.touch k b.lru;
      stats = record b.stats { hits = b.stats.hits + 1 };
    },
    some f.page,
  )

  unfoldable pub fetch_page : ℕ → BufferPool Page State → BufferPool Page State × Option Page
  unfolding hit_page miss_page
  fetch_page k b = elim (Map.get k b.page_table) [ none ↦ miss_page k b | some f ↦ hit_page k f b ]
