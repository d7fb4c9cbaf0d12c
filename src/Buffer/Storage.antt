-- ===== src/Buffer/Storage.antt =====
-- What the buffer pool asks of its storage manager (storage/StorageManager.js, storage/Page.js).
use collab_write.Prelude.{ℕ, ◌≡◌, ◌≢◌, Option, some}

-- A page held in memory may differ from its image on disk in the fields that only a write computes
-- (checksum, dirty flag); `clean` is the page as a write leaves it on disk.
pub record Storage : Type 1 where
  pub State : Type 0
  pub Page : Type 0
  pub page_id : Page → ℕ
  pub clean : Page → Page
  -- `none`: the read throws.
  pub read_page : ℕ → State → Option Page
  -- The page object, whose dirty flag is reset, and the new file.
  pub write_page : Page → State → Page × State
  -- Pages that can be stored, and files whose pages carry their own ids.
  pub IsPage : Page → Type 0
  pub IsSound : State → Type 0
  pub read-page_id :
      (k : ℕ) (s : State) (q : Page)
      → IsSound s
      → read_page k s ≡ some q
      → (page_id q ≡ k) × IsPage q × (clean q ≡ q)
  pub write-IsSound : (q : Page) (s : State) → IsPage q → IsSound s → IsSound (write_page q s).1
  pub read-write_self :
      (q : Page) (s : State) → IsPage q → read_page (page_id q) (write_page q s).1 ≡ some (clean q)
  -- A write beyond the end of the file extends it: no page is lost.
  pub read-write_ne :
      (k : ℕ) (q : Page) (s : State) (r : Page)
      → page_id q ≢ k
      → read_page k s ≡ some r
      → read_page k (write_page q s).1 ≡ some r
  pub write-page :
      (q : Page) (s : State)
      → IsPage q
      → (clean (write_page q s).0 ≡ clean q)
        × (page_id (write_page q s).0 ≡ page_id q)
        × IsPage (write_page q s).0
