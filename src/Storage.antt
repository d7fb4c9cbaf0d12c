-- ===== src/Storage.antt =====
-- src/engine/storage: the pages of the data file and the storage manager over them.
pub mod Page
pub mod Manager
mod Tests
