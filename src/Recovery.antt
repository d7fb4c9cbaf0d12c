-- ===== src/Recovery.antt =====
-- src/engine/recovery: the write-ahead log and the recovery of the data file from it.
pub mod Wal
pub mod Manager
pub mod Tests
