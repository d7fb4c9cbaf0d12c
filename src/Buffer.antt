-- ===== src/Buffer.antt =====
-- src/engine/buffer: the LRU list and the buffer pool.
pub mod Lru
pub mod Storage
pub mod Pool
pub mod Tests
