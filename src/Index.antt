-- ===== src/Index.antt =====
-- src/engine/index: the B+-tree over the documents.
pub mod Tree
mod Tests
