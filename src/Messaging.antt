-- ===== src/Messaging.antt =====
-- src/engine/messaging: the message queue and its consumer, the collaboration manager.
pub mod Queue
pub mod Sessions
pub mod Tests
