-- ===== src/Lib.antt =====
-- CollabWrite: a verification library for the storage and concurrency engine of CollabWrite.
--
-- The engine (src/engine) serves edit requests: a scheduler hands them to workers, each edit runs
-- in a transaction under two-phase locking, pages are read and written through a buffer pool, a
-- write-ahead log makes commits durable, and a message queue carries committed edits to clients.
--
-- Which file models which part. `Prelude` holds what the parts share: Boolean tests, lists over the
-- native numbers, integers, the bytes of unsigned numbers, and JavaScript's `Map` as an association
-- list in insertion order.
--   Conflict   src/engine/conflict/ConflictResolver.js: `merge`, `overlaps`, `applyOperation`,
--              `assertNoConflict`. Texts are lists of code units.
--   Buffer.Lru src/engine/buffer/LRUCache.js: the doubly linked list, with its `prev` and `next`
--              links as functions of the page id; `Links` and `Order` refine it to a list.
--   Buffer.Pool src/engine/buffer/BufferPool.js, over any storage that meets the contract of the
--              record `Buffer.Storage.Storage`; a call returns the pool, which holds the storage, and
--              its result, `none` for a thrown error.
--   Lock       src/engine/lock/LockManager.js: `Entry` is one entry of the lock table with the loops
--              that work on it, `Lock` the table. A promise is named by its request's number.
--              `Lock.Deadlock` is the graph and the victim of src/engine/lock/DeadlockDetector.js,
--              whose search for cycles is not modelled.
--   Messaging  src/engine/messaging: `Queue` is MessageQueue.js, with the callback of `setImmediate`
--              as the operation `immediate`; `Sessions` is CollaborationManager.js. `Queue.Run` and
--              `Sessions.Presence` run their calls.
--   Scheduler  src/engine/scheduler: `Tasks` is `insertByPriority`, `Workers` is WorkerPool.js,
--              `Scheduler` is Scheduler.js; `Service` runs its calls.
--   Recovery   src/engine/recovery: `Wal` is WAL.js on the bytes of the file, `Manager` is
--              RecoveryManager.js over what the record `Pages` names of the storage manager and the
--              buffer pool.
--   Storage    src/engine/storage: `Page` is Page.js on the bytes of a buffer, `Page.Checksum` its CRC
--              and images, `Manager` is StorageManager.js on the bytes of the data file. A call
--              that throws keeps what it has written: its outcome carries the buffer or the state.
--   Transaction src/engine/transaction/Transaction.js; `Records` runs what a transaction records.
--              `Manager` is TransactionManager.js over the models of the lock manager, the log and
--              the conflict resolver, and over what the records `Pages` and `Frames` name of the
--              storage manager and the buffer pool.
--   Index      src/engine/index/BPlusTree.js: `Tree` is the tree of its nodes with insertion and
--              search, `Tree.Delete` the deletion; `Tree.Run` runs insertions. The `next` chain
--              of the leaves is not modelled, and with it the range scan is not.
--   Metrics    src/engine/metrics/Metrics.js: the samples kept of each name.
--
-- Objects that the code mutates are records that a function takes and returns. Loops are recursion
-- on the list that they go through. The walks of the linked list take the number of nodes as fuel,
-- which is shown to be enough: they return every node. The loop of `dispatch` takes the number of
-- queued tasks as fuel, which is enough since each of its turns takes one; that of `readAll`
-- takes the number of bytes, of which each record has some. Time and timers are
-- arguments and calls of the environment. Logging and the rounded averages of the reports are not
-- modelled.
pub mod Prelude
pub mod Conflict
pub mod Buffer
pub mod Index
pub mod Lock
pub mod Messaging
pub mod Scheduler
pub mod Recovery
pub mod Storage
pub mod Transaction
pub mod Metrics
