-- ===== src/Sync.antt =====
-- modules/sync/sync.service.ts: the batches of operations that a device sends after it was offline.
pub mod Rows
pub mod Payload
pub mod Identity
pub mod Sort
pub mod Register
pub mod Operation
pub mod Batch
pub mod Recover
mod Tests
