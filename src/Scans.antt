-- ===== src/Scans.antt =====
-- modules/scans/scans.service.ts
pub mod Checks
pub mod Context
pub mod Records
pub mod Ingest
pub mod Process
pub mod Offline
pub mod Reconcile
pub mod Keeps
pub mod SingleEntry
pub mod Admission
pub mod Replay
pub mod Progress
pub mod Settlement
pub mod Sample
mod Tests
