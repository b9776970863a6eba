-- ===== src/Visitors.antt =====
-- src/modules/visitors/visitors.service.ts: the journal of changes that the devices of staff follow.
pub mod Changes
pub mod Latest
pub mod Pages
pub mod Answers
pub mod CatchUp
mod Tests
