-- ===== src/Sessions.antt =====
-- src/modules/staff-sessions/staff-sessions.service.ts: the sessions of staff at a checkpoint.
pub mod Guards
pub mod Start
pub mod Single
pub mod Histories
pub mod Again
pub mod Repeat
pub mod Admitted
pub mod Tests
