-- ===== src/Session.antt =====
-- packages/core/src/domain/session and services/session: unlocked vaults and the session that holds one.
pub mod Types
pub mod Calls
pub mod Records
pub mod Service
pub mod Activation
pub mod Commits
pub mod Rollbacks
pub mod Coordination
pub mod SingleUse
pub mod Revoked
pub mod Discarded
pub mod FailsClosed
