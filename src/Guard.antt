-- ===== src/Guard.antt =====
-- packages/core/src/services/sync: the guard of uploads and local mutations.
pub mod Types
pub mod Outcome
pub mod Calls
pub mod Credentials
pub mod Uploads
pub mod Mutations
