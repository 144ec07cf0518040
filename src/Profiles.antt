-- ===== src/Profiles.antt =====
-- src/profile_store.rs: memory profiles, the stores they own, the grants between them, the actors
-- that act for them, and the decision whether a profile may access a store.
pub mod Scope
pub mod Access
pub mod Digest
pub mod Binding
pub mod Snapshot
mod Tests
