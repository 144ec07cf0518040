-- ===== src/Sync.antt =====
-- src/replica.rs, src/sync.rs and src/sync_handler.rs: journal entries are exported in sequence,
-- sent, and applied to a replica once each.
pub mod Replica
pub mod Batch
mod Tests
