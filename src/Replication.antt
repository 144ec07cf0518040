-- ===== src/Replication.antt =====
-- The replication protocol, src/replication/.
pub mod Roles
pub mod Error
pub mod Parts
pub mod Envelope
pub mod Crypto
pub mod Canonical
pub mod StateMachine
pub mod TrustedKey
pub mod Transport
pub mod FactCreate
pub mod FactSupersede
pub mod Domains
mod Tests
mod TransportTests
