-- ===== src/Txn.antt =====
-- rust/plex-pg-core/src/pg_client/txn.rs: Plex's transactions, forwarded to PostgreSQL.
pub mod Plan
pub mod Server
pub mod Stack
pub mod Commands
pub mod Refines
pub mod Brackets
pub mod Registry
pub mod Classify
mod Tests
