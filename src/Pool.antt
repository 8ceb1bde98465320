-- ===== src/Pool.antt =====
-- rust/plex-pg-core/src/pg_client/: the connection pool.
pub mod Slot
pub mod TlsCache
pub mod Registry
pub mod Manager
pub mod Host
pub mod Path
pub mod Acquire
pub mod Contention
pub mod Release
pub mod Child
pub mod Reach
mod Tests
