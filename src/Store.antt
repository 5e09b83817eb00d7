-- ===== src/Store.antt =====
-- The persisted histories of backend/src/store.rs.
pub mod Rings
mod Suffix
mod Runs
mod Tests
pub use Suffix.*
pub use Runs.*
