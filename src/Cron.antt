-- ===== src/Cron.antt =====
-- The five-field cron expressions of backend/src/scheduler/cron.rs.
pub mod Bits
pub mod Fields
pub mod Masks
pub mod Selection
pub mod Meaning
pub mod Next
pub mod Scan
pub mod Earliest
pub mod Repeated
mod Tests
