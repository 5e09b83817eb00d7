-- ===== src/Decisions.antt =====
-- The memory of directory sizes of backend/src/rclone/list_decision.rs.
pub mod Cache
mod Coherence
mod Bounded
mod Tests
pub use Coherence.*
pub use Bounded.*
