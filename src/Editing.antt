-- ===== src/Editing.antt =====
-- Remote editing: backend/src/remote_edit.rs and its watch loop in backend/src/main.rs.
pub mod Watch
mod Gate
mod Settling
mod Tests
pub use Gate.*
pub use Settling.*
