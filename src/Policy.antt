-- ===== src/Policy.antt =====
-- The connection policy gates of backend/src/policy.rs: path sanitizing, root confinement and
-- the write and delete gates. Error texts are constructors of `PathError`.
pub mod Segments
pub mod Sanitize
pub mod Backslash
pub mod Resolve
pub mod Confine
pub mod Whitelist
pub mod Gates
pub mod Refusals
mod Tests
