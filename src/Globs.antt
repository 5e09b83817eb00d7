-- ===== src/Globs.antt =====
-- The wildcard patterns of the MCP scan tools (backend/src/mcp/tools.rs).
pub mod Matching
mod Meaning
mod Tests
pub use Meaning.*
