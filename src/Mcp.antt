-- ===== src/Mcp.antt =====
-- The in-process state of the MCP tools (backend/src/mcp/state.rs).
pub mod Lru
pub mod Json
pub mod Settings
mod Table
mod Limits
mod Updates
pub mod Arguments
pub mod Cursors
pub mod Confirms
pub mod Intents
mod Paging
mod Reading
mod Tokens
mod Survival
mod Answers
pub use Paging.*
pub use Reading.*
pub use Tokens.*
pub use Survival.*
pub use Answers.*
pub use Table.*
pub use Limits.*
pub use Updates.*
mod Samples
mod Tests
