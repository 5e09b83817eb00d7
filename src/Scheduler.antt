-- ===== src/Scheduler.antt =====
-- The schedule tasks of backend/src/scheduler/mod.rs and backend/src/scheduler/model.rs.
pub mod Model
pub mod Validate
pub mod Tasks
pub mod Runs
pub mod Awaiting
pub mod Driving
pub mod History
pub mod Steps
pub mod Flights
mod Flying
mod Due
mod Ticks
mod Resync
mod Awaited
mod Hydrated
mod RunTests
mod Names
mod Tests
pub use Names.*
pub use Flying.*
pub use Ticks.*
pub use Resync.*
pub use Awaited.*
pub use Hydrated.*
