-- ===== src/Transfers.antt =====
-- Upload frames, upload staging and the download pump (backend/src/transfers.rs and
-- backend/src/rclone/bytes_channel.rs).
pub mod Frames
pub mod Staging
pub mod Pump
mod Codec
mod Sequence
mod Delivery
mod Slices
mod Streaming
mod Tests
pub use Codec.*
pub use Sequence.*
pub use Delivery.*
pub use Slices.*
pub use Streaming.*
