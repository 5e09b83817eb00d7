-- ===== src/Archive.antt =====
-- The archive code of backend/src/archive.rs.
pub mod Paths
mod Masks
pub mod Reader
pub mod Huffman
pub mod Inflate
pub mod Gzip
mod Utf8
pub mod Fields
pub mod Blocks
pub mod Tar
pub mod Listing
pub mod Writer
mod Octal
mod Totals
mod Layout
mod Passes
mod HeaderTrip
mod Reading
mod Streams
mod Ends
mod Tables
mod Guard
mod Dynamic
mod Stored
mod Chunks
mod RoundTrip
mod Unfinished
mod Framing
mod Bombs
mod Tests
mod Headers
mod Walked
mod Extracted
mod Overflow
mod Pages
mod Devices
mod TarTests
pub use Extracted.*
pub use Overflow.*
pub use Pages.*
pub use Devices.*
pub use Totals.*
pub use HeaderTrip.*
mod Confined
mod Drives
pub use Confined.*
pub use Drives.*
pub use Bombs.*
pub use Streams.*
