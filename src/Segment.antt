-- ===== src/Segment.antt =====
-- crates/storage/src/segment: the binary segment format and its recovery.
pub mod Bytes
pub mod Kind
pub mod Header
pub mod Record
pub mod Index
pub mod Recover
pub mod Active
pub mod Sealed
mod Examples
