-- ===== src/Storage.antt =====
-- crates/storage/src: the records of the log, their codecs, and the store's books.
pub mod Log
pub mod Mirror
pub mod Codec
pub mod Manifest
pub mod Budget
mod Examples
