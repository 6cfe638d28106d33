-- ===== src/Util.antt =====
-- src/util.rs: searches in sorted slices, reading from byte slices, and helpers on bytes.
pub mod Order
pub mod Search
pub mod Sort
pub mod Reorder
pub mod Cover
pub mod Bytes
pub mod Utf8
pub mod Text
pub mod Slice
pub mod Rest
pub mod Leb128
