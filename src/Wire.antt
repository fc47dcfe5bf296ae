-- ===== src/Wire.antt =====
-- Byte strings: integers in network order, text, and slices.
pub mod Endian
pub mod Utf8
pub mod Bits
pub mod Reader
pub mod Words
pub mod Hex
pub mod Lines
pub mod Decimal
pub mod Cursor
pub mod Strings
pub mod Trim
