-- ===== src/Protocol.antt =====
-- The parser of the wire protocol (nano.h, nano.cpp): a record for each class, a reader for each
-- constructor with its `_read`.
pub mod Enums
pub mod Header
pub mod Block
pub mod Messages
pub mod Bootstrap
pub mod Nano
pub mod Selects
pub mod Sizes
pub mod Encode
pub mod Reads
pub mod RoundTrip
pub mod Quiet
