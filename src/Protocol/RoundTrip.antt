-- ===== src/Protocol/RoundTrip.antt =====
-- The parser reads back what the wire format writes.
pub mod Block
pub mod Messages
pub mod Bootstrap
pub mod Nano
pub mod Any
pub mod Entry
