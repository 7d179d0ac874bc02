-- ===== src/Handler.antt =====
-- The packet handler (src/packet_handler.cpp): what the processing thread does with a packet, on
-- the state of its connection and the database.
pub mod Session
pub mod Frontier
pub mod Bulk
pub mod Account
pub mod Message
pub mod Tcp
