-- ===== src/Protocol.antt =====
-- crates/laic/src/protocol: the constants, the 40-byte header and the message.
pub mod Constants
pub mod PayloadFormat
pub mod Qos
pub mod Header
pub mod Message
