-- ===== src/Handshake.antt =====
-- crates/laic/src/handshake.rs: the trust-domain handshake over an established connection.
pub mod Wire
pub mod Check
pub mod Session
pub mod Run
pub mod Agreement
pub mod Stream
pub mod Exchange
pub mod Outcome
pub mod Foreign
pub mod Tokens
