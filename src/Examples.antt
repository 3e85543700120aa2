-- ===== src/Examples.antt =====
-- Concrete runs of the theorems, a module for each part of the program.
pub mod Sample
pub mod Protocol
pub mod Patterns
pub mod Streams
pub mod Shared
pub mod Handshakes
pub mod Exchange
pub mod Compiler
pub mod Contracts
