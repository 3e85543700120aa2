-- ===== src/Laicc.antt =====
-- crates/laicc: the compiler of the interface description language.
pub mod Ast
pub mod Validate
pub mod Codegen
pub mod Parser
pub mod Driver
