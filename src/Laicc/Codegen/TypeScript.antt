-- ===== src/Laicc/Codegen/TypeScript.antt =====
-- crates/laicc/src/codegen: the generator of TypeScript code, which cannot panic.
pub mod Types
pub mod Serialize
pub mod Deserialize
pub mod Contract
pub mod Arrays
