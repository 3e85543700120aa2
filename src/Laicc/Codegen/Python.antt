-- ===== src/Laicc/Codegen/Python.antt =====
-- crates/laicc/src/codegen: the generator of Python code, which cannot panic.
pub mod Types
pub mod Serialize
pub mod Tensors
pub mod Deserialize
pub mod Contract
pub mod Fields
