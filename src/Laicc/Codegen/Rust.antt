-- ===== src/Laicc/Codegen/Rust.antt =====
-- crates/laicc/src/codegen: the generator of Rust code.
pub mod Types
pub mod Schema
pub mod Columns
pub mod Serialize
pub mod DeserializeTensors
pub mod DeserializeLists
pub mod DeserializeFields
pub mod Deserialize
pub mod Contract
pub mod Panics
