-- ===== src/Laicc/Validate.antt =====
-- crates/laicc/src/validate.rs: what a `.laic` file must satisfy before code is generated.
pub mod Steps
pub mod Types
pub mod Names
pub mod Sets
pub mod File
