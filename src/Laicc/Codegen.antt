-- ===== src/Laicc/Codegen.antt =====
-- crates/laicc/src/codegen: source code is generated by appending texts to a buffer. A generator is
-- the list of what it appends, and one that may reach `unreachable!` has an `Emitted` result.
pub mod Text
pub mod Emitted
pub mod Rust
pub mod Python
pub mod TypeScript
pub mod Shapes
