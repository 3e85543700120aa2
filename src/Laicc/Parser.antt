-- ===== src/Laicc/Parser.antt =====
-- crates/laicc/src/parser.rs: from the tree of pairs that pest makes to the syntax tree.
pub mod Text
pub mod Tree
pub mod Types
pub mod File
pub mod Grammar
pub mod RoundTrip
pub mod Compile
