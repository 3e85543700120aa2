-- ===== src/Codec.antt =====
-- crates/laic/src/codec
pub mod Proto
