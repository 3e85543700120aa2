-- ===== src/Error/Codec.antt =====
-- crates/laic/src/error.rs: codec errors, codes 0x02xx.
use laic.Prelude.{ℕ, Bool, false, ◌∷◌}
use laic.Prelude.Detail.{Detail, text}

pub data CodecError : Type 0 where
  arrow_encode : (detail : Detail) → CodecError
  arrow_decode : (detail : Detail) → CodecError
  proto_encode : (detail : Detail) → CodecError
  proto_decode : (detail : Detail) → CodecError

unfoldable pub code : CodecError → ℕ
code (arrow_encode _) = 0x0201
code (arrow_decode _) = 0x0202
code (proto_encode _) = 0x0203
code (proto_decode _) = 0x0204

unfoldable pub is_retryable : CodecError → Bool
is_retryable _ = false

-- `Display`
unfoldable pub fmt : CodecError → Detail
fmt (arrow_encode detail) = text "Arrow encode failed: " ∷ detail
fmt (arrow_decode detail) = text "Arrow decode failed: " ∷ detail
fmt (proto_encode detail) = text "Protobuf encode failed: " ∷ detail
fmt (proto_decode detail) = text "Protobuf decode failed: " ∷ detail
