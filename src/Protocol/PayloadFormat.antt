-- ===== src/Protocol/PayloadFormat.antt =====
-- crates/laic/src/protocol/constants.rs: `PayloadFormat`.
use laic.Prelude.{ℕ, ◌<◌, ◌≡◌, refl, ◌==◌, if◌then◌else◌, Result, ok, err, arith}
use laic.Error.Protocol.{ProtocolError, invalid_payload_format}

pub data PayloadFormat : Type 0 where
  arrow protobuf raw : PayloadFormat

unfoldable pub from_u8 : ℕ → Result PayloadFormat ProtocolError
from_u8 value =
    if value == 0
    then ok arrow
    else if value == 1
    then ok protobuf
    else if value == 2
    then ok raw
    else err (invalid_payload_format value)

-- The cast `as u8`
unfoldable pub as_u8 : PayloadFormat → ℕ
as_u8 arrow = 0
as_u8 protobuf = 1
as_u8 raw = 2

pub from_u8-as_u8 : (f : PayloadFormat) → from_u8 (as_u8 f) ≡ ok f
unfolding from_u8 as_u8
from_u8-as_u8 arrow = refl
from_u8-as_u8 _ = refl

pub as_u8-from_u8 : (b : ℕ) (f : PayloadFormat) → from_u8 b ≡ ok f → as_u8 f ≡ b
unfolding from_u8 as_u8
as_u8-from_u8 b f h = ground arith

pub as_u8-lt : (f : PayloadFormat) → as_u8 f < 256
unfolding as_u8
as_u8-lt f = ground arith
