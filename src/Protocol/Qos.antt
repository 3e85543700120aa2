-- ===== src/Protocol/Qos.antt =====
-- crates/laic/src/protocol/constants.rs: `Qos`.
use laic.Prelude.{ℕ, ◌<◌, ◌≡◌, refl, ◌==◌, if◌then◌else◌, Result, ok, err, arith}
use laic.Error.Protocol.{ProtocolError, invalid_qos}

pub data Qos : Type 0 where
  normal high emergency : Qos

unfoldable pub from_u8 : ℕ → Result Qos ProtocolError
from_u8 value =
    if value == 0
    then ok normal
    else if value == 1
    then ok high
    else if value == 2
    then ok emergency
    else err (invalid_qos value)

-- The cast `as u8`
unfoldable pub as_u8 : Qos → ℕ
as_u8 normal = 0
as_u8 high = 1
as_u8 emergency = 2

pub from_u8-as_u8 : (q : Qos) → from_u8 (as_u8 q) ≡ ok q
unfolding from_u8 as_u8
from_u8-as_u8 normal = refl
from_u8-as_u8 _ = refl

pub as_u8-from_u8 : (b : ℕ) (q : Qos) → from_u8 b ≡ ok q → as_u8 q ≡ b
unfolding from_u8 as_u8
as_u8-from_u8 b q h = ground arith

pub as_u8-lt : (q : Qos) → as_u8 q < 256
unfolding as_u8
as_u8-lt q = ground arith
