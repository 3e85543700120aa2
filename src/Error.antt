-- ===== src/Error.antt =====
-- crates/laic/src/error.rs: the top-level `LaicError`, one constructor for each layer, with its
-- stable code, its retryability and its text. A `From` conversion is the constructor.
pub mod Protocol
pub mod Transport
pub mod Codec
pub mod Flow
pub mod Codes
use laic.Prelude.{ℕ, Bool, ◌∷◌}
use laic.Prelude.Detail.{Detail, text}
use Protocol.{ProtocolError}
use Transport.{TransportError}
use Codec.{CodecError}
use Flow.{FlowError}

pub data LaicError : Type 0 where
  protocol : ProtocolError → LaicError
  codec : CodecError → LaicError
  transport : TransportError → LaicError
  flow : FlowError → LaicError

unfoldable pub code : LaicError → ℕ
code (protocol e) = Protocol.code e
code (codec e) = Codec.code e
code (transport e) = Transport.code e
code (flow e) = Flow.code e

unfoldable pub is_retryable : LaicError → Bool
is_retryable (protocol e) = Protocol.is_retryable e
is_retryable (codec e) = Codec.is_retryable e
is_retryable (transport e) = Transport.is_retryable e
is_retryable (flow e) = Flow.is_retryable e

-- `Display`
unfoldable pub fmt : LaicError → Detail
fmt (protocol e) = text "protocol error: " ∷ Protocol.fmt e
fmt (codec e) = text "codec error: " ∷ Codec.fmt e
fmt (transport e) = text "transport error: " ∷ Transport.fmt e
fmt (flow e) = text "flow control error: " ∷ Flow.fmt e
