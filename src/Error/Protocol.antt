-- ===== src/Error/Protocol.antt =====
-- crates/laic/src/error/protocol.rs: protocol errors, codes 0x03xx.
use laic.Prelude.{ℕ, String, Bool, false, [], ◌∷◌}
use laic.Prelude.Detail.{Detail, plain, text, dec, hex}

pub data ProtocolError : Type 0 where
  invalid_magic : (actual : ℕ) → ProtocolError
  buffer_too_short : (actual expected : ℕ) → ProtocolError
  unsupported_version : (version : ℕ) → ProtocolError
  invalid_payload_format : (value : ℕ) → ProtocolError
  invalid_qos : (value : ℕ) → ProtocolError
  payload_length_mismatch : (header_len actual_len : ℕ) → ProtocolError
  unexpected_message_type : (expected actual : ℕ) → ProtocolError
  unexpected_payload_format : (expected actual : ℕ) → ProtocolError
  unsupported_handshake_version : (expected actual : ℕ) → ProtocolError
  trust_domain_mismatch : (expected actual : String) → ProtocolError
  handshake_nonce_mismatch : ProtocolError
  invalid_handshake_payload : (detail : Detail) → ProtocolError

unfoldable pub code : ProtocolError → ℕ
code (invalid_magic _) = 0x0301
code (buffer_too_short _ _) = 0x0302
code (unsupported_version _) = 0x0303
code (invalid_payload_format _) = 0x0304
code (invalid_qos _) = 0x0305
code (payload_length_mismatch _ _) = 0x0306
code (unexpected_message_type _ _) = 0x0307
code (unsupported_handshake_version _ _) = 0x0308
code (trust_domain_mismatch _ _) = 0x0309
code handshake_nonce_mismatch = 0x030A
code (invalid_handshake_payload _) = 0x030B
code (unexpected_payload_format _ _) = 0x030C

unfoldable pub is_retryable : ProtocolError → Bool
is_retryable _ = false

-- `Display`
unfoldable pub fmt : ProtocolError → Detail
fmt (invalid_magic actual) = text "invalid magic: expected 0x4C414943, got 0x" ∷ hex 8 actual ∷ []
fmt (buffer_too_short actual expected) =
    text "buffer too short: " ∷ dec actual ∷ text " bytes, need " ∷ dec expected ∷ []
fmt (unsupported_version version) = text "unsupported version: 0x" ∷ hex 4 version ∷ []
fmt (invalid_payload_format value) = text "invalid payload format: " ∷ dec value ∷ []
fmt (invalid_qos value) = text "invalid QoS: " ∷ dec value ∷ []
fmt (payload_length_mismatch header_len actual_len) =
    text "payload length mismatch: header says "
    ∷ dec header_len
    ∷ text ", actual "
    ∷ dec actual_len
    ∷ []
fmt (unexpected_message_type expected actual) =
    text "unexpected message type: expected 0x"
    ∷ hex 4 expected
    ∷ text ", got 0x"
    ∷ hex 4 actual
    ∷ []
fmt (unexpected_payload_format expected actual) =
    text "unexpected payload format: expected 0x"
    ∷ hex 2 expected
    ∷ text ", got 0x"
    ∷ hex 2 actual
    ∷ []
fmt (unsupported_handshake_version expected actual) =
    text "unsupported handshake version: expected 0x"
    ∷ hex 4 expected
    ∷ text ", got 0x"
    ∷ hex 4 actual
    ∷ []
fmt (trust_domain_mismatch expected actual) =
    text "trust-domain mismatch: expected " ∷ text expected ∷ text ", got " ∷ text actual ∷ []
fmt handshake_nonce_mismatch = plain "handshake nonce mismatch"
fmt (invalid_handshake_payload detail) = text "invalid handshake payload: " ∷ detail
