-- ===== src/Handshake/Check.antt =====
-- crates/laic/src/handshake.rs: what either side checks of what it has received.
use laic.Prelude.{
  ℕ, ◌^◌, Bool, true, false, not, String, str_eq, Option, none, some, List, [], ◌∷◌, length, Result,
  ok, err, done, ◌>>=◌, ◌>>◌, err_if, map_err, ltb, ◌==◌, if◌then◌else◌,
}
use laic.Prelude.Detail.{Detail, text, dec, hex, plain}
use laic.Protocol.Constants
use laic.Protocol.PayloadFormat
use laic.Protocol.PayloadFormat.{PayloadFormat}
use laic.Protocol.Message.{Message, msg_type}
use laic.Codec.Proto.{ProstMessage, decode_proto}
use laic.Error.{LaicError, protocol, fmt}
use laic.Error.Protocol.{
  ProtocolError, unexpected_message_type, unexpected_payload_format, unsupported_handshake_version,
  trust_domain_mismatch, invalid_handshake_payload,
}
use laic.Handshake.Wire.{
  TrustDomainHello, TrustDomainHelloAck, ClientHandshakeConfig, ServerHandshakeConfig,
  handshake_token_len,
}

abbrev pub malformed : Detail → LaicError
malformed detail = protocol (invalid_handshake_payload detail)

-- `==` on byte slices
unfoldable pub bytes_eq : List ℕ → List ℕ → Bool
bytes_eq [] [] = true
bytes_eq [] (y ∷ ys) = false
bytes_eq (x ∷ xs) [] = false
bytes_eq (x ∷ xs) (y ∷ ys) = let rest = bytes_eq xs ys in if x == y then rest else false

abbrev pub is_empty : List ℕ → Bool
is_empty [] = true
is_empty (_ ∷ _) = false

abbrev pub is_some : Option String → Bool
is_some none = false
is_some (some _) = true

unfoldable pub validate_trust_domain : String → String → Result (Unit {0}) LaicError
validate_trust_domain field value =
    err_if (str_eq value "") (malformed (text field ∷ text " must not be empty" ∷ []))

unfoldable pub validate_expected_domain : Option String → String → Result (Unit {0}) LaicError
validate_expected_domain none actual = done
validate_expected_domain (some expected) actual =
    err_if (not (str_eq expected actual)) (protocol (trust_domain_mismatch expected actual))

unfoldable pub validate_protocol_version : ℕ → ℕ → Result (Unit {0}) LaicError
validate_protocol_version expected actual =
    if ltb actual (2 ^ 16)
    then err_if (not (actual == expected))
        (protocol (unsupported_handshake_version expected actual))
    else err (malformed (text "protocol_version " ∷ dec actual ∷ text " exceeds u16" ∷ []))

unfoldable pub decode_token : String → List ℕ → Result (List ℕ) LaicError
decode_token field bytes =
    if not (length bytes == handshake_token_len)
    then err (
        malformed (
          text field
          ∷ text " must be "
          ∷ dec handshake_token_len
          ∷ text " bytes, got "
          ∷ dec (length bytes)
          ∷ []))
    else ok bytes

unfoldable pub validate_ack_shape : TrustDomainHelloAck → Result (Unit {0}) LaicError
validate_ack_shape ack =
    if ack.rejection_code == 0
    then (do
      err_if (is_some ack.rejected_expected_remote_trust_domain)
          (malformed (plain "hello_ack success must not include rejection explanation"))
      decode_token "server_nonce" ack.server_nonce
      decode_token "session_id" ack.session_id
      done)
    else (do
      err_if (not (is_empty ack.server_nonce))
          (malformed (plain "hello_ack rejection must not include server_nonce"))
      err_if (not (is_empty ack.session_id))
          (malformed (plain "hello_ack rejection must not include session_id"))
      done)

-- The three refusals that an ack can carry, and what the client makes of each.
unfoldable pub rejected_version :
    ClientHandshakeConfig → TrustDomainHelloAck → Result (Unit {0}) LaicError
rejected_version config ack =
    if ltb ack.protocol_version (2 ^ 16)
    then if ack.protocol_version == config.protocol_version
      then err
          (malformed (plain "hello_ack rejected protocol version but echoed a matching version"))
      else err
          (protocol (unsupported_handshake_version config.protocol_version ack.protocol_version))
    else err (
        malformed (
          text "hello_ack rejection echoed protocol_version "
          ∷ dec ack.protocol_version
          ∷ text " outside u16"
          ∷ []))

unfoldable pub rejected_domain : ClientHandshakeConfig → Option String → Result (Unit {0}) LaicError
rejected_domain config none =
    err (malformed (plain "hello_ack trust-domain rejection omitted expected remote domain"))
rejected_domain config (some expected) =
    err (protocol (trust_domain_mismatch expected config.local_trust_domain))

unfoldable pub validate_ack_rejection :
    ClientHandshakeConfig → TrustDomainHelloAck → Result (Unit {0}) LaicError
validate_ack_rejection config ack = do
  validate_ack_shape ack
  if ack.rejection_code == 0
      then done
      else if ack.rejection_code == 0x0308
      then rejected_version config ack
      else if ack.rejection_code == 0x0309
      then rejected_domain config ack.rejected_expected_remote_trust_domain
      else if ack.rejection_code == 0x030B
      then err (malformed (plain "server rejected client hello as malformed"))
      else err
          (malformed (text "unknown hello_ack rejection code 0x" ∷ hex 4 ack.rejection_code ∷ []))

unfoldable pub validate_peer_hello :
    ServerHandshakeConfig → TrustDomainHello → Result (Unit {0}) LaicError
validate_peer_hello config hello = do
  validate_trust_domain "hello trust_domain" hello.trust_domain
  validate_protocol_version config.protocol_version hello.protocol_version
  validate_expected_domain config.expected_remote_trust_domain hello.trust_domain

unfoldable pub rejected_expected : ProtocolError → Option String
rejected_expected (trust_domain_mismatch expected _) = some expected
rejected_expected _ = none

unfoldable pub handshake_rejected_expected_domain : LaicError → Option String
handshake_rejected_expected_domain (protocol e) = rejected_expected e
handshake_rejected_expected_domain _ = none

-- The equality of `PayloadFormat` by the value of the cast `as u8`.
unfoldable pub decode_control_message : {M : Type 0} → ProstMessage M → Message → Result M LaicError
decode_control_message p message = do
  err_if (not (msg_type message == Constants.msg_control))
      (protocol (unexpected_message_type Constants.msg_control (msg_type message)))
  actual_format ← map_err protocol (PayloadFormat.from_u8 message.header.payload_format)
  err_if (not (PayloadFormat.as_u8 actual_format == PayloadFormat.as_u8 PayloadFormat.protobuf)) (
      protocol (
        unexpected_payload_format (PayloadFormat.as_u8 PayloadFormat.protobuf)
          (PayloadFormat.as_u8 actual_format)))
  map_err (λ e. malformed (text "handshake protobuf decode failed: " ∷ fmt e))
      (decode_proto p message.payload)
