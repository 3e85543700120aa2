-- ===== src/Error/Codes.antt =====
-- What the stable code of an error tells a peer that sees nothing else of it.
use laic.Prelude.{
  ℕ, ◌/◌, ◌≡◌, ◌↔◌, refl, sym, ◌∙◌, ap, true, List, [], ◌∷◌, arith, ◌==◌, if◌then◌else◌,
}
use laic.Error.{LaicError, protocol, codec, transport, flow, code, is_retryable}
use laic.Error.Protocol
use laic.Error.Protocol.{
  ProtocolError, invalid_magic, buffer_too_short, unsupported_version, invalid_payload_format,
  invalid_qos, payload_length_mismatch, unexpected_message_type, unexpected_payload_format,
  unsupported_handshake_version, trust_domain_mismatch, handshake_nonce_mismatch,
  invalid_handshake_payload,
}
use laic.Error.Transport
use laic.Error.Transport.{
  TransportError, connection_failed, connection_lost, not_connected, send_failed, receive_failed,
  timeout, backpressure_full, shutting_down, framing_error,
}
use laic.Error.Codec
use laic.Error.Codec.{CodecError, arrow_encode, arrow_decode, proto_encode, proto_decode}
use laic.Error.Flow
use laic.Error.Flow.{FlowError, credit_exhausted}

-- The high byte of the codes of each layer, as documented at `ErrorCode`.
abbrev pub layer : LaicError → ℕ
layer (transport _) = 0x01
layer (codec _) = 0x02
layer (protocol _) = 0x03
layer (flow _) = 0x04

abbrev protocol_variant : ProtocolError → ProtocolError
protocol_variant (invalid_magic _) = invalid_magic 0
protocol_variant (buffer_too_short _ _) = buffer_too_short 0 0
protocol_variant (unsupported_version _) = unsupported_version 0
protocol_variant (invalid_payload_format _) = invalid_payload_format 0
protocol_variant (invalid_qos _) = invalid_qos 0
protocol_variant (payload_length_mismatch _ _) = payload_length_mismatch 0 0
protocol_variant (unexpected_message_type _ _) = unexpected_message_type 0 0
protocol_variant (unexpected_payload_format _ _) = unexpected_payload_format 0 0
protocol_variant (unsupported_handshake_version _ _) = unsupported_handshake_version 0 0
protocol_variant (trust_domain_mismatch _ _) = trust_domain_mismatch "" ""
protocol_variant handshake_nonce_mismatch = handshake_nonce_mismatch
protocol_variant (invalid_handshake_payload _) = invalid_handshake_payload []

abbrev transport_variant : TransportError → TransportError
transport_variant (connection_failed _) = connection_failed []
transport_variant (connection_lost _) = connection_lost []
transport_variant not_connected = not_connected
transport_variant (send_failed _) = send_failed []
transport_variant (receive_failed _) = receive_failed []
transport_variant (timeout _) = timeout []
transport_variant backpressure_full = backpressure_full
transport_variant shutting_down = shutting_down
transport_variant (framing_error _) = framing_error []

abbrev codec_variant : CodecError → CodecError
codec_variant (arrow_encode _) = arrow_encode []
codec_variant (arrow_decode _) = arrow_decode []
codec_variant (proto_encode _) = proto_encode []
codec_variant (proto_decode _) = proto_decode []

-- An error without its details: the variant alone.
abbrev pub variant : LaicError → LaicError
variant (protocol e) = protocol (protocol_variant e)
variant (codec e) = codec (codec_variant e)
variant (transport e) = transport (transport_variant e)
variant (flow e) = flow e

-- What the documentation calls transient: every transport failure but the permanent states and
-- corrupt data, and the lack of credit. Codec and protocol errors never are.
pub data IsTransient : LaicError → Type 0 where
  no_connection : {d : _} → IsTransient (transport (connection_failed d))
  lost_connection : {d : _} → IsTransient (transport (connection_lost d))
  not_sent : {d : _} → IsTransient (transport (send_failed d))
  not_received : {d : _} → IsTransient (transport (receive_failed d))
  too_late : {d : _} → IsTransient (transport (timeout d))
  too_much : IsTransient (transport backpressure_full)
  no_credit : IsTransient (flow credit_exhausted)

-- Every variant.
abbrev variants : List LaicError
variants =
    transport (connection_failed [])
    ∷ transport (connection_lost [])
    ∷ transport not_connected
    ∷ transport (send_failed [])
    ∷ transport (receive_failed [])
    ∷ transport (timeout [])
    ∷ transport backpressure_full
    ∷ transport shutting_down
    ∷ transport (framing_error [])
    ∷ codec (arrow_encode [])
    ∷ codec (arrow_decode [])
    ∷ codec (proto_encode [])
    ∷ codec (proto_decode [])
    ∷ protocol (invalid_magic 0)
    ∷ protocol (buffer_too_short 0 0)
    ∷ protocol (unsupported_version 0)
    ∷ protocol (invalid_payload_format 0)
    ∷ protocol (invalid_qos 0)
    ∷ protocol (payload_length_mismatch 0 0)
    ∷ protocol (unexpected_message_type 0 0)
    ∷ protocol (unexpected_payload_format 0 0)
    ∷ protocol (unsupported_handshake_version 0 0)
    ∷ protocol (trust_domain_mismatch "" "")
    ∷ protocol handshake_nonce_mismatch
    ∷ protocol (invalid_handshake_payload [])
    ∷ flow credit_exhausted
    ∷ []

-- The first variant of a list that has a code.
abbrev with_code : ℕ → List LaicError → LaicError
with_code c [] = flow credit_exhausted
with_code c (e ∷ es) = if code e == c then e else with_code c es

with_code_protocol :
    (e : ProtocolError) → with_code (Protocol.code e) variants ≡ protocol (protocol_variant e)
unfolding code Protocol.code Codec.code Transport.code
with_code_protocol (invalid_magic _) = refl
with_code_protocol _ = refl

with_code_transport :
    (e : TransportError) → with_code (Transport.code e) variants ≡ transport (transport_variant e)
unfolding code Transport.code
with_code_transport (connection_failed _) = refl
with_code_transport _ = refl

with_code_codec : (e : CodecError) → with_code (Codec.code e) variants ≡ codec (codec_variant e)
unfolding code Codec.code Transport.code
with_code_codec (arrow_encode _) = refl
with_code_codec _ = refl

-- A code leads back to its variant.
with_code-code : (e : LaicError) → with_code (code e) variants ≡ variant e
unfolding code Protocol.code Codec.code Transport.code Flow.code
with_code-code (protocol e) = with_code_protocol e
with_code-code (codec e) = with_code_codec e
with_code-code (transport e) = with_code_transport e
with_code-code (flow credit_exhausted) = refl

protocol_keeps : (e : ProtocolError) → Protocol.code e ≡ Protocol.code (protocol_variant e)
unfolding Protocol.code
protocol_keeps (invalid_magic _) = refl
protocol_keeps _ = refl

-- The details do not change the code.
code-variant : (e : LaicError) → code e ≡ code (variant e)
unfolding code Codec.code Transport.code
code-variant (protocol e) = protocol_keeps e
code-variant (codec e) = ground arith
code-variant (transport e) = ground arith
code-variant (flow e) = refl

protocol_layer : (e : ProtocolError) → Protocol.code e / 256 ≡ 0x03
unfolding Protocol.code
protocol_layer (invalid_magic _) = refl
protocol_layer _ = refl

code_layer : (e : LaicError) → code e / 256 ≡ layer e
unfolding code Codec.code Transport.code Flow.code
code_layer (protocol e) = protocol_layer e
code_layer (codec e) = ground arith
code_layer (transport e) = ground arith
code_layer (flow e) = ground arith

retryable-IsTransient : (e : LaicError) → is_retryable e ≡ true → IsTransient e
unfolding is_retryable Protocol.is_retryable Codec.is_retryable Transport.is_retryable
retryable-IsTransient (protocol e) h = ground arith
retryable-IsTransient (codec e) h = ground arith
retryable-IsTransient (transport (connection_failed _)) h = no_connection
retryable-IsTransient (transport (connection_lost _)) h = lost_connection
retryable-IsTransient (transport (send_failed _)) h = not_sent
retryable-IsTransient (transport (receive_failed _)) h = not_received
retryable-IsTransient (transport (timeout _)) h = too_late
retryable-IsTransient (transport backpressure_full) h = too_much
retryable-IsTransient (transport not_connected) h = ground arith
retryable-IsTransient (transport shutting_down) h = ground arith
retryable-IsTransient (transport (framing_error _)) h = ground arith
retryable-IsTransient (flow credit_exhausted) h = no_credit

transient_retryable : (e : LaicError) → IsTransient e → is_retryable e ≡ true
unfolding is_retryable Transport.is_retryable Flow.is_retryable
transient_retryable _ no_connection = refl
transient_retryable _ lost_connection = refl
transient_retryable _ not_sent = refl
transient_retryable _ not_received = refl
transient_retryable _ too_late = refl
transient_retryable _ too_much = refl
transient_retryable _ no_credit = refl

-- Two errors have one code just when they are of one variant, whatever their details; the high byte
-- of a code names the error's layer; and an error may be retried just when it is one of the
-- transient ones: a failed or lost connection, a failed send or receive, a timeout, a full queue,
-- or the lack of credit.
pub code_lem :
    (e e' : LaicError)
    → ((code e ≡ code e') ↔ (variant e ≡ variant e'))
      × (code e / 256 ≡ layer e)
      × ((is_retryable e ≡ true) ↔ IsTransient e)
code_lem e e' = (
  (
    λ h. sym (with_code-code e) ∙ ap (λ c. with_code c variants) h ∙ with_code-code e',
    λ h. code-variant e ∙ ap code h ∙ sym (code-variant e'),
  ),
  code_layer e,
  (retryable-IsTransient e, transient_retryable e),
)
