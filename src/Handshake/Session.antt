-- ===== src/Handshake/Session.antt =====
-- crates/laic/src/handshake.rs: tokens, the messages that either side makes, and the client's
-- judgement of an ack.
use laic.Prelude.{ℕ, ◌*◌, ◌^◌, not, List, [], none, bit_xor, Result, ok, ◌>>=◌, ◌>>◌, err_if}
use mathlib.Core.List.{reverse}
use laic.Prelude.Bytes.{to_le_bytes}
use laic.Error.{LaicError, protocol, code}
use laic.Error.Protocol.{handshake_nonce_mismatch}
use laic.Handshake.Wire.{
  TrustDomainHello, TrustDomainHelloAck, ClientHandshakeConfig, ServerHandshakeConfig,
  TrustDomainSession,
}
use laic.Handshake.Check.{
  bytes_eq, validate_trust_domain, validate_expected_domain, validate_protocol_version,
  decode_token, validate_ack_rejection, handshake_rejected_expected_domain,
}

-- The 16 bytes of `nanos ^ (counter << 64)`, highest first.
unfoldable pub token : ℕ → ℕ → List ℕ
token nanos counter = reverse (to_le_bytes 16 (bit_xor nanos (counter * 2 ^ 64)))

-- The ack of an accepted hello, and that of a refused one.
abbrev pub accepting_ack : ServerHandshakeConfig → List ℕ → List ℕ → List ℕ → TrustDomainHelloAck
accepting_ack config client_nonce server_nonce session_id = record {
  protocol_version = config.protocol_version;
  trust_domain = config.local_trust_domain;
  client_nonce = client_nonce;
  server_nonce = server_nonce;
  session_id = session_id;
  rejection_code = 0;
  rejected_expected_remote_trust_domain = none;
}

unfoldable pub refusing_ack : ServerHandshakeConfig → List ℕ → LaicError → TrustDomainHelloAck
refusing_ack config client_nonce e = record {
  protocol_version = config.protocol_version;
  trust_domain = config.local_trust_domain;
  client_nonce = client_nonce;
  server_nonce = [];
  session_id = [];
  rejection_code = code e;
  rejected_expected_remote_trust_domain = handshake_rejected_expected_domain e;
}

abbrev pub hello_of : ClientHandshakeConfig → List ℕ → TrustDomainHello
hello_of config client_nonce = record {
  protocol_version = config.protocol_version;
  trust_domain = config.local_trust_domain;
  client_nonce = client_nonce;
}

-- What the client makes of the ack.
unfoldable pub accept_ack :
    ClientHandshakeConfig → List ℕ → TrustDomainHelloAck → Result TrustDomainSession LaicError
accept_ack config client_nonce ack = do
  validate_protocol_version config.protocol_version ack.protocol_version
  validate_trust_domain "hello_ack trust_domain" ack.trust_domain
  validate_expected_domain config.expected_remote_trust_domain ack.trust_domain
  validate_ack_rejection config ack
  echoed_client_nonce ← decode_token "client_nonce" ack.client_nonce
  err_if (not (bytes_eq echoed_client_nonce client_nonce)) (protocol handshake_nonce_mismatch)
  server_nonce ← decode_token "server_nonce" ack.server_nonce
  session_id ← decode_token "session_id" ack.session_id
  ok (record {
    protocol_version = config.protocol_version;
    local_trust_domain = config.local_trust_domain;
    remote_trust_domain = ack.trust_domain;
    client_nonce = client_nonce;
    server_nonce = server_nonce;
    session_id = session_id;
  })
