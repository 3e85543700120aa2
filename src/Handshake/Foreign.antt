-- ===== src/Handshake/Foreign.antt =====
-- What a client can be made to accept, whoever wrote the ack.
use laic.Prelude.{
  ℕ, ◌^◌, ◌≡◌, ◌≢◌, ◌<◌, ◌↔◌, true, String, eq_iff, Option, none, some, List, [], ◌∷◌, length, ok,
  done, arith,
}
use laic.Handshake.Wire.{
  TrustDomainHelloAck, ClientHandshakeConfig, TrustDomainSession, handshake_token_len,
}
use laic.Handshake.Check.{
  bytes_eq, validate_trust_domain, validate_expected_domain, validate_protocol_version,
  validate_ack_rejection, validate_ack_shape, rejected_version, rejected_domain, decode_token,
}
use laic.Handshake.Session.{accept_ack}

-- An expectation of a domain, met by a domain.
abbrev pub Meets : Option String → String → Type 0
Meets none d = Unit
Meets (some e) d = e ≡ d

-- The ack of a server that accepts, on the client's own terms.
pub record IsAcceptance (cc : ClientHandshakeConfig) (n : List ℕ) (ack : TrustDomainHelloAck)
    : Type 0 where
  pub version : ack.protocol_version ≡ cc.protocol_version
  pub named : ack.trust_domain ≢ ""
  pub expected : Meets cc.expected_remote_trust_domain ack.trust_domain
  pub accepted : ack.rejection_code ≡ 0
  pub unexplained : ack.rejected_expected_remote_trust_domain ≡ none
  pub echoed : ack.client_nonce ≡ n
  pub nonce_length : length n ≡ handshake_token_len
  pub server_nonce : length ack.server_nonce ≡ handshake_token_len
  pub session_id : length ack.session_id ≡ handshake_token_len

pub bytes_eq_iff : (xs ys : List ℕ) → (bytes_eq xs ys ≡ true) ↔ (xs ≡ ys)
unfolding bytes_eq
bytes_eq_iff [] [] = ground arith
bytes_eq_iff [] (y ∷ ys) = ground arith
bytes_eq_iff (x ∷ xs) [] = ground arith
bytes_eq_iff (x ∷ xs) (y ∷ ys) = ground (arith, bytes_eq_iff xs ys)

expected_iff : (e : Option String) (d : String) → (validate_expected_domain e d ≡ done) ↔ Meets e d
unfolding validate_expected_domain
expected_iff none d = ground arith
expected_iff (some e) d = ground (arith, eq_iff e d)

module _ (cc : ClientHandshakeConfig) (n : List ℕ) (ack : TrustDomainHelloAck) where
  abbrev pub session_of : TrustDomainSession
  session_of = record {
    protocol_version = cc.protocol_version;
    local_trust_domain = cc.local_trust_domain;
    remote_trust_domain = ack.trust_domain;
    client_nonce = n;
    server_nonce = ack.server_nonce;
    session_id = ack.session_id;
  }

  -- Whatever ack arrives, a client with a `u16` version accepts it exactly when it is an
  -- acceptance on the client's terms: its version, a named domain that it expects, no rejection code
  -- and no explanation, its own nonce of 16 bytes, and two tokens of 16 bytes. The session is then
  -- made of the client's configuration, its nonce, and the ack's domain and tokens.
  pub accept_ack_iff :
      (s : TrustDomainSession)
      → cc.protocol_version < 2 ^ 16
      → (accept_ack cc n ack ≡ ok s) ↔ (IsAcceptance cc n ack × (s ≡ session_of))
  unfolding accept_ack validate_trust_domain validate_protocol_version validate_ack_rejection
      validate_ack_shape rejected_version rejected_domain decode_token
  accept_ack_iff s fits = ground (
    arith,
    eq_iff ack.trust_domain "",
    bytes_eq_iff ack.client_nonce n,
    expected_iff cc.expected_remote_trust_domain ack.trust_domain,
  )
