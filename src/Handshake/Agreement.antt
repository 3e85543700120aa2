-- ===== src/Handshake/Agreement.antt =====
-- The two sides of the handshake reach one outcome.
use laic.Prelude.{
  ℕ, ◌^◌, ◌≡◌, ◌<◌, refl, sym, ap, ◌∙◌, Bool, true, false, not, String, str_eq, Option, none, some,
  List, [], ◌∷◌, length, Result, ok, err, panicked, done, err_if, ltb, lt→ltb, ◌==◌, ==_iff,
  ==_refl, Bool-cases, inl, inr, if◌then◌else◌, arith,
}
use laic.Prelude
use laic.Error.{LaicError, protocol, code}
use laic.Error.Protocol.{unsupported_handshake_version, trust_domain_mismatch}
use laic.Error.Protocol as ProtocolCodes
use laic.Handshake.Wire.{
  TrustDomainHelloAck, ClientHandshakeConfig, ServerHandshakeConfig, handshake_token_len,
}
use laic.Handshake.Check.{
  bytes_eq, validate_trust_domain, validate_expected_domain, validate_protocol_version,
  validate_ack_rejection, validate_ack_shape, rejected_version, rejected_domain, decode_token,
  validate_peer_hello, handshake_rejected_expected_domain, rejected_expected,
}
use laic.Handshake.Session.{hello_of, accepting_ack, refusing_ack, accept_ack}

-- The ack that the server sends when its checks of a hello come out so.
abbrev pub ack_for :
    ServerHandshakeConfig
    → List ℕ
    → List ℕ
    → List ℕ
    → Result (Unit {0}) LaicError
    → TrustDomainHelloAck
ack_for sc n sn id (ok _) = accepting_ack sc n sn id
ack_for sc n sn id (err e) = refusing_ack sc n e
ack_for sc n sn id panicked = accepting_ack sc n sn id

-- The outcome for the client, from the two configurations alone: the versions are compared first,
-- then the client's expectation of the server's domain, then the server's of the client's.
abbrev pub verdict : ClientHandshakeConfig → ServerHandshakeConfig → Result (Unit {0}) LaicError
verdict cc sc =
    if sc.protocol_version == cc.protocol_version
    then Prelude.◌>>◌
        (validate_expected_domain cc.expected_remote_trust_domain sc.local_trust_domain)
        (validate_expected_domain sc.expected_remote_trust_domain cc.local_trust_domain)
    else err (protocol (unsupported_handshake_version cc.protocol_version sc.protocol_version))

pub bytes_eq_refl : (xs : List ℕ) → bytes_eq xs xs ≡ true
unfolding bytes_eq
bytes_eq_refl [] = refl
bytes_eq_refl (x ∷ xs) = rw (==_refl x) (bytes_eq_refl xs)

module _ (cc : ClientHandshakeConfig) (sc : ServerHandshakeConfig) (n sn id : List ℕ) where
  -- Where both domains are named, the versions are `u16`s and the tokens have 16 bytes, the client
  -- that reads the server's answer to its hello comes to the verdict of the two configurations: an
  -- error for different versions, else one for a server domain that it does not expect, else the
  -- server's own refusal of its domain, else a session with the server's domain, its own nonce and
  -- the server's tokens.
  pub accept_ack_lem :
      str_eq cc.local_trust_domain "" ≡ false
      → str_eq sc.local_trust_domain "" ≡ false
      → cc.protocol_version < 2 ^ 16
      → sc.protocol_version < 2 ^ 16
      → length n ≡ handshake_token_len
      → length sn ≡ handshake_token_len
      → length id ≡ handshake_token_len
      → accept_ack cc n (ack_for sc n sn id (validate_peer_hello sc (hello_of cc n)))
        ≡ Prelude.◌>>◌ (verdict cc sc) (
            ok (record {
              protocol_version = cc.protocol_version;
              local_trust_domain = cc.local_trust_domain;
              remote_trust_domain = sc.local_trust_domain;
              client_nonce = n;
              server_nonce = sn;
              session_id = id;
            }))
  unfolding accept_ack validate_peer_hello validate_trust_domain validate_protocol_version
      validate_expected_domain validate_ack_rejection validate_ack_shape rejected_version
      rejected_domain decode_token handshake_rejected_expected_domain rejected_expected refusing_ack
      code ProtocolCodes.code
  accept_ack_lem cd sd cv sv ln lsn lid = ground (arith, bytes_eq_refl n)
