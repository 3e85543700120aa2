-- ===== src/Handshake/Wire.antt =====
-- crates/laic/src/handshake.rs: the messages, the configurations and the outcome. A `u16` and a
-- `u32` are numbers; a `[u8; 16]` and a `Vec<u8>` are lists.
use laic.Prelude.{ℕ, String, Option, List}
use laic.Protocol.Constants

abbrev pub handshake_token_len : ℕ
handshake_token_len = 16

pub record TrustDomainHello : Type 0 where
  pub protocol_version : ℕ
  pub trust_domain : String
  pub client_nonce : List ℕ

pub record TrustDomainHelloAck : Type 0 where
  pub protocol_version : ℕ
  pub trust_domain : String
  pub client_nonce : List ℕ
  pub server_nonce : List ℕ
  pub session_id : List ℕ
  pub rejection_code : ℕ
  pub rejected_expected_remote_trust_domain : Option String

pub record ClientHandshakeConfig : Type 0 where
  pub local_trust_domain : String
  pub expected_remote_trust_domain : Option String
  pub protocol_version : ℕ

pub record ServerHandshakeConfig : Type 0 where
  pub local_trust_domain : String
  pub expected_remote_trust_domain : Option String
  pub protocol_version : ℕ

pub record TrustDomainSession : Type 0 where
  pub protocol_version : ℕ
  pub local_trust_domain : String
  pub remote_trust_domain : String
  pub client_nonce : List ℕ
  pub server_nonce : List ℕ
  pub session_id : List ℕ

-- `ClientHandshakeConfig::new` and `ServerHandshakeConfig::new`
abbrev pub client_config : String → Option String → ClientHandshakeConfig
client_config local_domain expected = record {
  local_trust_domain = local_domain;
  expected_remote_trust_domain = expected;
  protocol_version = Constants.version;
}

abbrev pub server_config : String → Option String → ServerHandshakeConfig
server_config local_domain expected = record {
  local_trust_domain = local_domain;
  expected_remote_trust_domain = expected;
  protocol_version = Constants.version;
}
