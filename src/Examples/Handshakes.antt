-- ===== src/Examples/Handshakes.antt =====
-- A handshake that succeeds, and one that the server refuses.
use laic.Prelude.{ℕ, ◌≡◌, refl, String, Option, none, some, List, replicate, Result, ok, err, arith}
use laic.Prelude
use laic.Handshake.Wire.{
  ClientHandshakeConfig, ServerHandshakeConfig, TrustDomainSession, client_config, server_config,
}
use laic.Handshake.Check.{validate_peer_hello}
use laic.Handshake.Session.{hello_of, accept_ack}
use laic.Prelude.{◌≢◌, ◌↔◌, ◌<◌, ◌^◌, [], false}
use laic.Handshake.Wire.{TrustDomainHelloAck}
use laic.Handshake.Session.{accepting_ack}
use laic.Handshake.Foreign.{IsAcceptance, session_of, accept_ack_iff}
use laic.Handshake.Run.{Peer, next_handshake_token}
use laic.Handshake.Tokens.{after, next_handshake_token-fresh}
use laic.Transport.Framing.Stream.{buffer_write, buffer_read}
use laic.Transport.Quic.{Quinn}
use laic.Handshake.Agreement.{ack_for, verdict, accept_ack_lem}

abbrev client : ClientHandshakeConfig
client = client_config "edge" (some "core")

abbrev server : ServerHandshakeConfig
server = server_config "core" (some "edge")

abbrev nonce : List ℕ
nonce = replicate 16 1

abbrev session : TrustDomainSession
session = record {
  protocol_version = 1;
  local_trust_domain = "edge";
  remote_trust_domain = "core";
  client_nonce = nonce;
  server_nonce = replicate 16 2;
  session_id = replicate 16 3;
}

accept_ack_lem_example :
    accept_ack client nonce (
      ack_for server nonce
        (replicate 16 2)
        (replicate 16 3)
        (validate_peer_hello server (hello_of client nonce)))
    ≡ Prelude.◌>>◌ (verdict client server) (ok session)
accept_ack_lem_example =
    accept_ack_lem client server nonce (replicate 16 2) (replicate 16 3) refl refl (omega arith)
      (omega arith) (Prelude.length-replicate 16 1) (Prelude.length-replicate 16 2)
      (Prelude.length-replicate 16 3)

abbrev ack : TrustDomainHelloAck
ack = accepting_ack server nonce (replicate 16 2) (replicate 16 3)

accept_ack_iff_example :
    (accept_ack client nonce ack ≡ ok session)
    ↔ (IsAcceptance client nonce ack × (session ≡ session_of client nonce ack))
accept_ack_iff_example = accept_ack_iff client nonce ack session (omega arith)

abbrev quinn : Quinn
quinn = record {
  send_stream = buffer_write;
  recv_stream = buffer_read;
  Connection = Unit {0};
  finish = λ s. (ok tt, s);
  close = λ c. c;
}

abbrev peer : Peer quinn
peer = record {
  conn = record { send = []; recv = []; conn = tt; closed = false };
  handshake_counter = 1;
  handshake_msg_id = 10000;
}

-- A clock that stands still.
abbrev stopped : ℕ → ℕ
stopped counter = 1700000000

next_handshake_token-fresh_example :
    (next_handshake_token quinn stopped (after quinn stopped 0 peer)).0
    ≢ (next_handshake_token quinn stopped (after quinn stopped 5 peer)).0
next_handshake_token-fresh_example =
    next_handshake_token-fresh quinn stopped 0 5 peer (λ c. omega arith) (omega arith) (omega arith)
      (omega arith)
