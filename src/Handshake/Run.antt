-- ===== src/Handshake/Run.antt =====
-- crates/laic/src/handshake.rs: the two sides of the handshake. The static counters are part of
-- the state; the clock is read once for each token, and here it is a function of the token's
-- counter value.
use laic.Prelude.{ℕ, ◌+◌, ◌%◌, ◌^◌, List, Result, ok, err, panicked}
use laic.Prelude.Exec.{Exec, ◌>>=◌, ◌>>◌, lift}
use laic.Protocol.Constants
use laic.Protocol.PayloadFormat
use laic.Protocol.Qos
use laic.Protocol.Message
use laic.Protocol.Message.{Message}
use laic.Transport.Quic
use laic.Transport.Quic.{Quinn, QuicConnection}
use laic.Codec.Proto.{ProstMessage, encode_proto}
use laic.Error.{LaicError}
use laic.Handshake.Wire.{
  TrustDomainHello, TrustDomainHelloAck, ClientHandshakeConfig, ServerHandshakeConfig,
  TrustDomainSession,
}
use laic.Handshake.Check.{
  validate_trust_domain, decode_token, validate_peer_hello, decode_control_message,
}
use laic.Handshake.Session.{token, hello_of, accepting_ack, refusing_ack, accept_ack}

-- A connection, and the statics of the process that owns it.
pub record Peer (q : Quinn) : Type 0 where
  pub conn : QuicConnection q
  pub handshake_counter : ℕ
  pub handshake_msg_id : ℕ

module _ (q : Quinn) (nanos : ℕ → ℕ) where
  -- `fetch_add` on an `AtomicU64` wraps around.
  abbrev pub next_handshake_token : Exec (Peer q) LaicError (List ℕ)
  next_handshake_token p = (
    ok (token (nanos p.handshake_counter) p.handshake_counter),
    record p { handshake_counter = (p.handshake_counter + 1) % 2 ^ 64 },
  )

  abbrev pub next_msg_id : Exec (Peer q) LaicError ℕ
  next_msg_id p =
      (ok p.handshake_msg_id, record p { handshake_msg_id = (p.handshake_msg_id + 1) % 2 ^ 64 })

  abbrev pub conn_send : Message → Exec (Peer q) LaicError (Unit {0})
  conn_send m p = ((Quic.send q m p.conn).0, record p { conn = (Quic.send q m p.conn).1 })

  abbrev pub conn_receive : Exec (Peer q) LaicError Message
  conn_receive p = ((Quic.receive q p.conn).0, record p { conn = (Quic.receive q p.conn).1 })

  unfoldable pub send_control_message : List ℕ → Exec (Peer q) LaicError (Unit {0})
  send_control_message payload = do
    id ← next_msg_id
    message ← lift (Message.new Constants.msg_control id PayloadFormat.protobuf Qos.high payload)
    conn_send message

  module _ (hellos : ProstMessage TrustDomainHello) (acks : ProstMessage TrustDomainHelloAck) where
    -- `client_handshake` up to its receive: the nonce that it goes on with.
    unfoldable pub client_hello : ClientHandshakeConfig → Exec (Peer q) LaicError (List ℕ)
    client_hello config = do
      lift (validate_trust_domain "client hello trust_domain" config.local_trust_domain)
      client_nonce ← next_handshake_token
      payload ← lift (encode_proto hellos (hello_of config client_nonce))
      send_control_message payload
      lift (ok client_nonce)

    -- The rest of `client_handshake`.
    unfoldable pub client_finish :
        ClientHandshakeConfig → List ℕ → Exec (Peer q) LaicError TrustDomainSession
    client_finish config client_nonce = do
      ack_message ← conn_receive
      ack ← lift (decode_control_message acks ack_message)
      lift (accept_ack config client_nonce ack)

    unfoldable pub client_handshake :
        ClientHandshakeConfig → Exec (Peer q) LaicError TrustDomainSession
    client_handshake config = do
      client_nonce ← client_hello config
      client_finish config client_nonce

    -- The reply to a hello, by the outcome of its checks.
    unfoldable pub reply :
        ServerHandshakeConfig
        → TrustDomainHello
        → List ℕ
        → Result (Unit {0}) LaicError
        → Exec (Peer q) LaicError TrustDomainSession
    reply config hello client_nonce (ok _) = do
      server_nonce ← next_handshake_token
      session_id ← next_handshake_token
      payload ← lift (encode_proto acks (accepting_ack config client_nonce server_nonce session_id))
      send_control_message payload
      lift (
          ok (record {
            protocol_version = config.protocol_version;
            local_trust_domain = config.local_trust_domain;
            remote_trust_domain = hello.trust_domain;
            client_nonce = client_nonce;
            server_nonce = server_nonce;
            session_id = session_id;
          }))
    reply config hello client_nonce (err e) = do
      payload ← lift (encode_proto acks (refusing_ack config client_nonce e))
      send_control_message payload
      lift (err e)
    reply config hello client_nonce panicked = lift panicked

    unfoldable pub server_handshake :
        ServerHandshakeConfig → Exec (Peer q) LaicError TrustDomainSession
    server_handshake config = do
      lift (validate_trust_domain "server hello_ack trust_domain" config.local_trust_domain)
      hello_message ← conn_receive
      hello ← lift (decode_control_message hellos hello_message)
      client_nonce ← lift (decode_token "client_nonce" hello.client_nonce)
      reply config hello client_nonce (validate_peer_hello config hello)
