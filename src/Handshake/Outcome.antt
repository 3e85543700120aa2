-- ===== src/Handshake/Outcome.antt =====
-- Client and server at the two ends of one connection.
use laic.Prelude.{
  ℕ, ◌+◌, ◌%◌, ◌^◌, ◌≡◌, ◌≢◌, ◌≤◌, ◌<◌, refl, ap, sym, ◌∙◌, Bool, false, String, str_eq, List, [],
  ◌∷◌, ◌++◌, append-nil, length, Result, ok, err, panicked, done, arith,
}
use laic.Prelude
use laic.Protocol.Message.{Message}
use laic.Transport.Framing.{max_payload_len}
use laic.Transport.Framing.Stream.{WriteLaws, ReadLaws}
use laic.Transport.Framing.RoundTrip.{frame_bytes}
use laic.Transport.Quic.{Quinn}
use laic.Codec.Proto.{ProstMessage}
use laic.Handshake.Wire.{
  TrustDomainHello, TrustDomainHelloAck, ClientHandshakeConfig, ServerHandshakeConfig,
  handshake_token_len,
}
use laic.Handshake.Check.{
  validate_peer_hello, validate_trust_domain, validate_protocol_version, validate_expected_domain,
}
use laic.Handshake.Session.{token, hello_of}
use laic.Handshake.Run.{Peer, client_finish, server_handshake}
use laic.Handshake.Agreement.{ack_for, verdict, accept_ack_lem}
use laic.Handshake.Stream.{
  ProstLaws, Carries, after_receive, after_receive_lem, client_finish_lem, server_handshake_lem,
}
use laic.Handshake.Exchange.{Writes, server_nonce, session_id, server_session, reply_lem}

length-token : (nanos counter : ℕ) → length (token nanos counter) ≡ handshake_token_len
unfolding token
length-token nanos counter = refl

no_panic :
    (config : ServerHandshakeConfig) (hello : TrustDomainHello)
    → validate_peer_hello config hello ≢ panicked
unfolding validate_peer_hello validate_trust_domain validate_protocol_version
    validate_expected_domain
no_panic config hello = ground arith

-- The server's run on a hello: its result, and the one frame that it sends.
module _ (q : Quinn) (writes : WriteLaws q.send_stream) (reads : ReadLaws q.recv_stream)
    (nanos : ℕ → ℕ) (hellos : ProstMessage TrustDomainHello)
    (acks : ProstMessage TrustDomainHelloAck) where
  -- What the client is told, with the tokens that the server draws now.
  abbrev pub answer : ServerHandshakeConfig → TrustDomainHello → Peer q → TrustDomainHelloAck
  answer sc hello s =
      ack_for sc hello.client_nonce (server_nonce q writes nanos hellos acks s)
        (session_id q writes nanos hellos acks s) (validate_peer_hello sc hello)

  pub server_run :
      ProstLaws hellos
      → ProstLaws acks
      → (sc : ServerHandshakeConfig) (hello : TrustDomainHello) (hp payload rest : List ℕ)
        (hm : Message) (s : Peer q)
      → hellos.encode hello ≡ ok hp
      → Carries hp hm
      → str_eq sc.local_trust_domain "" ≡ false
      → length hello.client_nonce ≡ handshake_token_len
      → s.conn.closed ≡ false
      → s.handshake_msg_id < 2 ^ 64
      → reads.queued s.conn.recv ≡ frame_bytes hm ++ rest
      → Writes q.send_stream
      → acks.encode (answer sc hello s) ≡ ok payload
      → length payload ≤ max_payload_len
      → (m : Message) × Carries payload m
        × ((server_handshake q nanos hellos acks sc s).0
            ≡ Prelude.◌>>◌
                (validate_peer_hello sc hello)
                (ok (server_session q writes nanos hellos acks sc hello hello.client_nonce s)))
        × (writes.sent (server_handshake q nanos hellos acks sc s).1.conn.send
            ≡ writes.sent s.conn.send ++ frame_bytes m)
  server_run hl al sc hello hp payload rest hm s he hc named nonce is_open id_fits holds able ae
        small =
      let run =
        server_handshake_lem q reads nanos hellos acks hl sc hello hp rest hm s he hc named nonce
          is_open holds in
      let (is_open', same) = after_receive_lem q reads s is_open in
      let (m, c, outcome, sent) =
        reply_lem q writes nanos hellos acks al sc hello hello.client_nonce
          (validate_peer_hello sc hello) payload (after_receive q reads s) able ae small id_fits
          is_open' (no_panic sc hello) in
      (
        m,
        c,
        ap (λ r. r.0) run ∙ outcome,
        ap (λ r. writes.sent (r.1).conn.send) run
            ∙ sent
            ∙ ap (λ t. writes.sent t ++ frame_bytes m) same,
      )

  -- A server on an open connection that has sent nothing and never fails to write, the client's
  -- hello on its stream, both domains named, `u16` versions, a nonce of 16 bytes, a prost codec
  -- that keeps its promises and an ack within the frame limit: the server ends with a session
  -- exactly when its checks of the hello pass, and otherwise with their error; and the client that
  -- then reads what the server sent ends with the verdict of the two configurations, on success
  -- with the server's tokens in its session.
  pub handshake_lem :
      (q' : Quinn) (reads' : ReadLaws q'.recv_stream) (nanos' : ℕ → ℕ)
      → ProstLaws hellos
      → ProstLaws acks
      → (cc : ClientHandshakeConfig) (sc : ServerHandshakeConfig) (n payload ack rest : List ℕ)
        (hm : Message) (s : Peer q) (c : Peer q')
      → str_eq cc.local_trust_domain "" ≡ false
      → str_eq sc.local_trust_domain "" ≡ false
      → cc.protocol_version < 2 ^ 16
      → sc.protocol_version < 2 ^ 16
      → length n ≡ handshake_token_len
      → hellos.encode (hello_of cc n) ≡ ok payload
      → Carries payload hm
      → s.conn.closed ≡ false
      → s.handshake_msg_id < 2 ^ 64
      → reads.queued s.conn.recv ≡ frame_bytes hm ++ rest
      → writes.sent s.conn.send ≡ []
      → Writes q.send_stream
      → acks.encode (answer sc (hello_of cc n) s) ≡ ok ack
      → length ack ≤ max_payload_len
      → c.conn.closed ≡ false
      → reads'.queued c.conn.recv
        ≡ writes.sent (server_handshake q nanos hellos acks sc s).1.conn.send
      → ((server_handshake q nanos hellos acks sc s).0
          ≡ Prelude.◌>>◌
              (validate_peer_hello sc (hello_of cc n))
              (ok (server_session q writes nanos hellos acks sc (hello_of cc n) n s)))
        × ((client_finish q' nanos' hellos acks cc n c).0
            ≡ Prelude.◌>>◌ (verdict cc sc) (
                ok (record {
                  protocol_version = cc.protocol_version;
                  local_trust_domain = cc.local_trust_domain;
                  remote_trust_domain = sc.local_trust_domain;
                  client_nonce = n;
                  server_nonce = server_nonce q writes nanos hellos acks s;
                  session_id = session_id q writes nanos hellos acks s;
                })))
  handshake_lem q' reads' nanos' hl al cc sc n payload ack rest hm s c cd sd cv sv ln he hc is_open
        id_fits holds fresh able ae small c_open delivered =
      let (m, carries, outcome, sent) =
        server_run hl al sc (hello_of cc n) payload ack rest hm s he hc sd ln is_open id_fits holds
          able ae small in
      let (got, _) =
        client_finish_lem q' reads' nanos' hellos acks al cc n (answer sc (hello_of cc n) s) ack []
          m c ae carries c_open
          (delivered
            ∙ sent
            ∙ ap (λ bs. bs ++ frame_bytes m) fresh
            ∙ sym (append-nil (frame_bytes m))) in
      (
        outcome,
        got
            ∙ accept_ack_lem cc sc n (server_nonce q writes nanos hellos acks s)
                (session_id q writes nanos hellos acks s) cd sd cv sv ln (length-token _ _)
                (length-token _ _),
      )
