-- ===== src/Handshake/Exchange.antt =====
-- A whole handshake over a pair of streams.
use laic.Prelude.{
  ℕ, ◌+◌, ◌%◌, ◌^◌, ◌≡◌, ◌≢◌, ◌≤◌, ◌<◌, refl, ap, sym, ◌∙◌, Bool, false, String, str_eq, List, [],
  ◌∷◌, ◌++◌, length, All, Result, ok, err, panicked, done, arith, ok-injective, le→ltb,
  if◌then◌else◌,
}
use laic.Prelude
use laic.Prelude.Bytes.{IsByte}
use laic.Protocol.Constants
use laic.Protocol.PayloadFormat
use laic.Protocol.Qos
use laic.Protocol.Message.{Message}
use laic.Protocol.Message.Valid.{new-IsValid}
use laic.Transport.Framing.{max_payload_len, write_frame}
use laic.Transport.Framing.Stream.{AsyncWrite, WriteLaws}
use laic.Transport.Framing.RoundTrip.{WithinLimit, frame_bytes, encode-IsValid, write_frame_lem}
use laic.Protocol.Header.Layout.{layout}
use laic.Transport.Quic
use laic.Transport.Quic.{Quinn, QuicConnection}
use laic.Codec.Proto.{ProstMessage, encode_proto}
use laic.Error.{LaicError}
use laic.Handshake.Wire.{
  TrustDomainHello, TrustDomainHelloAck, ServerHandshakeConfig, TrustDomainSession,
}
use laic.Handshake.Session.{token}
use laic.Handshake.Run.{Peer, send_control_message, reply}
use laic.Handshake.Agreement.{ack_for}
use laic.Handshake.Stream.{ProstLaws, Carries, control_fields}

-- The writer never fails.
abbrev pub Writes : AsyncWrite → Type 0
Writes w = (bs : List ℕ) (s : w.Writer) → (w.write_all bs s).0 ≡ done

write_frame-done :
    (w : AsyncWrite) (m : Message) (s : w.Writer)
    → Writes w
    → WithinLimit m
    → (write_frame w m s).0 ≡ done
unfolding write_frame
write_frame-done w m s writes (v, small) =
    let first : (w.write_all (layout m.header) s).0 ≡ done = writes (layout m.header) s in
    let second : (w.write_all m.payload (w.write_all (layout m.header) s).1).0 ≡ done =
      writes m.payload (w.write_all (layout m.header) s).1 in
    rw (le→ltb max_payload_len m.header.payload_len small, encode-IsValid m v, first, second) refl

module _ (q : Quinn) (laws : WriteLaws q.send_stream) (nanos : ℕ → ℕ) where
  -- On an open connection whose writer never fails, `send_control_message` puts one frame of a
  -- message with the payload on the stream.
  send_control_message_lem :
      (payload : List ℕ) (p : Peer q)
      → Writes q.send_stream
      → All IsByte payload
      → length payload ≤ max_payload_len
      → p.handshake_msg_id < 2 ^ 64
      → p.conn.closed ≡ false
      → (m : Message) × Carries payload m
        × ((send_control_message q nanos payload p).0 ≡ done)
        × (laws.sent (send_control_message q nanos payload p).1.conn.send
            ≡ laws.sent p.conn.send ++ frame_bytes m)
  unfolding send_control_message Quic.send
  send_control_message_lem payload p writes bytes small id_fits is_open =
      let (m, made, valid) =
        new-IsValid Constants.msg_control p.handshake_msg_id PayloadFormat.protobuf Qos.high payload
          (omega arith) id_fits bytes (omega arith) in
      let (_, _, len, _) = control_fields p.handshake_msg_id payload m made in
      let within : m.header.payload_len ≤ max_payload_len = omega (arith, len, small) in
      let sent : (write_frame q.send_stream m p.conn.send).0 ≡ done =
        write_frame-done q.send_stream m p.conn.send writes (valid, within) in
      (
        m,
        record { id = p.handshake_msg_id; id_fits = id_fits; made = made; small = small },
        rw (made, is_open) sent,
        rw (made, is_open) (write_frame_lem q.send_stream laws m p.conn.send valid sent),
      )

  module _ (hellos : ProstMessage TrustDomainHello) (acks : ProstMessage TrustDomainHelloAck) where
    -- The server's two tokens for the next session, and the counter between them.
    abbrev pub server_nonce : Peer q → List ℕ
    server_nonce p = token (nanos p.handshake_counter) p.handshake_counter

    abbrev pub session_id : Peer q → List ℕ
    session_id p =
        token (nanos ((p.handshake_counter + 1) % 2 ^ 64)) ((p.handshake_counter + 1) % 2 ^ 64)

    abbrev pub server_session :
        ServerHandshakeConfig → TrustDomainHello → List ℕ → Peer q → TrustDomainSession
    server_session config hello n p = record {
      protocol_version = config.protocol_version;
      local_trust_domain = config.local_trust_domain;
      remote_trust_domain = hello.trust_domain;
      client_nonce = n;
      server_nonce = server_nonce p;
      session_id = session_id p;
    }

    -- Whatever the checks of a hello say, the server puts the frame of the matching ack on the
    -- stream; its own outcome is that of the checks.
    pub reply_lem :
        ProstLaws acks
        → (config : ServerHandshakeConfig) (hello : TrustDomainHello) (n : List ℕ)
          (checks : Result (Unit {0}) LaicError) (payload : List ℕ) (p : Peer q)
        → Writes q.send_stream
        → acks.encode (ack_for config n (server_nonce p) (session_id p) checks) ≡ ok payload
        → length payload ≤ max_payload_len
        → p.handshake_msg_id < 2 ^ 64
        → p.conn.closed ≡ false
        → checks ≢ panicked
        → (m : Message) × Carries payload m
          × ((reply q nanos hellos acks config hello n checks p).0
              ≡ Prelude.◌>>◌ checks (ok (server_session config hello n p)))
          × (laws.sent (reply q nanos hellos acks config hello n checks p).1.conn.send
              ≡ laws.sent p.conn.send ++ frame_bytes m)
    unfolding reply encode_proto
    reply_lem prost config hello n (ok _) payload p writes encoded small id_fits is_open no_panic =
        let p' : Peer q = record p {
          handshake_counter = ((p.handshake_counter + 1) % 2 ^ 64 + 1) % 2 ^ 64;
        } in
        let (m, c, did, sent) =
          send_control_message_lem payload p' writes (prost.encoded _ payload encoded) small id_fits
            is_open in
        (m, c, rw (encoded, did) refl, rw (encoded, did) sent)
    reply_lem prost config hello n (err e) payload p writes encoded small id_fits is_open no_panic =
        let (m, c, did, sent) =
          send_control_message_lem payload p writes (prost.encoded _ payload encoded) small id_fits
            is_open in
        (m, c, rw (encoded, did) refl, rw (encoded, did) sent)
    reply_lem prost config hello n panicked payload p writes encoded small id_fits is_open
          no_panic =
        absurd (no_panic refl)
