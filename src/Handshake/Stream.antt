-- ===== src/Handshake/Stream.antt =====
-- A control message of the handshake, from the stream of one side to the checks of the other.
use laic.Prelude.{
  ℕ, ◌^◌, ◌≡◌, ◌≤◌, ◌<◌, refl, sym, ◌∙◌, false, List, ◌++◌, length, All, ok, arith, ok-injective,
  ◌%◌, str_eq, ==_iff,
}
use mathlib.Core.Path.{subst}
use laic.Prelude.Bytes.{IsByte}
use laic.Protocol.Constants
use laic.Protocol.PayloadFormat
use laic.Protocol.Qos
use laic.Protocol.Message
use laic.Protocol.Message.{Message}
use laic.Protocol.Message.Valid.{IsValid, new-IsValid}
use laic.Transport.Framing.{max_payload_len}
use laic.Transport.Framing.Stream.{ReadLaws}
use laic.Transport.Framing.RoundTrip.{WithinLimit, frame_bytes, read_frame_lem}
use laic.Transport.Quic
use laic.Transport.Quic.{Quinn, QuicConnection}
use laic.Codec.Proto.{ProstMessage, decode_proto}
use laic.Handshake.Wire.{
  TrustDomainHello, TrustDomainHelloAck, ClientHandshakeConfig, ServerHandshakeConfig,
  handshake_token_len,
}
use laic.Handshake.Check.{
  decode_control_message, decode_token, validate_trust_domain, validate_peer_hello,
}
use laic.Handshake.Session.{accept_ack}
use laic.Handshake.Run.{Peer, client_finish, server_handshake, reply}

-- An encoded value is bytes, and decodes to itself.
pub record ProstLaws {M : Type 0} (p : ProstMessage M) : Type 0 where
  pub encoded : (m : M) (bytes : List ℕ) → p.encode m ≡ ok bytes → All IsByte bytes
  pub decode-encode : (m : M) (bytes : List ℕ) → p.encode m ≡ ok bytes → p.decode bytes ≡ ok m

-- The message that `send_control_message` makes of a payload, and that fits a frame.
pub record Carries (payload : List ℕ) (m : Message) : Type 0 where
  pub id : ℕ
  pub id_fits : id < 2 ^ 64
  pub made : Message.new Constants.msg_control id PayloadFormat.protobuf Qos.high payload ≡ ok m
  pub small : length payload ≤ max_payload_len

pub control_fields :
    (id : ℕ) (p : List ℕ) (m : Message)
    → Message.new Constants.msg_control id PayloadFormat.protobuf Qos.high p ≡ ok m
    → (m.header.msg_type ≡ Constants.msg_control)
      × (m.header.payload_format ≡ PayloadFormat.as_u8 PayloadFormat.protobuf)
      × (m.header.payload_len ≡ length p % 2 ^ 32)
      × (m.payload ≡ p)
unfolding Message.new
control_fields id p m e = ground arith

module _ {M : Type 0} (p : ProstMessage M) (laws : ProstLaws p) where
  carried-WithinLimit :
      (v : M) (payload : List ℕ) (m : Message)
      → p.encode v ≡ ok payload
      → Carries payload m
      → WithinLimit m
  carried-WithinLimit v payload m e c =
      let (m', made, valid) =
        new-IsValid Constants.msg_control c.id PayloadFormat.protobuf Qos.high payload (omega arith)
          c.id_fits (laws.encoded v payload e) (omega (arith, c.small)) in
      let same : m' ≡ m = ok-injective (sym made ∙ c.made) in
      let (_, _, len, _) = control_fields c.id payload m c.made in
      (subst IsValid same valid, omega (arith, len, c.small))

  -- The other side gets the value back from the message.
  decode_control_message_lem :
      (v : M) (payload : List ℕ) (m : Message)
      → p.encode v ≡ ok payload
      → Carries payload m
      → decode_control_message p m ≡ ok v
  unfolding decode_control_message decode_proto PayloadFormat.as_u8
  decode_control_message_lem v payload m e c =
      let (type, format, _, same) = control_fields c.id payload m c.made in
      rw
        (
          type,
          format,
          PayloadFormat.from_u8-as_u8 PayloadFormat.protobuf,
          same,
          laws.decode-encode v payload e,
        )
        refl

module _ (q : Quinn) (reads : ReadLaws q.recv_stream) where
  quic_receive_lem :
      (m : Message) (rest : List ℕ) (c : QuicConnection q)
      → WithinLimit m
      → c.closed ≡ false
      → reads.queued c.recv ≡ frame_bytes m ++ rest
      → ((Quic.receive q c).0 ≡ ok m) × (reads.queued (Quic.receive q c).1.recv ≡ rest)
  unfolding Quic.receive
  quic_receive_lem m rest c (v, small) is_open holds =
      rw is_open (read_frame_lem q.recv_stream reads m rest c.recv v small holds)

  -- A client whose stream holds the frame of an ack comes to what `accept_ack` makes of that ack,
  -- and takes just that frame off the stream.
  pub client_finish_lem :
      (nanos : ℕ → ℕ) (hellos : ProstMessage TrustDomainHello)
      (acks : ProstMessage TrustDomainHelloAck)
      → ProstLaws acks
      → (config : ClientHandshakeConfig) (n : List ℕ) (ack : TrustDomainHelloAck)
        (payload rest : List ℕ) (m : Message) (p : Peer q)
      → acks.encode ack ≡ ok payload
      → Carries payload m
      → p.conn.closed ≡ false
      → reads.queued p.conn.recv ≡ frame_bytes m ++ rest
      → ((client_finish q nanos hellos acks config n p).0 ≡ accept_ack config n ack)
        × (reads.queued (client_finish q nanos hellos acks config n p).1.conn.recv ≡ rest)
  unfolding client_finish
  client_finish_lem nanos hellos acks laws config n ack payload rest m p e c is_open holds =
      let (got, left) =
        quic_receive_lem m rest p.conn (carried-WithinLimit acks laws ack payload m e c) is_open
          holds in
      rw (got, decode_control_message_lem acks laws ack payload m e c) (refl, left)

  -- A side after one receive.
  abbrev pub after_receive : Peer q → Peer q
  after_receive p = record p { conn = (Quic.receive q p.conn).1 }

  pub after_receive_lem :
      (p : Peer q)
      → p.conn.closed ≡ false
      → ((after_receive p).conn.closed ≡ false) × ((after_receive p).conn.send ≡ p.conn.send)
  unfolding Quic.receive
  after_receive_lem p is_open = (rw is_open refl, rw is_open refl)

  -- The server, its stream holding the frame of a hello with a nonce of 16 bytes and its own domain
  -- being named, takes that frame off and goes on to reply by its checks of the hello.
  pub server_handshake_lem :
      (nanos : ℕ → ℕ) (hellos : ProstMessage TrustDomainHello)
      (acks : ProstMessage TrustDomainHelloAck)
      → ProstLaws hellos
      → (config : ServerHandshakeConfig) (hello : TrustDomainHello) (payload rest : List ℕ)
        (m : Message) (p : Peer q)
      → hellos.encode hello ≡ ok payload
      → Carries payload m
      → str_eq config.local_trust_domain "" ≡ false
      → length hello.client_nonce ≡ handshake_token_len
      → p.conn.closed ≡ false
      → reads.queued p.conn.recv ≡ frame_bytes m ++ rest
      → server_handshake q nanos hellos acks config p
        ≡ reply q nanos hellos acks config hello hello.client_nonce
            (validate_peer_hello config hello)
            (after_receive p)
  unfolding server_handshake validate_trust_domain decode_token
  server_handshake_lem nanos hellos acks laws config hello payload rest m p e c named nonce is_open
        holds =
      let (got, left) =
        quic_receive_lem m rest p.conn (carried-WithinLimit hellos laws hello payload m e c) is_open
          holds in
      rw
        (
          named,
          got,
          decode_control_message_lem hellos laws hello payload m e c,
          (==_iff (length hello.client_nonce) handshake_token_len).1 nonce,
        )
        refl
