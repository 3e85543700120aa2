-- ===== src/Examples/Exchange.antt =====
-- A whole handshake, with a codec that knows one hello and one ack.
use laic.Prelude.{
  ℕ, ◌≡◌, ◌&&◌, refl, sym, ap, ◌∙◌, Bool, true, false, String, str_eq, eq_iff, Option, none, some,
  List, [], ◌∷◌, ◌++◌, append-nil, length, replicate, All, Result, ok, err, done, arith, ◌==◌,
  ok-injective, if◌then◌else◌,
}
use laic.Prelude
use mathlib.Core.Path.{subst}
use laic.Prelude.Bytes.{IsByte}
use laic.Protocol.Constants
use laic.Protocol.PayloadFormat
use laic.Protocol.Qos
use laic.Protocol.Message
use laic.Protocol.Message.{Message}
use laic.Transport.Framing.Stream.{buffer_write, buffer_write_laws, buffer_read, buffer_read_laws}
use laic.Transport.Framing.RoundTrip.{frame_bytes}
use laic.Transport.Quic.{Quinn}
use laic.Codec.Proto.{ProstMessage}
use laic.Handshake.Wire.{
  TrustDomainHello, TrustDomainHelloAck, ClientHandshakeConfig, ServerHandshakeConfig,
  client_config, server_config,
}
use laic.Handshake.Check.{
  bytes_eq, validate_peer_hello, validate_trust_domain, validate_protocol_version,
  validate_expected_domain,
}
use laic.Handshake.Session.{token, hello_of, accepting_ack}
use laic.Handshake.Run.{Peer, client_finish, server_handshake}
use laic.Handshake.Foreign.{bytes_eq_iff}
use laic.Handshake.Agreement.{verdict, bytes_eq_refl}
use laic.Handshake.Stream.{ProstLaws, Carries}
use laic.Handshake.Exchange.{server_session}
use laic.Handshake.Outcome.{answer, handshake_lem}

abbrev quinn : Quinn
quinn = record {
  send_stream = buffer_write;
  recv_stream = buffer_read;
  Connection = Unit {0};
  finish = λ s. (done, s);
  close = λ c. c;
}

abbrev peer : List ℕ → Peer quinn
peer queued = record {
  conn = record { send = []; recv = queued; conn = tt; closed = false };
  handshake_counter = 1;
  handshake_msg_id = 10000;
}

abbrev nonce : List ℕ
nonce = replicate 16 1

abbrev client : ClientHandshakeConfig
client = client_config "edge" (some "core")

abbrev server : ServerHandshakeConfig
server = server_config "core" (some "edge")

abbrev hello : TrustDomainHello
hello = hello_of client nonce

abbrev time : ℕ → ℕ
time counter = 1700000000

-- A codec that knows one value, which it writes as one byte.
module _ {M : Type 0} (value : M) (same : M → Bool) where
  abbrev one_value : ProstMessage M
  one_value = record {
    encode = λ m. if same m then ok (1 ∷ []) else err "unknown value";
    decode = λ bytes. ok value;
  }

  one_value_bytes :
      (b : Bool) (bytes : List ℕ)
      → ◌≡◌ {A = Result (List ℕ) String} (if b then ok (1 ∷ []) else err "unknown value") (ok bytes)
      → (b ≡ true) × (1 ∷ [] ≡ bytes)
  one_value_bytes true bytes e = (refl, ok-injective e)
  one_value_bytes false bytes e = cc

  one_value-ProstLaws : ((m : M) → same m ≡ true → m ≡ value) → ProstLaws one_value
  one_value-ProstLaws sound = record {
    encoded =
        λ m bytes e. subst (All IsByte) (one_value_bytes (same m) bytes e).1 (omega arith, tt);
    decode-encode = λ m bytes e. ap ok (sym (sound m (one_value_bytes (same m) bytes e).0));
  }

abbrev same_hello : TrustDomainHello → Bool
same_hello h =
    (h.protocol_version == 1) && str_eq h.trust_domain "edge" && bytes_eq h.client_nonce nonce

same_hello-≡ : (h : TrustDomainHello) → same_hello h ≡ true → h ≡ hello
same_hello-≡ h e =
    let same : (h.protocol_version ≡ 1) × (h.trust_domain ≡ "edge") × (h.client_nonce ≡ nonce) =
      ground (arith, eq_iff h.trust_domain "edge", bytes_eq_iff h.client_nonce nonce) in
    rw (same.0, same.1, same.2) refl

abbrev hellos : ProstMessage TrustDomainHello
hellos = one_value hello same_hello

abbrev ack : TrustDomainHelloAck
ack = accepting_ack server nonce (token (time 1) 1) (token (time 2) 2)

abbrev is_none : Option String → Bool
is_none none = true
is_none (some _) = false

is_none-≡ : (o : Option String) → is_none o ≡ true → o ≡ none
is_none-≡ none h = refl
is_none-≡ (some x) h = cc

abbrev same_ack : TrustDomainHelloAck → Bool
same_ack a =
    (a.protocol_version == 1)
    && str_eq a.trust_domain "core"
    && bytes_eq a.client_nonce nonce
    && bytes_eq a.server_nonce ack.server_nonce
    && bytes_eq a.session_id ack.session_id
    && (a.rejection_code == 0)
    && is_none a.rejected_expected_remote_trust_domain

same_ack-≡ : (a : TrustDomainHelloAck) → same_ack a ≡ true → a ≡ ack
same_ack-≡ a e =
    let same : (a.protocol_version ≡ 1)
        × (a.trust_domain ≡ "core")
        × (a.client_nonce ≡ nonce)
        × (a.server_nonce ≡ ack.server_nonce)
        × (a.session_id ≡ ack.session_id)
        × (a.rejection_code ≡ 0)
        × (a.rejected_expected_remote_trust_domain ≡ none) =
      ground (
        arith,
        eq_iff a.trust_domain "core",
        bytes_eq_iff a.client_nonce nonce,
        bytes_eq_iff a.server_nonce ack.server_nonce,
        bytes_eq_iff a.session_id ack.session_id,
        is_none-≡ a.rejected_expected_remote_trust_domain,
      ) in
    rw (same.0, same.1, same.2, same.3, same.4, same.5, same.6) refl

abbrev acks : ProstMessage TrustDomainHelloAck
acks = one_value ack same_ack

-- The frame of the hello: a control message with the id 10000 and the payload 1.
abbrev hello_message : Message
hello_message = record {
  header = record {
    magic = Constants.magic;
    version = Constants.version;
    msg_type = Constants.msg_control;
    msg_id = 10000;
    correlation_id = 0;
    payload_len = 1;
    payload_format = 1;
    qos = 1;
    credit_grant = 0;
    flags = 0;
    reserved = (0, 0, 0, 0);
  };
  payload = 1 ∷ [];
}

hello-Carries : Carries (1 ∷ []) hello_message
unfolding Message.new PayloadFormat.as_u8 Qos.as_u8
hello-Carries = record { id = 10000; id_fits = omega arith; made = refl; small = omega arith }

hello_encoded : hellos.encode hello ≡ ok (1 ∷ [])
hello_encoded = rw (bytes_eq_refl nonce) refl

abbrev server_peer : Peer quinn
server_peer = peer (frame_bytes hello_message)

answered :
    answer quinn buffer_write_laws buffer_read_laws time hellos acks server hello server_peer ≡ ack
unfolding validate_peer_hello validate_trust_domain validate_protocol_version
    validate_expected_domain
answered = refl

ack_encoded :
    acks.encode
      (answer quinn buffer_write_laws buffer_read_laws time hellos acks server hello server_peer)
    ≡ ok (1 ∷ [])
ack_encoded =
    ap acks.encode answered
    ∙ rw (bytes_eq_refl nonce, bytes_eq_refl (token (time 1) 1), bytes_eq_refl (token (time 2) 2))
        refl

abbrev answer_bytes : List ℕ
answer_bytes = (server_handshake quinn time hellos acks server server_peer).1.conn.send

handshake_lem_example :
    ((server_handshake quinn time hellos acks server server_peer).0
      ≡ Prelude.◌>>◌ (validate_peer_hello server hello) (
          ok (
            server_session quinn buffer_write_laws time hellos acks server hello nonce
              server_peer)))
    × ((client_finish quinn time hellos acks client nonce (peer answer_bytes)).0
        ≡ Prelude.◌>>◌ (verdict client server) (
            ok (record {
              protocol_version = 1;
              local_trust_domain = "edge";
              remote_trust_domain = "core";
              client_nonce = nonce;
              server_nonce = token (time 1) 1;
              session_id = token (time 2) 2;
            })))
handshake_lem_example =
    handshake_lem quinn buffer_write_laws buffer_read_laws time hellos acks quinn buffer_read_laws
      time (one_value-ProstLaws hello same_hello same_hello-≡)
      (one_value-ProstLaws ack same_ack same_ack-≡) client server nonce (1 ∷ []) (1 ∷ []) []
      hello_message server_peer (peer answer_bytes) refl refl (omega arith) (omega arith)
      (Prelude.length-replicate 16 1) hello_encoded hello-Carries refl (omega arith)
      (sym (append-nil (frame_bytes hello_message))) refl (λ bs s. refl) ack_encoded (omega arith)
      refl refl
