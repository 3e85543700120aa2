-- ===== src/Protocol/Message/Valid.antt =====
-- The invariant of `Message`: a header that both ends accept, and the length of the payload.
use laic.Prelude.{
  ℕ, ◌%◌, ◌^◌, ◌≡◌, ◌<◌, ◌≤◌, refl, sym, ◌∙◌, ap, ◌↔◌, not, List, length, All, arith,
}
use laic.Prelude.{
  ok, panicked, done, ok-injective, bind-ok, ◌>>◌, map_err, err_if, lt→ltb, le→ltb, ◌==◌, ==_iff,
}
use laic.Prelude.Bytes.{IsByte}
use laic.Protocol.Constants
use laic.Protocol.Constants.{MsgType}
use laic.Protocol.PayloadFormat
use laic.Protocol.PayloadFormat.{PayloadFormat}
use laic.Protocol.Qos
use laic.Protocol.Qos.{Qos}
use laic.Protocol.Header.{MessageHeader, InRange}
use laic.Protocol.Header.Layout.{check, after_checks}
use laic.Protocol.Message.{Message, into_parts, new, from_parts}
use laic.Error.{LaicError, protocol}
use mathlib.Core.Path.{subst}
use laic.Error.Protocol.{invalid_magic, unsupported_version, payload_length_mismatch}

pub record IsValid (m : Message) : Type 0 where
  pub in_range : InRange m.header
  pub checked : check m.header ≡ done
  pub payload_len : m.header.payload_len ≡ length m.payload
  pub bytes : All IsByte m.payload

module _ (t : MsgType) (id : ℕ) (f : PayloadFormat) (q : Qos) (payload : List ℕ) where
  -- With a type, an id and a payload of bytes in the range of their types, the payload below 4
  -- GiB, `new` gives a message, and it is valid.
  pub new-IsValid :
      t < 2 ^ 16
      → id < 2 ^ 64
      → All IsByte payload
      → length payload < 2 ^ 32
      → (m : Message) × (new t id f q payload ≡ ok m) × IsValid m
  unfolding new
  new-IsValid ht hid bytes small = (
    record {
      header = record {
        magic = Constants.magic;
        version = Constants.version;
        msg_type = t;
        msg_id = id;
        correlation_id = 0;
        payload_len = length payload % 2 ^ 32;
        payload_format = PayloadFormat.as_u8 f;
        qos = Qos.as_u8 q;
        credit_grant = 0;
        flags = 0;
        reserved = (0, 0, 0, 0);
      };
      payload = payload;
    },
    rw (lt→ltb (length payload) (2 ^ 32) small),
    record {
      in_range = omega (arith, PayloadFormat.as_u8-lt f, Qos.as_u8-lt q);
      checked = unfold check in rw (PayloadFormat.from_u8-as_u8 f, Qos.from_u8-as_u8 q);
      payload_len = omega arith;
      bytes = bytes;
    },
  )

  pub new-panicked : 2 ^ 32 ≤ length payload → new t id f q payload ≡ panicked
  unfolding new
  new-panicked large = rw (le→ltb (length payload) (2 ^ 32) large)

-- `from_parts` makes the checks of the header, and then compares the lengths.
pub from_parts_lem :
    (h : MessageHeader) (p : List ℕ)
    → from_parts h p ≡ (
        check h
        >> (err_if
              (not (h.payload_len == length p))
              (protocol (payload_length_mismatch h.payload_len (length p)))
            >> ok (record { header = h; payload = p })))
unfolding from_parts check
from_parts_lem h p =
    after_checks (err_if (not (h.magic == Constants.magic)) (protocol (invalid_magic h.magic)))
      (err_if (not (h.version == Constants.version)) (protocol (unsupported_version h.version)))
      (map_err protocol (PayloadFormat.from_u8 h.payload_format))
      (map_err protocol (Qos.from_u8 h.qos))
      (err_if (not (h.payload_len == length p))
          (protocol (payload_length_mismatch h.payload_len (length p)))
        >> ok (record { header = h; payload = p }))

equal_lengths : (a b : ℕ) (e : LaicError) {u : Unit {0}} → err_if (not (a == b)) e ≡ ok u → a ≡ b
equal_lengths a b e h = ground arith

-- For a header whose fields fit their types and a payload of bytes, `from_parts` gives a message
-- exactly when that message is the two put together and is valid.
pub from_parts_iff :
    (h : MessageHeader) (p : List ℕ) (m : Message)
    → InRange h
    → All IsByte p
    → (from_parts h p ≡ ok m) ↔ ((m ≡ record { header = h; payload = p }) × IsValid m)
from_parts_iff h p m r bytes = (accepted, valid)
  where
    parts : Message
    parts = record { header = h; payload = p }

    mismatch : LaicError
    mismatch = protocol (payload_length_mismatch h.payload_len (length p))

    accepted : from_parts h p ≡ ok m → (m ≡ parts) × IsValid m
    accepted e =
        let (u, hc, e') =
          bind-ok (check h) (λ _. err_if (not (h.payload_len == length p)) mismatch >> ok parts)
            (sym (from_parts_lem h p) ∙ e) in
        let (v, hl, e'') =
          bind-ok (err_if (not (h.payload_len == length p)) mismatch) (λ _. ok parts) e' in
        subst (λ x. (x ≡ parts) × IsValid x) (ok-injective e'')
          (
            refl,
            record {
              in_range = r;
              checked = hc;
              payload_len = equal_lengths h.payload_len (length p) mismatch hl;
              bytes = bytes;
            },
          )

    valid : (m ≡ parts) × IsValid m → from_parts h p ≡ ok m
    valid (e, v) =
        let v' : IsValid parts = subst IsValid e v in
        rw (from_parts_lem h p, v'.checked, (==_iff h.payload_len (length p)).1 v'.payload_len)
          (ap ok (sym e))

-- Taking a valid message apart and putting it together again gives the message.
pub from_parts-into_parts :
    (m : Message) → IsValid m → from_parts (into_parts m).0 (into_parts m).1 ≡ ok m
from_parts-into_parts m v = (from_parts_iff m.header m.payload m v.in_range v.bytes).1 (refl, v)
