-- ===== src/Examples/Sample.antt =====
-- A message with three bytes of payload, and its validity.
use laic.Prelude.{ℕ, [], ◌∷◌, arith, refl}
use laic.Protocol.Constants
use laic.Protocol.Header.Layout.{check}
use laic.Protocol.PayloadFormat
use laic.Protocol.Qos
use laic.Protocol.Message.{Message}
use laic.Protocol.Message.Valid.{IsValid}

-- A message of a type, with an id, with flags, and with three bytes.
abbrev pub sample_of : ℕ → ℕ → ℕ → Message
sample_of msg_type msg_id flags = record {
  header = record {
    magic = Constants.magic;
    version = Constants.version;
    msg_type = msg_type;
    msg_id = msg_id;
    correlation_id = 0;
    payload_len = 3;
    payload_format = 1;
    qos = 0;
    credit_grant = 0;
    flags = flags;
    reserved = (0, 0, 0, 0);
  };
  payload = 7 ∷ 8 ∷ 255 ∷ [];
}

abbrev pub sample : Message
sample = sample_of 1 5 0

abbrev pub request : Message
request = sample_of 16 6 8

pub sample-IsValid : IsValid sample
unfolding check PayloadFormat.from_u8 Qos.from_u8
sample-IsValid = record {
  in_range = omega arith;
  checked = refl;
  payload_len = refl;
  bytes = (omega arith, (omega arith, (omega arith, tt)));
}

pub request-IsValid : IsValid request
unfolding check PayloadFormat.from_u8 Qos.from_u8
request-IsValid = record {
  in_range = omega arith;
  checked = refl;
  payload_len = refl;
  bytes = (omega arith, (omega arith, (omega arith, tt)));
}
