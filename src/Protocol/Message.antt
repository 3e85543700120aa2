-- ===== src/Protocol/Message.antt =====
-- crates/laic/src/protocol/message.rs: a header with its payload. `new` panics on a payload of
-- 4 GiB or more; a method of `&mut self` returns the new message.
pub mod Valid
pub mod Flags
use laic.Prelude.{ℕ, ◌+◌, ◌-◌, ◌%◌, ◌^◌, ◌≡◌, Bool, not, List, length, bit_and, bit_or}
use laic.Prelude.{Result, ok, err, ◌>>=◌, ◌>>◌, map_err, err_if, assert, ltb, ◌==◌, if◌then◌else◌}
use laic.Protocol.Constants
use laic.Protocol.Constants.{MsgType}
use laic.Protocol.PayloadFormat
use laic.Protocol.PayloadFormat.{PayloadFormat}
use laic.Protocol.Qos
use laic.Protocol.Qos.{Qos}
use laic.Protocol.Header.{MessageHeader}
use laic.Error.{LaicError, protocol}
use laic.Error.Protocol.{invalid_magic, unsupported_version, payload_length_mismatch}

pub record Message : Type 0 where
  pub header : MessageHeader
  pub payload : List ℕ

-- `!x` on a `u32`
abbrev pub not_u32 : ℕ → ℕ
not_u32 x = 2 ^ 32 - 1 - x

unfoldable pub new : MsgType → ℕ → PayloadFormat → Qos → List ℕ → Result Message LaicError
new msg_type msg_id payload_format qos payload = do
  assert (ltb (length payload) (2 ^ 32))
  let payload_len = length payload % 2 ^ 32
  ok (record {
    header = record {
      magic = Constants.magic;
      version = Constants.version;
      msg_type = msg_type;
      msg_id = msg_id;
      correlation_id = 0;
      payload_len = payload_len;
      payload_format = PayloadFormat.as_u8 payload_format;
      qos = Qos.as_u8 qos;
      credit_grant = 0;
      flags = 0;
      reserved = (0, 0, 0, 0);
    };
    payload = payload;
  })

unfoldable pub from_parts : MessageHeader → List ℕ → Result Message LaicError
from_parts header payload = do
  err_if (not (header.magic == Constants.magic)) (protocol (invalid_magic header.magic))
  err_if (not (header.version == Constants.version)) (protocol (unsupported_version header.version))
  map_err protocol (PayloadFormat.from_u8 header.payload_format)
  map_err protocol (Qos.from_u8 header.qos)
  err_if (not (header.payload_len == length payload))
      (protocol (payload_length_mismatch header.payload_len (length payload)))
  ok (record { header = header; payload = payload })

unfoldable pub set_credit_grant : ℕ → Message → Message
set_credit_grant credits m =
    let flags =
      if ltb 0 credits
      then bit_or m.header.flags Constants.flag_has_credit_grant
      else bit_and m.header.flags (not_u32 Constants.flag_has_credit_grant) in
    record m { header = record (m.header) { credit_grant = credits; flags = flags } }

abbrev pub msg_type : Message → MsgType
msg_type m = m.header.msg_type

abbrev pub set_correlation_id : ℕ → Message → Message
set_correlation_id id m = record m { header = record (m.header) { correlation_id = id } }

unfoldable pub set_end_of_stream : Message → Message
set_end_of_stream m = record m {
  header = record (m.header) { flags = bit_or m.header.flags Constants.flag_end_of_stream };
}

unfoldable pub clear_end_of_stream : Message → Message
clear_end_of_stream m = record m {
  header = record (m.header) {
    flags = bit_and m.header.flags (not_u32 Constants.flag_end_of_stream);
  };
}

unfoldable pub is_end_of_stream : Message → Bool
is_end_of_stream m = not (bit_and m.header.flags Constants.flag_end_of_stream == 0)

abbrev pub into_parts : Message → MessageHeader × List ℕ
into_parts m = (m.header, m.payload)

abbrev pub wire_size : Message → ℕ
wire_size m = Constants.header_size + length m.payload
