-- ===== src/Protocol/Header.antt =====
-- crates/laic/src/protocol/header.rs: the fixed 40-byte header and its little-endian encoding.
-- A buffer is a list of bytes. The fields are numbers below the widths that `InRange` states.
pub mod Layout
pub mod Writes
pub mod Decode
pub mod RoundTrip
use laic.Prelude.{ℕ, ◌+◌, ◌^◌, ◌<◌, Bool, not, List, [], ◌∷◌, ◌++◌, length, slice, write_at, get_or}
use laic.Prelude.{Result, ok, err, ◌>>=◌, ◌>>◌, map_err, err_if, ltb, ◌==◌}
use laic.Prelude.Bytes.{IsByte, to_le_bytes, from_le_bytes}
use laic.Protocol.Constants
use laic.Protocol.PayloadFormat
use laic.Protocol.Qos
use laic.Error.{LaicError, protocol}
use laic.Error.Protocol.{buffer_too_short, invalid_magic, unsupported_version}

-- `[u8; 4]`
abbrev pub Reserved : Type 0
Reserved = ℕ × ℕ × ℕ × ℕ

abbrev pub reserved_bytes : Reserved → List ℕ
reserved_bytes (a, b, c, d) = a ∷ b ∷ c ∷ d ∷ []

pub record MessageHeader : Type 0 where
  pub magic : ℕ
  pub version : ℕ
  pub msg_type : ℕ
  pub msg_id : ℕ
  pub correlation_id : ℕ
  pub payload_len : ℕ
  pub payload_format : ℕ
  pub qos : ℕ
  pub credit_grant : ℕ
  pub flags : ℕ
  pub reserved : Reserved

-- Every field fits its Rust type.
pub record InRange (h : MessageHeader) : Type 0 where
  pub magic : h.magic < 2 ^ 32
  pub version : h.version < 2 ^ 16
  pub msg_type : h.msg_type < 2 ^ 16
  pub msg_id : h.msg_id < 2 ^ 64
  pub correlation_id : h.correlation_id < 2 ^ 64
  pub payload_len : h.payload_len < 2 ^ 32
  pub payload_format : h.payload_format < 2 ^ 8
  pub qos : h.qos < 2 ^ 8
  pub credit_grant : h.credit_grant < 2 ^ 16
  pub flags : h.flags < 2 ^ 32

-- The buffer after a successful call. The writes follow the last check, so that a failing call
-- leaves `buf` as it was.
unfoldable pub encode : MessageHeader → List ℕ → Result (List ℕ) LaicError
encode self buf = do
  err_if (ltb (length buf) Constants.header_size)
      (protocol (buffer_too_short (length buf) Constants.header_size))
  err_if (not (self.magic == Constants.magic)) (protocol (invalid_magic self.magic))
  err_if (not (self.version == Constants.version)) (protocol (unsupported_version self.version))
  map_err protocol (PayloadFormat.from_u8 self.payload_format)
  map_err protocol (Qos.from_u8 self.qos)
  let buf = write_at 0 (to_le_bytes 4 self.magic) buf
  let buf = write_at 4 (to_le_bytes 2 self.version) buf
  let buf = write_at 6 (to_le_bytes 2 self.msg_type) buf
  let buf = write_at 8 (to_le_bytes 8 self.msg_id) buf
  let buf = write_at 16 (to_le_bytes 8 self.correlation_id) buf
  let buf = write_at 24 (to_le_bytes 4 self.payload_len) buf
  let buf = write_at 28 (self.payload_format ∷ []) buf
  let buf = write_at 29 (self.qos ∷ []) buf
  let buf = write_at 30 (to_le_bytes 2 self.credit_grant) buf
  let buf = write_at 32 (to_le_bytes 4 self.flags) buf
  let buf = write_at 36 (reserved_bytes self.reserved) buf
  ok buf

-- `buf[i]`, for an index within `buf`
abbrev pub at : List ℕ → ℕ → ℕ
at buf i = get_or buf i 0

unfoldable pub decode : List ℕ → Result MessageHeader LaicError
decode buf = do
  err_if (ltb (length buf) Constants.header_size)
      (protocol (buffer_too_short (length buf) Constants.header_size))
  let magic = from_le_bytes (slice 0 4 buf)
  err_if (not (magic == Constants.magic)) (protocol (invalid_magic magic))
  let version = from_le_bytes (slice 4 2 buf)
  err_if (not (version == Constants.version)) (protocol (unsupported_version version))
  let payload_format = at buf 28
  map_err protocol (PayloadFormat.from_u8 payload_format)
  let qos = at buf 29
  map_err protocol (Qos.from_u8 qos)
  ok (record {
    magic = magic;
    version = version;
    msg_type = from_le_bytes (slice 6 2 buf);
    msg_id = from_le_bytes (slice 8 8 buf);
    correlation_id = from_le_bytes (slice 16 8 buf);
    payload_len = from_le_bytes (slice 24 4 buf);
    payload_format = payload_format;
    qos = qos;
    credit_grant = from_le_bytes (slice 30 2 buf);
    flags = from_le_bytes (slice 32 4 buf);
    reserved = (at buf 36, at buf 37, at buf 38, at buf 39);
  })
