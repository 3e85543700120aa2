-- ===== src/Protocol/Constants.antt =====
-- crates/laic/src/protocol/constants.rs: magic, version, message types and flag bits.
use laic.Prelude.{ℕ, ◌*◌, ◌^◌}

abbrev pub magic : ℕ
magic = 0x4C41_4943

abbrev pub version : ℕ
version = 0x0001

abbrev pub header_size : ℕ
header_size = 40

-- `MsgType` is a newtype over `u16`: `new` and `as_u16` are the identity.
abbrev pub MsgType : Type 0
MsgType = ℕ

abbrev pub msg_data : MsgType
msg_data = 0x0001

abbrev pub msg_control : MsgType
msg_control = 0x0002

abbrev pub msg_ack : MsgType
msg_ack = 0x0003

abbrev pub msg_heartbeat : MsgType
msg_heartbeat = 0x0004

abbrev pub flag_compressed : ℕ
flag_compressed = 1 * 2 ^ 0

abbrev pub flag_fragmented : ℕ
flag_fragmented = 1 * 2 ^ 1

abbrev pub flag_ack_requested : ℕ
flag_ack_requested = 1 * 2 ^ 2

abbrev pub flag_end_of_stream : ℕ
flag_end_of_stream = 1 * 2 ^ 3

abbrev pub flag_has_credit_grant : ℕ
flag_has_credit_grant = 1 * 2 ^ 4
