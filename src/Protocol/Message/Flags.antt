-- ===== src/Protocol/Message/Flags.antt =====
-- The setters of message.rs: which bits and fields each changes, and that messages stay valid.
use laic.Prelude.{
  ℕ, zero, suc, ◌+◌, ◌-◌, ◌*◌, ◌/◌, ◌%◌, ◌^◌, ◌≡◌, ◌<◌, refl, Bool, true, false, not, arith,
  bit_and, bit_or,
}
use laic.Prelude.{ltb, lt→ltb, ◌==◌, if◌then◌else◌}
use laic.Prelude.Bits.{
  bit_and_eight, bit_or_eight, bit_and_clear_eight, bit_and_sixteen, bit_or_sixteen,
  bit_and_clear_sixteen,
}
use laic.Protocol.Constants
use laic.Protocol.Header.Layout.{check}
use laic.Protocol.Message.{
  Message, not_u32, set_credit_grant, set_correlation_id, set_end_of_stream, clear_end_of_stream,
  is_end_of_stream,
}
use laic.Protocol.Message.Valid.{IsValid}

-- Whether the flag for a credit grant is set.
abbrev pub has_credit_grant : Message → Bool
has_credit_grant m = not (bit_and m.header.flags Constants.flag_has_credit_grant == 0)

-- The header with another word of flags.
abbrev pub with_flags : Message → ℕ → Message
with_flags m w = record m { header = record (m.header) { flags = w } }

-- Words with bit 3 or bit 4 set or cleared, as numbers.
abbrev set_eight : ℕ → ℕ
set_eight x = x + 8 * (1 - x / 8 % 2)

abbrev clear_eight : ℕ → ℕ
clear_eight x = x - 8 * (x / 8 % 2)

abbrev set_sixteen : ℕ → ℕ
set_sixteen x = x + 16 * (1 - x / 16 % 2)

abbrev clear_sixteen : ℕ → ℕ
clear_sixteen x = x - 16 * (x / 16 % 2)

-- `set_end_of_stream` sets the end-of-stream bit, keeps the credit flag, and changes no field but
-- the flags.
pub set_end_of_stream_lem :
    (m : Message)
    → (is_end_of_stream (set_end_of_stream m) ≡ true)
      × (has_credit_grant (set_end_of_stream m) ≡ has_credit_grant m)
      × (set_end_of_stream m ≡ with_flags m (set_eight m.header.flags))
unfolding set_end_of_stream is_end_of_stream
set_end_of_stream_lem m =
    let x : ℕ = m.header.flags in
    rw
      (
        bit_or_eight x,
        bit_and_eight (set_eight x),
        bit_and_sixteen x,
        bit_and_sixteen (set_eight x),
      )
      (ground arith, ground arith, refl)

-- `clear_end_of_stream` clears the end-of-stream bit, keeps the credit flag, and changes no field
-- but the flags.
pub clear_end_of_stream_lem :
    (m : Message)
    → m.header.flags < 2 ^ 32
    → (is_end_of_stream (clear_end_of_stream m) ≡ false)
      × (has_credit_grant (clear_end_of_stream m) ≡ has_credit_grant m)
      × (clear_end_of_stream m ≡ with_flags m (clear_eight m.header.flags))
unfolding clear_end_of_stream is_end_of_stream
clear_end_of_stream_lem m h =
    let x : ℕ = m.header.flags in
    rw
      (
        bit_and_clear_eight x h,
        bit_and_eight (clear_eight x),
        bit_and_sixteen x,
        bit_and_sixteen (clear_eight x),
      )
      (ground arith, ground arith, refl)

-- For a message whose flags fit a `u32`, after `set_credit_grant` the field holds the credits, the
-- credit flag tells whether there are any, and the end-of-stream flag is as it was.
pub set_credit_grant_lem :
    (credits : ℕ) (m : Message)
    → m.header.flags < 2 ^ 32
    → ((set_credit_grant credits m).header.credit_grant ≡ credits)
      × (has_credit_grant (set_credit_grant credits m) ≡ ltb 0 credits)
      × (is_end_of_stream (set_credit_grant credits m) ≡ is_end_of_stream m)
unfolding set_credit_grant is_end_of_stream
set_credit_grant_lem zero m h =
    let x : ℕ = m.header.flags in
    rw
      (
        bit_and_clear_sixteen x h,
        bit_and_eight (clear_sixteen x),
        bit_and_eight x,
        bit_and_sixteen (clear_sixteen x),
      )
      (refl, ground arith, ground arith)
set_credit_grant_lem (suc c) m h =
    let x : ℕ = m.header.flags in
    rw
      (
        lt→ltb 0 (suc c) (omega arith),
        bit_or_sixteen x,
        bit_and_eight (set_sixteen x),
        bit_and_eight x,
        bit_and_sixteen (set_sixteen x),
      )
      (refl, ground arith, ground arith)

-- A message whose flags fit a `u32` and that is not marked as the end of a stream is the same
-- message after the mark is set and cleared again.
pub clear-set_end_of_stream :
    (m : Message)
    → m.header.flags < 2 ^ 32
    → is_end_of_stream m ≡ false
    → clear_end_of_stream (set_end_of_stream m) ≡ m
unfolding clear_end_of_stream set_end_of_stream is_end_of_stream
clear-set_end_of_stream m h unmarked =
    let x : ℕ = m.header.flags in
    let plain : x / 8 % 2 ≡ 0 = ground (arith, bit_and_eight x) in
    let back : clear_eight (set_eight x) ≡ x = omega arith in
    rw (bit_or_eight x, bit_and_clear_eight (set_eight x) (omega arith), back)

granted_flags-lt :
    (c x : ℕ)
    → x < 2 ^ 32
    → (if ltb 0 c
        then bit_or x Constants.flag_has_credit_grant
        else bit_and x (not_u32 Constants.flag_has_credit_grant))
      < 2 ^ 32
granted_flags-lt c x h = ground (arith, bit_or_sixteen x, bit_and_clear_sixteen x h)

-- Every setter keeps a message valid.
module _ (m : Message) (v : IsValid m) where
  with_flags-IsValid : (w : ℕ) → w < 2 ^ 32 → IsValid (with_flags m w)
  unfolding check
  with_flags-IsValid w h = record {
    in_range = omega (arith, v.in_range);
    checked = v.checked;
    payload_len = v.payload_len;
    bytes = v.bytes;
  }

  pub set_end_of_stream-IsValid : IsValid (set_end_of_stream m)
  set_end_of_stream-IsValid =
      rw ((set_end_of_stream_lem m).2)
        (with_flags-IsValid (set_eight m.header.flags) (omega (arith, v.in_range.flags)))

  pub clear_end_of_stream-IsValid : IsValid (clear_end_of_stream m)
  clear_end_of_stream-IsValid =
      rw ((clear_end_of_stream_lem m v.in_range.flags).2)
        (with_flags-IsValid (clear_eight m.header.flags) (omega (arith, v.in_range.flags)))

  pub set_correlation_id-IsValid : (id : ℕ) → id < 2 ^ 64 → IsValid (set_correlation_id id m)
  unfolding check
  set_correlation_id-IsValid id h = record {
    in_range = omega (arith, v.in_range);
    checked = v.checked;
    payload_len = v.payload_len;
    bytes = v.bytes;
  }

  pub set_credit_grant-IsValid : (c : ℕ) → c < 2 ^ 16 → IsValid (set_credit_grant c m)
  unfolding check set_credit_grant
  set_credit_grant-IsValid c h = record {
    in_range = record {
      magic = v.in_range.magic;
      version = v.in_range.version;
      msg_type = v.in_range.msg_type;
      msg_id = v.in_range.msg_id;
      correlation_id = v.in_range.correlation_id;
      payload_len = v.in_range.payload_len;
      payload_format = v.in_range.payload_format;
      qos = v.in_range.qos;
      credit_grant = h;
      flags = granted_flags-lt c m.header.flags v.in_range.flags;
    };
    checked = v.checked;
    payload_len = v.payload_len;
    bytes = v.bytes;
  }
