-- ===== src/Pattern/Laws.antt =====
-- What the constructors and matchers of pattern.rs guarantee.
use laic.Prelude.{ℕ, ◌+◌, ◌^◌, ◌≤◌, ◌<◌, ◌≡◌, refl, Bool, true, false, List, length, All, arith}
use laic.Prelude.{ok, err}
use laic.Prelude.Bytes.{IsByte}
use laic.Protocol.Constants.{MsgType}
use laic.Protocol.PayloadFormat.{PayloadFormat}
use laic.Protocol.Qos.{Qos}
use laic.Protocol.Message
use laic.Protocol.Message.{
  Message, msg_type, set_correlation_id, set_end_of_stream, is_end_of_stream,
}
use laic.Protocol.Message.Valid.{IsValid, new-IsValid}
use laic.Protocol.Message.Flags.{
  set_end_of_stream_lem, set_end_of_stream-IsValid, set_correlation_id-IsValid,
}
use laic.Pattern.{is_skill_request, is_skill_response, is_stream_data, is_topic_publish}
use laic.Pattern.{skill_request_type, skill_response, stream_chunk}
use laic.Error.{protocol}
use laic.Error.Protocol.{unexpected_message_type}

abbrev number : Bool → ℕ
number true = 1
number false = 0

-- No message is of two patterns.
pub matchers_exclusive :
    (m : Message)
    → number (is_skill_request m)
        + number (is_skill_response m)
        + number (is_stream_data m)
        + number (is_topic_publish m)
      ≤ 1
unfolding is_skill_request is_skill_response is_stream_data is_topic_publish
matchers_exclusive m = ground arith

-- Of the message that `new` gives, the fields that the patterns look at.
new_fields :
    (t : MsgType) (id : ℕ) (f : PayloadFormat) (q : Qos) (p : List ℕ) (m : Message)
    → Message.new t id f q p ≡ ok m
    → (m.header.msg_type ≡ t) × (m.header.msg_id ≡ id) × (m.header.flags ≡ 0) × (m.payload ≡ p)
unfolding Message.new
new_fields t id f q p m e = ground arith

module _ (id : ℕ) (f : PayloadFormat) (q : Qos) (p : List ℕ) where
  -- When `skill_response` succeeds, the other message was a skill request, and the result is a
  -- skill response that names the request by `correlation_id` and has the given id and payload.
  pub skill_response_lem :
      (request m : Message)
      → skill_response request id f q p ≡ ok m
      → (is_skill_request request ≡ true)
        × (is_skill_response m ≡ true)
        × (m.header.correlation_id ≡ request.header.msg_id)
        × (m.header.msg_id ≡ id)
        × (m.payload ≡ p)
  unfolding skill_response is_skill_response is_skill_request Message.new
  skill_response_lem request m e = ground arith

  -- Any other message is refused, with the stable code for an unexpected type.
  pub skill_response_refused :
      (request : Message)
      → is_skill_request request ≡ false
      → skill_response request id f q p
        ≡ err (protocol (unexpected_message_type skill_request_type (msg_type request)))
  unfolding skill_response
  skill_response_refused request e = rw e

  module _ (hid : id < 2 ^ 64) (bytes : All IsByte p) (small : length p < 2 ^ 32) where
    -- With an id and a payload of their types, below 4 GiB, a valid skill request always gets a
    -- response, and the response is valid.
    pub skill_response-IsValid :
        (request : Message)
        → IsValid request
        → is_skill_request request ≡ true
        → (m : Message) × (skill_response request id f q p ≡ ok m) × IsValid m
    unfolding skill_response
    skill_response-IsValid request v e =
        let (m, made, valid) = new-IsValid 0x0011 id f q p (omega arith) hid bytes small in
        (
          set_correlation_id request.header.msg_id m,
          rw (e, made) refl,
          set_correlation_id-IsValid m valid request.header.msg_id v.in_range.msg_id,
        )

    -- With an id and a payload of their types, below 4 GiB, `stream_chunk` gives a valid message
    -- of stream data with that payload, marked as the end exactly when it is the last.
    pub stream_chunk_lem :
        (is_last : Bool)
        → (m : Message) × (stream_chunk id f q p is_last ≡ ok m)
          × IsValid m
          × (is_stream_data m ≡ true)
          × (is_end_of_stream m ≡ is_last)
          × (m.payload ≡ p)
    unfolding stream_chunk set_end_of_stream is_stream_data
    stream_chunk_lem true =
        let (m, made, valid) = new-IsValid 0x0020 id f q p (omega arith) hid bytes small in
        let (type, _, _, payload) = new_fields 0x0020 id f q p m made in
        let (marked, _, _) = set_end_of_stream_lem m in
        (
          set_end_of_stream m,
          rw made refl,
          set_end_of_stream-IsValid m valid,
          rw type refl,
          marked,
          payload,
        )
    stream_chunk_lem false =
        let (m, made, valid) = new-IsValid 0x0020 id f q p (omega arith) hid bytes small in
        let (type, _, flags, payload) = new_fields 0x0020 id f q p m made in
        (m, rw made refl, valid, rw type refl, unfold is_end_of_stream in rw flags refl, payload)
