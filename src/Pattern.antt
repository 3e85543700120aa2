-- ===== src/Pattern.antt =====
-- crates/laic/src/pattern.rs: message types and constructors of Skill RPC, Stream and Topic.
pub mod Laws
use laic.Prelude.{ℕ, Bool, not, List, Result, ok, err, ◌>>=◌, ◌>>◌, err_if, ◌==◌, if◌then◌else◌}
use laic.Protocol.Constants.{MsgType}
use laic.Protocol.PayloadFormat.{PayloadFormat}
use laic.Protocol.Qos.{Qos}
use laic.Protocol.Message
use laic.Protocol.Message.{Message, msg_type, set_correlation_id, set_end_of_stream}
use laic.Error.{LaicError, protocol}
use laic.Error.Protocol.{unexpected_message_type}

abbrev pub skill_request_type : MsgType
skill_request_type = 0x0010

abbrev pub skill_response_type : MsgType
skill_response_type = 0x0011

abbrev pub stream_data_type : MsgType
stream_data_type = 0x0020

abbrev pub topic_publish_type : MsgType
topic_publish_type = 0x0030

unfoldable pub is_skill_request : Message → Bool
is_skill_request msg = msg_type msg == skill_request_type

unfoldable pub is_skill_response : Message → Bool
is_skill_response msg = msg_type msg == skill_response_type

unfoldable pub is_stream_data : Message → Bool
is_stream_data msg = msg_type msg == stream_data_type

unfoldable pub is_topic_publish : Message → Bool
is_topic_publish msg = msg_type msg == topic_publish_type

unfoldable pub skill_request : ℕ → PayloadFormat → Qos → List ℕ → Result Message LaicError
skill_request msg_id format qos payload = Message.new skill_request_type msg_id format qos payload

unfoldable pub skill_response :
    Message → ℕ → PayloadFormat → Qos → List ℕ → Result Message LaicError
skill_response request response_id format qos payload = do
  err_if (not (is_skill_request request))
      (protocol (unexpected_message_type skill_request_type (msg_type request)))
  msg ← Message.new skill_response_type response_id format qos payload
  ok (set_correlation_id request.header.msg_id msg)

unfoldable pub stream_chunk : ℕ → PayloadFormat → Qos → List ℕ → Bool → Result Message LaicError
stream_chunk msg_id format qos payload is_last = do
  msg ← Message.new stream_data_type msg_id format qos payload
  ok (if is_last then set_end_of_stream msg else msg)

unfoldable pub topic_publish : ℕ → PayloadFormat → Qos → List ℕ → Result Message LaicError
topic_publish msg_id format qos payload = Message.new topic_publish_type msg_id format qos payload
