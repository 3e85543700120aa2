-- ===== src/Examples/Patterns.antt =====
-- The theorems on patterns, credits and error codes at concrete values.
use laic.Prelude.{ℕ, ◌+◌, ◌/◌, ◌≡◌, ◌↔◌, refl, List, [], ◌∷◌, replicate, min, ◌-◌, true, ok, arith}
use laic.Protocol.PayloadFormat
use laic.Protocol.Qos
use laic.Protocol.Message.{Message, is_end_of_stream, new}
use laic.Protocol.Message.Valid.{IsValid}
use laic.Pattern.{is_skill_request, is_skill_response, is_stream_data, skill_response, stream_chunk}
use laic.Pattern.Laws.{skill_response_lem, skill_response-IsValid, stream_chunk_lem}
use laic.Flow
use laic.Flow.{CreditController}
use laic.Flow.Conservation.{Op, take_credit, grant, granted, run, run_balance, run-replicate}
use laic.Prelude.Detail.{text}
use laic.Error.{LaicError, transport, code, is_retryable}
use laic.Error.Transport.{timeout}
use laic.Error.Codes.{layer, variant, IsTransient, code_lem}
use laic.Examples.Sample.{request, request-IsValid}

abbrev bytes : List ℕ
bytes = 1 ∷ 2 ∷ []

request_asks : is_skill_request request ≡ true
unfolding is_skill_request
request_asks = refl

abbrev response : Message
response = record {
  header = record {
    magic = 0x4C41_4943;
    version = 1;
    msg_type = 17;
    msg_id = 9;
    correlation_id = 6;
    payload_len = 2;
    payload_format = 1;
    qos = 0;
    credit_grant = 0;
    flags = 0;
    reserved = (0, 0, 0, 0);
  };
  payload = bytes;
}

response_made : skill_response request 9 PayloadFormat.protobuf Qos.normal bytes ≡ ok response
unfolding skill_response is_skill_request new PayloadFormat.as_u8 Qos.as_u8
response_made = refl

skill_response_lem_example :
    (is_skill_request request ≡ true)
    × (is_skill_response response ≡ true)
    × (response.header.correlation_id ≡ request.header.msg_id)
    × (response.header.msg_id ≡ 9)
    × (response.payload ≡ bytes)
skill_response_lem_example =
    skill_response_lem 9 PayloadFormat.protobuf Qos.normal bytes request response response_made

skill_response-IsValid_example :
    (m : Message) × (skill_response request 9 PayloadFormat.protobuf Qos.normal bytes ≡ ok m)
    × IsValid m
skill_response-IsValid_example =
    skill_response-IsValid 9 PayloadFormat.protobuf Qos.normal bytes (omega arith)
      (omega arith, (omega arith, tt)) (omega arith) request request-IsValid request_asks

stream_chunk_lem_example :
    (m : Message) × (stream_chunk 9 PayloadFormat.arrow Qos.high bytes true ≡ ok m)
    × IsValid m
    × (is_stream_data m ≡ true)
    × (is_end_of_stream m ≡ true)
    × (m.payload ≡ bytes)
stream_chunk_lem_example =
    stream_chunk_lem 9 PayloadFormat.arrow Qos.high bytes (omega arith)
      (omega arith, (omega arith, tt)) (omega arith) true

abbrev ops : List Op
ops = take_credit ∷ grant 3 ∷ take_credit ∷ take_credit ∷ []

run_balance_example :
    (run ops (Flow.new 1)).0 + (run ops (Flow.new 1)).1.available
    ≡ (Flow.new 1).available + granted ops
run_balance_example = run_balance ops (Flow.new 1) (omega arith)

run-replicate_example :
    ((run (replicate 5 take_credit) (Flow.new 3)).0 ≡ min 5 (Flow.new 3).available)
    × ((run (replicate 5 take_credit) (Flow.new 3)).1.available ≡ (Flow.new 3).available - 5)
run-replicate_example = run-replicate 5 (Flow.new 3)

abbrev slow_send : LaicError
slow_send = transport (timeout (text "send" ∷ []))

abbrev slow_receive : LaicError
slow_receive = transport (timeout (text "receive" ∷ []))

code_lem_example :
    ((code slow_send ≡ code slow_receive) ↔ (variant slow_send ≡ variant slow_receive))
    × (code slow_send / 256 ≡ layer slow_send)
    × ((is_retryable slow_send ≡ true) ↔ IsTransient slow_send)
code_lem_example = code_lem slow_send slow_receive
