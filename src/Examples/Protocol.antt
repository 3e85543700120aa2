-- ===== src/Examples/Protocol.antt =====
-- The header and message theorems at a message of three bytes.
use laic.Prelude.{
  ℕ, ◌≤◌, ◌≡◌, ◌↔◌, refl, List, [], ◌∷◌, ◌++◌, replicate, length, drop, ok, err, ltb, false, arith,
  All,
}
use laic.Prelude.Bytes.{IsByte}
use laic.Protocol.PayloadFormat
use laic.Protocol.Qos
use laic.Protocol.Header.{MessageHeader, InRange, encode, decode}
use laic.Protocol.Header.Layout.{layout}
use laic.Protocol.Header.RoundTrip.{decode-encode, encode-decode, encode_decode_agree}
use laic.Protocol.Message
use laic.Protocol.Message.{
  Message, from_parts, is_end_of_stream, set_credit_grant, set_end_of_stream, clear_end_of_stream,
}
use laic.Protocol.Message.Valid.{IsValid, from_parts_iff, new-IsValid}
use laic.Protocol.Message.Flags.{has_credit_grant, set_credit_grant_lem}
use laic.Transport.Framing.RoundTrip.{encode-IsValid, decode_layout_nil}
use laic.Error.{protocol}
use laic.Error.Protocol.{invalid_magic}
use laic.Examples.Sample.{sample, sample-IsValid, request}

abbrev zeros : List ℕ
zeros = replicate 40 0

-- A header with another magic.
abbrev foreign : MessageHeader
foreign = record (sample.header) { magic = 1 }

abbrev wire : List ℕ
wire = layout sample.header

wire-IsByte : All IsByte wire
unfolding layout
wire-IsByte = ground arith

decode-encode_example :
    (decode wire ≡ ok sample.header) × (length wire ≡ length zeros) × (drop 40 wire ≡ drop 40 zeros)
decode-encode_example =
    decode-encode sample.header zeros wire sample-IsValid.in_range
      (encode-IsValid sample sample-IsValid)

encode-decode_example : (encode sample.header wire ≡ ok wire) × InRange sample.header
encode-decode_example =
    encode-decode sample.header wire wire-IsByte
      (decode_layout_nil sample.header sample-IsValid.in_range sample-IsValid.checked)

forty_fits : 40 ≤ length zeros
unfolding replicate
forty_fits = omega arith

encode_decode_agree_example :
    (encode foreign zeros ≡ err (protocol (invalid_magic 1)))
    ↔ (decode (layout foreign ++ 9 ∷ []) ≡ err (protocol (invalid_magic 1)))
encode_decode_agree_example =
    encode_decode_agree foreign zeros (9 ∷ []) (protocol (invalid_magic 1)) (omega arith) forty_fits

from_parts_iff_example :
    (from_parts sample.header sample.payload ≡ ok sample) ↔ ((sample ≡ sample) × IsValid sample)
from_parts_iff_example =
    from_parts_iff sample.header sample.payload sample sample-IsValid.in_range sample-IsValid.bytes

new-IsValid_example :
    (m : Message) × (Message.new 1 5 PayloadFormat.protobuf Qos.high (1 ∷ 2 ∷ []) ≡ ok m)
    × IsValid m
new-IsValid_example =
    new-IsValid 1 5 PayloadFormat.protobuf Qos.high (1 ∷ 2 ∷ []) (omega arith) (omega arith)
      (omega arith, (omega arith, tt)) (omega arith)

set_credit_grant_lem_example :
    ((set_credit_grant 12 request).header.credit_grant ≡ 12)
    × (has_credit_grant (set_credit_grant 12 request) ≡ ltb 0 12)
    × (is_end_of_stream (set_credit_grant 12 request) ≡ is_end_of_stream request)
set_credit_grant_lem_example = set_credit_grant_lem 12 request (omega arith)

sample_unmarked : is_end_of_stream sample ≡ false
unfolding is_end_of_stream
sample_unmarked = refl
