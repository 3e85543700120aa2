-- ===== src/Codec/Proto.antt =====
-- crates/laic/src/codec/proto.rs: Protobuf by prost, whose encoder and decoder are parameters.
use laic.Prelude.{ℕ, String, List, Result, map_err}
use laic.Prelude.Detail.{plain}
use laic.Error.{LaicError, codec}
use laic.Error.Codec.{proto_encode, proto_decode}

-- What a type that derives `prost::Message` has. An error is given by its text.
pub record ProstMessage (M : Type 0) : Type 0 where
  pub encode : M → Result (List ℕ) String
  pub decode : List ℕ → Result M String

module _ {M : Type 0} (p : ProstMessage M) where
  unfoldable pub encode_proto : M → Result (List ℕ) LaicError
  encode_proto msg = map_err (λ e. codec (proto_encode (plain e))) (p.encode msg)

  unfoldable pub decode_proto : List ℕ → Result M LaicError
  decode_proto bytes = map_err (λ e. codec (proto_decode (plain e))) (p.decode bytes)
