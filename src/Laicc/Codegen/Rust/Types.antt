-- ===== src/Laicc/Codegen/Rust/Types.antt =====
-- crates/laicc/src/codegen/rust_types.rs: the Rust and Arrow types of a LAIC type, and literals.
-- The display of a float, and whether it has a `.`, are the standard library's.
use laic.Prelude.{
  ℕ, suc, ◌==◌, Bool, true, false, String, Option, none, some, List, [], ◌∷◌, ◌++◌, if◌then◌else◌,
}
use laic.Prelude.Detail.{Detail, text, dec, chars, plain}
use laic.Laicc.Ast.{
  ℤ, pos, negsuc, LaicType, string, bytes, bool_ty, i8_ty, i16_ty, i32_ty, i64_ty, u8_ty, f32_ty,
  f64_ty, tensor, list, optional, map_ty, Literal, string_lit, integer, float, bool_lit,
}
use laic.Laicc.Codegen.Text.{codes, rust, escape_string_literal_body}

unfoldable pub rust_type : LaicType → Detail
rust_type string = plain "String"
rust_type bytes = plain "Vec<u8>"
rust_type bool_ty = plain "bool"
rust_type i8_ty = plain "i8"
rust_type i16_ty = plain "i16"
rust_type i32_ty = plain "i32"
rust_type i64_ty = plain "i64"
rust_type u8_ty = plain "u8"
rust_type f32_ty = plain "f32"
rust_type f64_ty = plain "f64"
rust_type (tensor _ _) = plain "Vec<u8>"
rust_type (list inner) = text "Vec<" ∷ rust_type inner ++ text ">" ∷ []
rust_type (optional inner) = text "Option<" ∷ rust_type inner ++ text ">" ∷ []
rust_type (map_ty k v) = text "HashMap<" ∷ rust_type k ++ text ", " ∷ rust_type v ++ text ">" ∷ []

unfoldable pub arrow_datatype : LaicType → Detail
arrow_datatype string = plain "DataType::Utf8"
arrow_datatype bytes = plain "DataType::Binary"
arrow_datatype bool_ty = plain "DataType::Boolean"
arrow_datatype i8_ty = plain "DataType::Int8"
arrow_datatype i16_ty = plain "DataType::Int16"
arrow_datatype i32_ty = plain "DataType::Int32"
arrow_datatype i64_ty = plain "DataType::Int64"
arrow_datatype u8_ty = plain "DataType::UInt8"
arrow_datatype f32_ty = plain "DataType::Float32"
arrow_datatype f64_ty = plain "DataType::Float64"
arrow_datatype (tensor _ _) = plain "DataType::Binary"
arrow_datatype (list inner) =
    text "DataType::List(Arc::new(Field::new(\"item\", " ∷ arrow_datatype inner
    ++ text ", true)))" ∷ []
arrow_datatype (optional inner) = arrow_datatype inner
arrow_datatype (map_ty k v) =
    text
        "DataType::Map(Arc::new(Field::new(\"entries\", DataType::Struct(Fields::from(vec![Field::new(\"keys\", "
      ∷ arrow_datatype k
    ++ text ", false), Field::new(\"values\", " ∷ arrow_datatype v
    ++ text ", true)])), false)), false)" ∷ []

-- `None` stands for the panic of `unreachable!`.
unfoldable pub arrow_array_type : LaicType → Option String
arrow_array_type string = some "StringArray"
arrow_array_type bytes = some "BinaryArray"
arrow_array_type (tensor _ _) = some "BinaryArray"
arrow_array_type bool_ty = some "BooleanArray"
arrow_array_type i8_ty = some "Int8Array"
arrow_array_type i16_ty = some "Int16Array"
arrow_array_type i32_ty = some "Int32Array"
arrow_array_type i64_ty = some "Int64Array"
arrow_array_type u8_ty = some "UInt8Array"
arrow_array_type f32_ty = some "Float32Array"
arrow_array_type f64_ty = some "Float64Array"
arrow_array_type _ = none

unfoldable pub arrow_builder_type : LaicType → Option String
arrow_builder_type string = some "StringBuilder"
arrow_builder_type bytes = some "BinaryBuilder"
arrow_builder_type (tensor _ _) = some "BinaryBuilder"
arrow_builder_type bool_ty = some "BooleanBuilder"
arrow_builder_type i8_ty = some "Int8Builder"
arrow_builder_type i16_ty = some "Int16Builder"
arrow_builder_type i32_ty = some "Int32Builder"
arrow_builder_type i64_ty = some "Int64Builder"
arrow_builder_type u8_ty = some "UInt8Builder"
arrow_builder_type f32_ty = some "Float32Builder"
arrow_builder_type f64_ty = some "Float64Builder"
arrow_builder_type _ = none

abbrev pub needs_deref : LaicType → Bool
needs_deref string = false
needs_deref bytes = false
needs_deref (tensor _ _) = false
needs_deref _ = true

abbrev pub show_bool : Bool → String
show_bool true = "true"
show_bool false = "false"

abbrev pub show_int : ℤ → Detail
show_int (pos n) = dec n ∷ []
show_int (negsuc n) = text "-" ∷ dec (suc n) ∷ []

-- `s.contains('.')`
abbrev pub has_point : List ℕ → Bool
has_point [] = false
has_point (c ∷ cs) = let rest = has_point cs in if c == 46 then true else rest

module _ (show_float : ℕ → List ℕ) where
  unfoldable pub literal_to_rust : Literal → Detail
  literal_to_rust (string_lit s) =
      text "\"" ∷ chars (escape_string_literal_body rust (codes s)) ∷ text "\".to_string()" ∷ []
  literal_to_rust (integer i) = show_int i
  literal_to_rust (float f) =
      let s = show_float f in if has_point s then chars s ∷ [] else chars s ∷ text ".0" ∷ []
  literal_to_rust (bool_lit b) = plain (show_bool b)
