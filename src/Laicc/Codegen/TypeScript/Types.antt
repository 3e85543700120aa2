-- ===== src/Laicc/Codegen/TypeScript/Types.antt =====
-- crates/laicc/src/codegen/typescript_types.rs: the TypeScript and Arrow types of a LAIC type,
-- literals, and shapes.
use laic.Prelude.{map, ℕ, Bool, true, false, ◌||◌, List, [], ◌∷◌, ◌++◌, ◌==◌, if◌then◌else◌}
use laic.Prelude.Detail.{Detail, text, dec, chars, plain}
use laic.Laicc.Ast.{
  Dimension, fixed, dynamic, LaicType, string, bytes, bool_ty, i8_ty, i16_ty, i32_ty, i64_ty, u8_ty,
  f32_ty, f64_ty, tensor, list, optional, map_ty, Literal, string_lit, integer, float, bool_lit,
}
use laic.Laicc.Validate.Types.{is_optional}
use laic.Laicc.Codegen.Emitted.{join_comma}
use laic.Laicc.Codegen.Text.{codes, python_like, escape_string_literal_body}
use laic.Laicc.Codegen.Rust.Types.{show_int, show_bool, has_point}

-- `inner.contains(c)`, of a text without numbers.
abbrev pub member : ℕ → List ℕ → Bool
member c [] = false
member c (d ∷ ds) = let rest = member c ds in if d == c then true else rest

abbrev pub contains_char : ℕ → Detail → Bool
contains_char c [] = false
contains_char c (text s ∷ ps) = member c (codes s) || contains_char c ps
contains_char c (chars s ∷ ps) = member c s || contains_char c ps
contains_char c (_ ∷ ps) = contains_char c ps

-- The type of a list, of the text of its element type.
abbrev pub array_of : Detail → Detail
array_of inner =
    if contains_char 124 inner || contains_char 60 inner
    then text "Array<" ∷ inner ++ text ">" ∷ []
    else inner ++ text "[]" ∷ []

unfoldable pub ts_type : LaicType → Detail
ts_type string = plain "string"
ts_type bytes = plain "Uint8Array"
ts_type (tensor _ _) = plain "Uint8Array"
ts_type bool_ty = plain "boolean"
ts_type i8_ty = plain "number"
ts_type i16_ty = plain "number"
ts_type i32_ty = plain "number"
ts_type u8_ty = plain "number"
ts_type f32_ty = plain "number"
ts_type f64_ty = plain "number"
ts_type i64_ty = plain "bigint"
ts_type (list inner) = array_of (ts_type inner)
ts_type (optional inner) = ts_type inner ++ text " | null" ∷ []
ts_type (map_ty key value) = text "Map<" ∷ ts_type key ++ text ", " ∷ ts_type value ++ text ">" ∷ []

unfoldable pub ts_arrow_datatype : LaicType → Detail
ts_arrow_datatype string = plain "new arrow.Utf8()"
ts_arrow_datatype bytes = plain "new arrow.Binary()"
ts_arrow_datatype (tensor _ _) = plain "new arrow.Binary()"
ts_arrow_datatype bool_ty = plain "new arrow.Bool()"
ts_arrow_datatype i8_ty = plain "new arrow.Int8()"
ts_arrow_datatype i16_ty = plain "new arrow.Int16()"
ts_arrow_datatype i32_ty = plain "new arrow.Int32()"
ts_arrow_datatype i64_ty = plain "new arrow.Int64()"
ts_arrow_datatype u8_ty = plain "new arrow.Uint8()"
ts_arrow_datatype f32_ty = plain "new arrow.Float32()"
ts_arrow_datatype f64_ty = plain "new arrow.Float64()"
ts_arrow_datatype (list inner) =
    text "new arrow.List(new arrow.Field(\"item\", " ∷ ts_arrow_datatype inner
    ++ text ", " ∷ text (show_bool (is_optional inner)) ∷ text "))" ∷ []
ts_arrow_datatype (optional inner) = ts_arrow_datatype inner
ts_arrow_datatype (map_ty key value) =
    text "new arrow.Map_(new arrow.Field(\"entries\", new arrow.Struct([new arrow.Field(\"key\", "
      ∷ ts_arrow_datatype key
    ++ text ", false) as any, new arrow.Field(\"value\", " ∷ ts_arrow_datatype value
    ++ text ", false) as any]) as any, false), false) as any" ∷ []

abbrev pub is_i64 : LaicType → Bool
is_i64 i64_ty = true
is_i64 _ = false

module _ (show_float : ℕ → List ℕ) where
  unfoldable pub literal_to_ts : Literal → LaicType → Detail
  literal_to_ts (integer value) ty =
      if is_i64 ty then show_int value ++ text "n" ∷ [] else show_int value
  literal_to_ts (string_lit value) _ =
      text "\"" ∷ chars (escape_string_literal_body python_like (codes value)) ∷ text "\"" ∷ []
  literal_to_ts (float value) _ =
      let rendered = show_float value in
      if has_point rendered then chars rendered ∷ [] else chars rendered ∷ text ".0" ∷ []
  literal_to_ts (bool_lit value) _ = plain (show_bool value)

abbrev pub dim_part : Dimension → Detail
dim_part (fixed size) = dec size ∷ []
dim_part (dynamic _) = text "0" ∷ []

unfoldable pub format_ts_dims : List Dimension → Detail
format_ts_dims dims = text "[" ∷ join_comma (map dim_part dims) ++ text "]" ∷ []
