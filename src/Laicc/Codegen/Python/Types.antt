-- ===== src/Laicc/Codegen/Python/Types.antt =====
-- crates/laicc/src/codegen/python_types.rs: the Python and PyArrow types of a LAIC type, and literals.
use laic.Prelude.{ℕ, List, [], ◌∷◌, ◌++◌, if◌then◌else◌}
use laic.Prelude.Detail.{Detail, text, chars, plain}
use laic.Laicc.Ast.{
  LaicType, string, bytes, bool_ty, i8_ty, i16_ty, i32_ty, i64_ty, u8_ty, f32_ty, f64_ty, tensor,
  list, optional, map_ty, Literal, string_lit, integer, float, bool_lit,
}
use laic.Laicc.Codegen.Text.{codes, python_like, escape_string_literal_body}
use laic.Laicc.Codegen.Rust.Types.{show_int, has_point}

unfoldable pub python_type : LaicType → Detail
python_type string = plain "str"
python_type bytes = plain "bytes"
python_type bool_ty = plain "bool"
python_type i8_ty = plain "int"
python_type i16_ty = plain "int"
python_type i32_ty = plain "int"
python_type i64_ty = plain "int"
python_type u8_ty = plain "int"
python_type f32_ty = plain "float"
python_type f64_ty = plain "float"
python_type (tensor _ _) = plain "bytes"
python_type (list inner) = text "list[" ∷ python_type inner ++ text "]" ∷ []
python_type (optional inner) = python_type inner ++ text " | None" ∷ []
python_type (map_ty k v) =
    text "dict[" ∷ python_type k ++ text ", " ∷ python_type v ++ text "]" ∷ []

unfoldable pub pyarrow_type : LaicType → Detail
pyarrow_type string = plain "pa.string()"
pyarrow_type bytes = plain "pa.binary()"
pyarrow_type bool_ty = plain "pa.bool_()"
pyarrow_type i8_ty = plain "pa.int8()"
pyarrow_type i16_ty = plain "pa.int16()"
pyarrow_type i32_ty = plain "pa.int32()"
pyarrow_type i64_ty = plain "pa.int64()"
pyarrow_type u8_ty = plain "pa.uint8()"
pyarrow_type f32_ty = plain "pa.float32()"
pyarrow_type f64_ty = plain "pa.float64()"
pyarrow_type (tensor _ _) = plain "pa.binary()"
pyarrow_type (list inner) = text "pa.list_(" ∷ pyarrow_type inner ++ text ")" ∷ []
pyarrow_type (optional inner) = pyarrow_type inner
pyarrow_type (map_ty k v) =
    text "pa.map_(" ∷ pyarrow_type k ++ text ", " ∷ pyarrow_type v ++ text ")" ∷ []

module _ (show_float : ℕ → List ℕ) where
  unfoldable pub literal_to_python : Literal → Detail
  literal_to_python (string_lit s) =
      text "\"" ∷ chars (escape_string_literal_body python_like (codes s)) ∷ text "\"" ∷ []
  literal_to_python (integer i) = show_int i
  literal_to_python (float f) =
      let s = show_float f in if has_point s then chars s ∷ [] else chars s ∷ text ".0" ∷ []
  literal_to_python (bool_lit b) = plain (if b then "True" else "False")
