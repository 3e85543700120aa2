-- ===== src/Laicc/Driver/Inspect.antt =====
-- crates/laicc/src/main.rs: the text that `inspect-schema` prints.
use laic.Prelude.{map, Bool, true, false, String, Option, none, some, List, [], ◌∷◌, ◌++◌}
use laic.Prelude.Detail.{Detail, text, dec, plain}
use laic.Laicc.Ast.{
  TensorElementType, as_str, Dimension, fixed, dynamic, LaicType, string, bytes, bool_ty, i8_ty,
  i16_ty, i32_ty, i64_ty, u8_ty, f32_ty, f64_ty, tensor, list, optional, map_ty, FieldDef,
  StructDef, SkillDef, LaicFile,
}
use laic.Laicc.Validate.Types.{any_dynamic}
use laic.Laicc.Codegen.Emitted.{for_each, join_comma}
use laic.Laicc.Codegen.Rust.Types.{show_bool}

abbrev pub is_nullable : LaicType → Bool
is_nullable (optional _) = true
is_nullable _ = false

abbrev pub inner_tensor : LaicType → Option (TensorElementType × List Dimension)
inner_tensor (tensor dtype dims) = some (dtype, dims)
inner_tensor _ = none

unfoldable pub tensor_metadata : LaicType → Option (TensorElementType × List Dimension)
tensor_metadata (tensor dtype dims) = some (dtype, dims)
tensor_metadata (list inner) = inner_tensor inner
tensor_metadata (optional inner) = inner_tensor inner
tensor_metadata _ = none

abbrev pub is_container_tensor : LaicType → Bool
is_container_tensor (list (tensor _ _)) = true
is_container_tensor (optional (tensor _ _)) = true
is_container_tensor _ = false

abbrev pub laic_dim : Dimension → Detail
laic_dim (fixed size) = dec size ∷ []
laic_dim (dynamic (some name)) = text name ∷ []
laic_dim (dynamic none) = text "_" ∷ []

unfoldable pub format_laic_dims : List Dimension → Detail
format_laic_dims dims = text "[" ∷ join_comma (map laic_dim dims) ++ text "]" ∷ []

unfoldable pub format_laic_type : LaicType → Detail
format_laic_type string = plain "string"
format_laic_type bytes = plain "bytes"
format_laic_type bool_ty = plain "bool"
format_laic_type i8_ty = plain "i8"
format_laic_type i16_ty = plain "i16"
format_laic_type i32_ty = plain "i32"
format_laic_type i64_ty = plain "i64"
format_laic_type u8_ty = plain "u8"
format_laic_type f32_ty = plain "f32"
format_laic_type f64_ty = plain "f64"
format_laic_type (tensor dtype dims) =
    text "tensor<" ∷ text (as_str dtype) ∷ text ">" ∷ format_laic_dims dims ++ []
format_laic_type (list inner) = text "list<" ∷ format_laic_type inner ++ text ">" ∷ []
format_laic_type (optional inner) = text "optional<" ∷ format_laic_type inner ++ text ">" ∷ []
format_laic_type (map_ty key value) =
    text "map<" ∷ format_laic_type key ++ text ", " ∷ format_laic_type value ++ text ">" ∷ []

abbrev pub shape_dim : Dimension → Detail
shape_dim (fixed size) = dec size ∷ []
shape_dim (dynamic _) = text "0" ∷ []

unfoldable pub format_tensor_shape_metadata : List Dimension → Detail
format_tensor_shape_metadata dims = text "[" ∷ join_comma (map shape_dim dims) ++ text "]" ∷ []

unfoldable pub format_arrow_type : LaicType → Detail
format_arrow_type string = plain "DataType::Utf8"
format_arrow_type bytes = plain "DataType::Binary"
format_arrow_type (tensor _ _) = plain "DataType::Binary"
format_arrow_type bool_ty = plain "DataType::Boolean"
format_arrow_type i8_ty = plain "DataType::Int8"
format_arrow_type i16_ty = plain "DataType::Int16"
format_arrow_type i32_ty = plain "DataType::Int32"
format_arrow_type i64_ty = plain "DataType::Int64"
format_arrow_type u8_ty = plain "DataType::UInt8"
format_arrow_type f32_ty = plain "DataType::Float32"
format_arrow_type f64_ty = plain "DataType::Float64"
format_arrow_type (list inner) =
    text "DataType::List(item: " ∷ format_arrow_type inner ++ text ")" ∷ []
format_arrow_type (optional inner) = format_arrow_type inner
format_arrow_type (map_ty key value) =
    text "DataType::Map(keys: " ∷ format_arrow_type key
    ++ text ", values: " ∷ format_arrow_type value
    ++ text ")" ∷ []

abbrev pub dynamic_note : Bool → Detail
dynamic_note true = text "        Note: 0 marks dynamic dimensions in tensor shape metadata.\n" ∷ []
dynamic_note false = []

abbrev pub container_note : Bool → Detail
container_note true = text "        Note: tensor metadata is stored on the outer field.\n" ∷ []
container_note false = []

abbrev pub metadata_lines : LaicType → Option (TensorElementType × List Dimension) → Detail
metadata_lines ty none = []
metadata_lines ty (some (dtype, dims)) =
    text "      Metadata:\n"
      ∷ text "        laic.tensor.dtype = "
      ∷ text (as_str dtype)
      ∷ text "\n"
      ∷ text "        laic.tensor.shape = "
      ∷ format_tensor_shape_metadata dims
    ++ text "\n" ∷ dynamic_note (any_dynamic dims)
    ++ container_note (is_container_tensor ty)
    ++ text "        laic.tensor.version = 1\n" ∷ []

unfoldable pub inspect_field : FieldDef → Detail
inspect_field field =
    text "    Field: "
      ∷ text field.name
      ∷ text "\n"
      ∷ text "      LAIC type: "
      ∷ format_laic_type field.ty
    ++ text "\n" ∷ text "      Arrow type: " ∷ format_arrow_type field.ty
    ++ text "\n"
      ∷ text "      Nullable: "
      ∷ text (show_bool (is_nullable field.ty))
      ∷ text "\n"
      ∷ metadata_lines field.ty (tensor_metadata field.ty)

unfoldable pub inspect_struct : StructDef → String → Detail
inspect_struct def direction =
    text "  Message: "
    ∷ text def.name
    ∷ text "\n"
    ∷ text "    laic.direction = "
    ∷ text direction
    ∷ text "\n"
    ∷ for_each inspect_field def.fields

unfoldable pub inspect_skill : String → SkillDef → Detail
inspect_skill version skill =
    text "\nSkill: "
      ∷ text skill.name
      ∷ text "\n"
      ∷ text "  Schema metadata:\n"
      ∷ text "    laic.skill_id = "
      ∷ text skill.id
      ∷ text "\n"
      ∷ text "    laic.version = "
      ∷ text version
      ∷ text "\n"
      ∷ inspect_struct skill.input "input"
    ++ inspect_struct skill.output "output"

unfoldable pub inspect_schema : String → LaicFile → Detail
inspect_schema input file =
    text "LAIC schema inspection\n"
    ∷ text "Format: human-readable diagnostic only; exact wording is not stable.\n"
    ∷ text "Contract: "
    ∷ text input
    ∷ text "\n"
    ∷ text "Version: "
    ∷ text file.version
    ∷ text "\n"
    ∷ for_each (inspect_skill file.version) file.skills
