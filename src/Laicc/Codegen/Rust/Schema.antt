-- ===== src/Laicc/Codegen/Rust/Schema.antt =====
-- crates/laicc/src/codegen/rust_serialize.rs: the schema that the generated `to_arrow_ipc` builds.
use laic.Prelude.{map, List, [], ◌∷◌, ◌++◌}
use laic.Prelude.Detail.{Detail, text, dec}
use laic.Laicc.Ast.{
  TensorElementType, as_str, Dimension, fixed, dynamic, LaicType, tensor, list, optional, FieldDef,
}
use laic.Laicc.Validate.Types.{is_optional}
use laic.Laicc.Codegen.Emitted.{join_comma}
use laic.Laicc.Codegen.Rust.Types.{arrow_datatype, show_bool}

abbrev pub dim_part : Dimension → Detail
dim_part (fixed n) = dec n ∷ []
dim_part (dynamic _) = text "0" ∷ []

unfoldable pub format_dims_as_shape : List Dimension → Detail
format_dims_as_shape dims = text "[" ∷ join_comma (map dim_part dims) ++ text "]" ∷ []

unfoldable pub emit_tensor_field_metadata : TensorElementType → List Dimension → Detail
emit_tensor_field_metadata dtype dims =
    text "                    .with_metadata(HashMap::from([\n"
      ∷ text "                        (\"laic.tensor.dtype\".into(), \""
      ∷ text (as_str dtype)
      ∷ text "\".into()),\n"
      ∷ text "                        (\"laic.tensor.shape\".into(), \""
      ∷ format_dims_as_shape dims
    ++ text "\".into()),\n"
      ∷ text "                        (\"laic.tensor.version\".into(), \"1\".into()),\n"
      ∷ text "                    ])),\n"
      ∷ []

abbrev pub plain_schema_field : FieldDef → Detail
plain_schema_field field =
    text "                Field::new(\"" ∷ text field.name ∷ text "\", " ∷ arrow_datatype field.ty
    ++ text ", " ∷ text (show_bool (is_optional field.ty)) ∷ text "),\n" ∷ []

abbrev pub schema_field : FieldDef → LaicType → Detail
schema_field field (tensor dtype dims) =
    text "                Field::new(\""
    ∷ text field.name
    ∷ text "\", DataType::Binary, false)\n"
    ∷ emit_tensor_field_metadata dtype dims
schema_field field (list (tensor dtype dims)) =
    text "                Field::new(\""
    ∷ text field.name
    ∷ text "\", DataType::List(Arc::new(Field::new(\"item\", DataType::Binary, true))), false)\n"
    ∷ emit_tensor_field_metadata dtype dims
schema_field field (optional (tensor dtype dims)) =
    text "                Field::new(\""
    ∷ text field.name
    ∷ text "\", DataType::Binary, true)\n"
    ∷ emit_tensor_field_metadata dtype dims
schema_field field _ = plain_schema_field field

unfoldable pub emit_schema_field : FieldDef → Detail
emit_schema_field field = schema_field field field.ty
