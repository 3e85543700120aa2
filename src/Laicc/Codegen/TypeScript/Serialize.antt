-- ===== src/Laicc/Codegen/TypeScript/Serialize.antt =====
-- crates/laicc/src/codegen/typescript_serialize.rs: the generated `toIpc`.
use laic.Prelude.{Bool, true, false, String, List, [], ◌∷◌, ◌++◌}
use laic.Prelude.Detail.{Detail, text}
use laic.Laicc.Ast.{
  TensorElementType, as_str, Dimension, LaicType, tensor, list, optional, FieldDef, StructDef,
  SkillDef,
}
use laic.Laicc.Validate.Types.{is_optional}
use laic.Laicc.Codegen.Emitted.{for_each}
use laic.Laicc.Codegen.Text.{typescript_string_literal}
use laic.Laicc.Codegen.Rust.Types.{show_bool}
use laic.Laicc.Codegen.TypeScript.Types.{format_ts_dims, ts_arrow_datatype}

unfoldable pub emit_tensor_schema_field :
    String → String → Bool → TensorElementType → List Dimension → Detail
emit_tensor_schema_field field_name arrow_type nullable dtype dims =
    text "      new arrow.Field(\""
      ∷ text field_name
      ∷ text "\", "
      ∷ text arrow_type
      ∷ text ", "
      ∷ text (show_bool nullable)
      ∷ text ", new Map([\n"
      ∷ text "        [\"laic.tensor.dtype\", \""
      ∷ text (as_str dtype)
      ∷ text "\"],\n"
      ∷ text "        [\"laic.tensor.shape\", \""
      ∷ format_ts_dims dims
    ++ text "\"],\n" ∷ text "        [\"laic.tensor.version\", \"1\"],\n" ∷ text "      ])),\n" ∷ []

abbrev pub schema_field : String → LaicType → Detail
schema_field name (tensor dtype dims) =
    emit_tensor_schema_field name "new arrow.Binary()" false dtype dims
schema_field name (list (tensor dtype dims)) =
    emit_tensor_schema_field name
      "new arrow.List(new arrow.Field(\"item\", new arrow.Binary(), false))" false dtype dims
schema_field name (optional (tensor dtype dims)) =
    emit_tensor_schema_field name "new arrow.Binary()" true dtype dims
schema_field name ty =
    text "      new arrow.Field(\"" ∷ text name ∷ text "\", " ∷ ts_arrow_datatype ty
    ++ text ", " ∷ text (show_bool (is_optional ty)) ∷ text "),\n" ∷ []

unfoldable pub emit_schema_field : FieldDef → Detail
emit_schema_field field = schema_field field.name field.ty

abbrev pub data_entry : FieldDef → Detail
data_entry field =
    text "      \"" ∷ text field.name ∷ text "\": [this." ∷ text field.name ∷ text "],\n" ∷ []

unfoldable pub generate_to_ipc : SkillDef → StructDef → String → String → Detail
generate_to_ipc skill def direction version =
    text "  toIpc(): Uint8Array {\n"
      ∷ text "    const schema = new arrow.Schema([\n"
      ∷ for_each emit_schema_field def.fields
    ++ text "    ], new Map([\n"
      ∷ text "      [\"laic.skill_id\", "
      ∷ typescript_string_literal skill.id
    ++ text "],\n" ∷ text "      [\"laic.version\", " ∷ typescript_string_literal version
    ++ text "],\n"
      ∷ text "      [\"laic.direction\", \""
      ∷ text direction
      ∷ text "\"],\n"
      ∷ text "    ]));\n\n"
      ∷ text "    const data: Record<string, unknown[]> = {\n"
      ∷ for_each data_entry def.fields
    ++ text "    };\n\n"
      ∷ text "    const columns: Record<string, arrow.Vector> = {};\n"
      ∷ text "    for (const field of schema.fields) {\n"
      ∷ text "      columns[field.name] = arrow.vectorFromArray(data[field.name], field.type);\n"
      ∷ text "    }\n"
      ∷ text "    const table = new arrow.Table(schema, columns as any);\n"
      ∷ text "    return arrow.tableToIPC(table);\n"
      ∷ text "  }\n\n"
      ∷ []
