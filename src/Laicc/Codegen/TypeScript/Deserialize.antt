-- ===== src/Laicc/Codegen/TypeScript/Deserialize.antt =====
-- crates/laicc/src/codegen/typescript_deserialize.rs: the generated `fromIpc`.
use laic.Prelude.{ℕ, String, Option, none, some, List, [], ◌∷◌, ◌++◌}
use laic.Prelude.Detail.{Detail, text}
use laic.Laicc.Ast.{
  TensorElementType, as_str, Dimension, LaicType, tensor, list, optional, map_ty, Literal, FieldDef,
  StructDef,
}
use laic.Laicc.Codegen.Emitted.{for_each}
use laic.Laicc.Codegen.Text.{typescript_string_literal}
use laic.Laicc.Codegen.TypeScript.Types.{format_ts_dims, ts_arrow_datatype, ts_type, literal_to_ts}

unfoldable pub emit_tensor_metadata_assertion : String → TensorElementType → List Dimension → Detail
emit_tensor_metadata_assertion field_name dtype dims =
    text "    const "
      ∷ text field_name
      ∷ text "_field = table.schema.fields.find((candidate) => candidate.name === \""
      ∷ text field_name
      ∷ text "\")!;\n"
      ∷ text "    laicAssertTensorMetadata("
      ∷ text field_name
      ∷ text "_field, \""
      ∷ text field_name
      ∷ text "\", \""
      ∷ text (as_str dtype)
      ∷ text "\", "
      ∷ format_ts_dims dims
    ++ text ");\n" ∷ []

module _ (show_float : ℕ → List ℕ) where
  abbrev pub scalar_extraction : String → LaicType → Detail → Detail → Option Literal → Detail
  scalar_extraction name field_ty ty expected_type (some default) =
      text "    const "
        ∷ text name
        ∷ text "_column = batch.getChild(\""
        ∷ text name
        ∷ text "\");\n"
        ∷ text "    let "
        ∷ text name
        ∷ text ": "
        ∷ ty
      ++ text ";\n"
        ∷ text "    if ("
        ∷ text name
        ∷ text "_column === null) {\n"
        ∷ text "      "
        ∷ text name
        ∷ text " = "
        ∷ literal_to_ts show_float default field_ty
      ++ text ";\n"
        ∷ text "    } else {\n"
        ∷ text "      const "
        ∷ text name
        ∷ text "_field = table.schema.fields.find((candidate) => candidate.name === \""
        ∷ text name
        ∷ text "\")!;\n"
        ∷ text "      laicAssertFieldType("
        ∷ text name
        ∷ text "_field, \""
        ∷ text name
        ∷ text "\", "
        ∷ expected_type
      ++ text ");\n"
        ∷ text "      "
        ∷ text name
        ∷ text " = "
        ∷ text name
        ∷ text "_column.get(0) as "
        ∷ ty
      ++ text ";\n" ∷ text "    }\n" ∷ []
  scalar_extraction name field_ty ty expected_type none =
      text "    const "
        ∷ text name
        ∷ text "_column = batch.getChild(\""
        ∷ text name
        ∷ text "\");\n"
        ∷ text "    if ("
        ∷ text name
        ∷ text "_column === null) {\n"
        ∷ text "      throw new Error(\"missing '"
        ∷ text name
        ∷ text "' column\");\n"
        ∷ text "    }\n"
        ∷ text "    const "
        ∷ text name
        ∷ text "_field = table.schema.fields.find((candidate) => candidate.name === \""
        ∷ text name
        ∷ text "\")!;\n"
        ∷ text "    laicAssertFieldType("
        ∷ text name
        ∷ text "_field, \""
        ∷ text name
        ∷ text "\", "
        ∷ expected_type
      ++ text ");\n"
        ∷ text "    const "
        ∷ text name
        ∷ text " = "
        ∷ text name
        ∷ text "_column.get(0) as "
        ∷ ty
      ++ text ";\n" ∷ []

  unfoldable pub emit_scalar_extraction : String → Option Literal → LaicType → Detail
  emit_scalar_extraction name default field_ty =
      scalar_extraction name field_ty (ts_type field_ty) (ts_arrow_datatype field_ty) default

  abbrev pub field_extraction : String → Option Literal → LaicType → Detail
  field_extraction name default (tensor dtype dims) =
      emit_tensor_metadata_assertion name dtype dims
      ++ text "    const "
        ∷ text name
        ∷ text " = batch.getChild(\""
        ∷ text name
        ∷ text "\")!.get(0) as Uint8Array;\n"
        ∷ []
  field_extraction name default (list (tensor dtype dims)) =
      emit_tensor_metadata_assertion name dtype dims
      ++ text "    const "
        ∷ text name
        ∷ text " = Array.from(batch.getChild(\""
        ∷ text name
        ∷ text "\")!.get(0) as Iterable<Uint8Array>);\n"
        ∷ []
  field_extraction name default (list inner) =
      text "    const "
        ∷ text name
        ∷ text " = Array.from(batch.getChild(\""
        ∷ text name
        ∷ text "\")!.get(0) as Iterable<"
        ∷ ts_type inner
      ++ text ">);\n" ∷ []
  field_extraction name default (optional (tensor dtype dims)) =
      emit_tensor_metadata_assertion name dtype dims
      ++ text "    const "
        ∷ text name
        ∷ text "_column = batch.getChild(\""
        ∷ text name
        ∷ text "\")!;\n"
        ∷ text "    const "
        ∷ text name
        ∷ text " = "
        ∷ text name
        ∷ text "_column.isValid(0) ? ("
        ∷ text name
        ∷ text "_column.get(0) as Uint8Array) : null;\n"
        ∷ []
  field_extraction name default (optional inner) =
      text "    const "
        ∷ text name
        ∷ text "_column = batch.getChild(\""
        ∷ text name
        ∷ text "\")!;\n"
        ∷ text "    const "
        ∷ text name
        ∷ text " = "
        ∷ text name
        ∷ text "_column.isValid(0) ? ("
        ∷ text name
        ∷ text "_column.get(0) as "
        ∷ ts_type inner
      ++ text ") : null;\n" ∷ []
  field_extraction name default (map_ty key value) =
      text "    const "
        ∷ text name
        ∷ text " = batch.getChild(\""
        ∷ text name
        ∷ text "\")!.get(0) as Map<"
        ∷ ts_type key
      ++ text ", " ∷ ts_type value
      ++ text ">;\n" ∷ []
  field_extraction name default ty = emit_scalar_extraction name default ty

  unfoldable pub emit_field_extraction : FieldDef → Detail
  emit_field_extraction field = field_extraction field.name field.default field.ty

  abbrev pub argument : FieldDef → Detail
  argument field = text "      " ∷ text field.name ∷ text ",\n" ∷ []

  unfoldable pub generate_from_ipc : StructDef → String → String → String → Detail
  generate_from_ipc def skill_id version direction =
      text "  static fromIpc(data: Uint8Array): "
        ∷ text def.name
        ∷ text " {\n"
        ∷ text "    const table = arrow.tableFromIPC(data);\n"
        ∷ text "    if (table.numRows === 0) {\n"
        ∷ text "      throw new Error(\"cardinality error: RecordBatch has 0 rows, expected 1\");\n"
        ∷ text "    }\n"
        ∷ text "    if (table.numRows > 1) {\n"
        ∷ text
            "      throw new Error(`cardinality error: RecordBatch has ${table.numRows} rows, expected 1`);\n"
        ∷ text "    }\n"
        ∷ text "    if (table.batches.length > 1) {\n"
        ∷ text
            "      throw new Error(\"cardinality error: stream contains more than one RecordBatch\");\n"
        ∷ text "    }\n"
        ∷ text "    const batch = table.batches[0]!;\n"
        ∷ text "    const schemaMetadata = laicSchemaMetadata(table.schema);\n"
        ∷ text "    laicAssertMetadata(schemaMetadata, \"laic.skill_id\", "
        ∷ typescript_string_literal skill_id
      ++ text ");\n"
        ∷ text "    laicAssertMetadata(schemaMetadata, \"laic.version\", "
        ∷ typescript_string_literal version
      ++ text ");\n"
        ∷ text "    laicAssertMetadata(schemaMetadata, \"laic.direction\", \""
        ∷ text direction
        ∷ text "\");\n\n"
        ∷ for_each emit_field_extraction def.fields
      ++ text "    return new " ∷ text def.name ∷ text "(\n" ∷ for_each argument def.fields
      ++ text "    );\n" ∷ text "  }\n" ∷ []
