-- ===== src/Laicc/Codegen/Rust/Deserialize.antt =====
-- crates/laicc/src/codegen/rust_deserialize.rs: the generated `from_arrow_ipc`.
use laic.Prelude.{ℕ, String, Option, none, some, List, [], ◌∷◌, ◌++◌}
use laic.Prelude.Detail.{Detail, text}
use laic.Laicc.Ast.{LaicType, bytes, tensor, list, optional, map_ty, Literal, FieldDef, StructDef}
use laic.Laicc.Codegen.Emitted.{Emitted, ◌⧺◌, for_each, emit_each, with_text}
use laic.Laicc.Codegen.Text.{rust_string_literal}
use laic.Laicc.Codegen.Rust.Types.{arrow_array_type, arrow_datatype, literal_to_rust}
use laic.Laicc.Codegen.Rust.DeserializeTensors.{emit_tensor_extraction}
use laic.Laicc.Codegen.Rust.DeserializeLists.{emit_list_extraction}
use laic.Laicc.Codegen.Rust.DeserializeFields.{
  primitive_value_expr, emit_optional_extraction, emit_map_extraction,
}

-- The body of the loop over the three metadata keys.
abbrev pub check_metadata : String × String → Detail
check_metadata (key, expected) =
    text "        match meta.get(\""
      ∷ text key
      ∷ text "\") {\n"
      ∷ text "            None => return Err(\"missing required metadata key '"
      ∷ text key
      ∷ text "'\".into()),\n"
      ∷ text "            Some(v) if v != "
      ∷ rust_string_literal expected
    ++ text " => return Err(format!(\"metadata '"
      ∷ text key
      ∷ text "' mismatch: expected {:?}, got '{}'\", "
      ∷ rust_string_literal expected
    ++ text ", v).into()),\n" ∷ text "            _ => {}\n" ∷ text "        }\n" ∷ []

unfoldable pub emit_metadata_validation : String → String → String → Detail
emit_metadata_validation skill_id version direction =
    text "        let schema = batch.schema();\n"
    ∷ text "        let meta = schema.metadata();\n"
    ∷ for_each check_metadata (
        ("laic.skill_id", skill_id)
        ∷ ("laic.version", version)
        ∷ ("laic.direction", direction)
        ∷ [])

-- What the two arms on the default have in common, and what each ends with.
abbrev pub simple_extraction : String → String → String → Detail → Detail
simple_extraction name array_type value_expr expected_type =
    text "        let "
      ∷ text name
      ∷ text " = match batch.column_by_name(\""
      ∷ text name
      ∷ text "\") {\n"
      ∷ text "            Some(column) => {\n"
      ∷ text "                let schema = batch.schema();\n"
      ∷ text "                let field = schema.field_with_name(\""
      ∷ text name
      ∷ text "\")\n"
      ∷ text "                    .map_err(|_| \"missing '"
      ∷ text name
      ∷ text "' field\".to_string())?;\n"
      ∷ text "                if field.data_type() != &"
      ∷ expected_type
    ++ text " {\n"
      ∷ text "                    return Err(format!(\"field '"
      ∷ text name
      ∷ text "' expected {:?}, got {:?}\", "
      ∷ expected_type
    ++ text ", field.data_type()).into());\n"
      ∷ text "                }\n"
      ∷ text
          "                column\n                    .as_any()\n                    .downcast_ref::<"
      ∷ text array_type
      ∷ text ">()\n"
      ∷ text "                    .ok_or_else(|| \"field '"
      ∷ text name
      ∷ text "' expected "
      ∷ text array_type
      ∷ text "\".to_string())?\n"
      ∷ text "                    "
      ∷ text value_expr
      ∷ text "\n"
      ∷ text "            }\n"
      ∷ []

module _ (show_float : ℕ → List ℕ) where
  abbrev pub missing_column : String → Option Literal → Detail
  missing_column name (some lit) =
      text "            None => " ∷ literal_to_rust show_float lit
      ++ text ",\n" ∷ text "        };\n" ∷ []
  missing_column name none =
      text "            None => return Err(\"missing '"
      ∷ text name
      ∷ text "' column\".into()),\n"
      ∷ text "        };\n"
      ∷ []

  unfoldable pub emit_simple_extraction :
      String → String → String → Detail → Option Literal → Detail
  emit_simple_extraction name array_type value_expr expected_type default =
      simple_extraction name array_type value_expr expected_type ++ missing_column name default

  abbrev pub field_extraction : String → Option Literal → LaicType → Emitted
  field_extraction name default (tensor dtype dims) = some (emit_tensor_extraction name dtype dims)
  field_extraction name default bytes = some (
      emit_simple_extraction name "BinaryArray" ".value(0).to_vec()" (arrow_datatype bytes) default)
  field_extraction name default (list inner) = emit_list_extraction name inner
  field_extraction name default (optional inner) = emit_optional_extraction name inner
  field_extraction name default (map_ty k v) = emit_map_extraction name k v
  field_extraction name default ty = with_text (arrow_array_type ty) (λ arr_type.
      some (
        emit_simple_extraction name arr_type (primitive_value_expr ty) (arrow_datatype ty) default))

  unfoldable pub emit_field_extraction : FieldDef → Emitted
  emit_field_extraction field = field_extraction field.name field.default field.ty

  abbrev pub from_arrow_head : String → String → String → Detail
  from_arrow_head skill_id version direction =
      text "    pub fn from_arrow_ipc(bytes: &[u8]) -> Result<Self, Box<dyn std::error::Error>> {\n"
      ∷ text "        let cursor = std::io::Cursor::new(bytes);\n"
      ∷ text "        let mut reader = arrow_ipc::reader::StreamReader::try_new(cursor, None)?;\n"
      ∷ text "        let batch = reader.next()\n"
      ∷ text "            .ok_or(\"empty IPC stream: no RecordBatch\")?\n"
      ∷ text "            ?;\n"
      ∷ text "        if batch.num_rows() == 0 {\n"
      ∷ text
          "            return Err(\"cardinality error: RecordBatch has 0 rows, expected 1\".into());\n"
      ∷ text "        }\n"
      ∷ text "        if batch.num_rows() > 1 {\n"
      ∷ text
          "            return Err(format!(\"cardinality error: RecordBatch has {} rows, expected 1\", batch.num_rows()).into());\n"
      ∷ text "        }\n"
      ∷ text "        match reader.next() {\n"
      ∷ text
          "            Some(Ok(_)) => return Err(\"cardinality error: stream contains more than one RecordBatch\".into()),\n"
      ∷ text
          "            Some(Err(e)) => return Err(format!(\"corrupt trailing data in IPC stream: {e}\").into()),\n"
      ∷ text "            None => {}\n"
      ∷ text "        }\n"
      ∷ emit_metadata_validation skill_id version direction

  abbrev pub init_field : FieldDef → Detail
  init_field field = text "            " ∷ text field.name ∷ text ",\n" ∷ []

  abbrev pub from_arrow_tail : StructDef → Detail
  from_arrow_tail def =
      text "        Ok(Self {\n" ∷ for_each init_field def.fields
      ++ text "        })\n" ∷ text "    }\n" ∷ []

  unfoldable pub generate_from_arrow_ipc : StructDef → String → String → String → Emitted
  generate_from_arrow_ipc def skill_id version direction =
      some (from_arrow_head skill_id version direction)
      ⧺ emit_each emit_field_extraction def.fields
      ⧺ some (from_arrow_tail def)
