-- ===== src/Laicc/Codegen/Rust/Serialize.antt =====
-- crates/laicc/src/codegen/rust_serialize.rs: the generated `to_arrow_ipc`.
use laic.Prelude.{String, some, [], ◌∷◌, ◌++◌}
use laic.Prelude.Detail.{Detail, text}
use laic.Laicc.Ast.{FieldDef, StructDef, SkillDef}
use laic.Laicc.Codegen.Emitted.{Emitted, ◌⧺◌, for_each, emit_each}
use laic.Laicc.Codegen.Text.{rust_string_literal}
use laic.Laicc.Codegen.Rust.Schema.{emit_schema_field}
use laic.Laicc.Codegen.Rust.Columns.{emit_to_arrow_column}

abbrev pub column : FieldDef → Emitted
column field =
    some (text "            " ∷ [])
    ⧺ emit_to_arrow_column field.name field.ty
    ⧺ some (text ",\n" ∷ [])

-- What comes before the columns, and after them.
abbrev pub to_arrow_head : SkillDef → StructDef → String → String → Detail
to_arrow_head skill def direction version =
    text "    pub fn to_arrow_ipc(&self) -> Result<Vec<u8>, Box<dyn std::error::Error>> {\n"
      ∷ text "        let schema = Schema::new_with_metadata(\n"
      ∷ text "            vec![\n"
      ∷ for_each emit_schema_field def.fields
    ++ text "            ],\n"
      ∷ text "            HashMap::from([\n"
      ∷ text "                (\"laic.skill_id\".into(), "
      ∷ rust_string_literal skill.id
    ++ text ".into()),\n"
      ∷ text "                (\"laic.version\".into(), "
      ∷ rust_string_literal version
    ++ text ".into()),\n"
      ∷ text "                (\"laic.direction\".into(), \""
      ∷ text direction
      ∷ text "\".into()),\n"
      ∷ text "            ]),\n"
      ∷ text "        );\n"
      ∷ text "        let batch = RecordBatch::try_new(Arc::new(schema), vec![\n"
      ∷ []

abbrev pub to_arrow_tail : Detail
to_arrow_tail =
    text "        ])?;\n"
    ∷ text "        let mut buf = Vec::new();\n"
    ∷ text "        {\n"
    ∷ text
        "            let mut writer = arrow_ipc::writer::StreamWriter::try_new(&mut buf, &batch.schema())?;\n"
    ∷ text "            writer.write(&batch)?;\n"
    ∷ text "            writer.finish()?;\n"
    ∷ text "        }\n"
    ∷ text "        Ok(buf)\n"
    ∷ text "    }\n"
    ∷ []

unfoldable pub generate_to_arrow_ipc : SkillDef → StructDef → String → String → Emitted
generate_to_arrow_ipc skill def direction version =
    some (to_arrow_head skill def direction version)
    ⧺ emit_each column def.fields
    ⧺ some to_arrow_tail
