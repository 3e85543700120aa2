-- ===== src/Laicc/Codegen/Python/Serialize.antt =====
-- crates/laicc/src/codegen/python_serialize.rs: the generated `to_ipc`.
use laic.Prelude.{map, String, List, [], ◌∷◌, ◌++◌, if◌then◌else◌}
use laic.Prelude.Detail.{Detail, text, dec}
use laic.Laicc.Ast.{
  TensorElementType, as_str, Dimension, fixed, dynamic, LaicType, tensor, list, optional, map_ty,
  FieldDef, StructDef, SkillDef,
}
use laic.Laicc.Validate.Types.{is_optional}
use laic.Laicc.Codegen.Emitted.{for_each, join_comma}
use laic.Laicc.Codegen.Text.{python_bytes_literal}
use laic.Laicc.Codegen.Python.Types.{pyarrow_type}

abbrev pub dim_part : Dimension → Detail
dim_part (fixed n) = dec n ∷ []
dim_part (dynamic _) = text "0" ∷ []

unfoldable pub format_dims_as_shape : List Dimension → Detail
format_dims_as_shape dims = text "[" ∷ join_comma (map dim_part dims) ++ text "]" ∷ []

unfoldable pub emit_tensor_metadata : TensorElementType → List Dimension → Detail
emit_tensor_metadata dtype dims =
    text "                b\"laic.tensor.dtype\": b\""
      ∷ text (as_str dtype)
      ∷ text "\",\n"
      ∷ text "                b\"laic.tensor.shape\": b\""
      ∷ format_dims_as_shape dims
    ++ text "\",\n" ∷ text "                b\"laic.tensor.version\": b\"1\",\n" ∷ []

abbrev pub schema_field : String → LaicType → Detail
schema_field name (tensor dtype dims) =
    text "            pa.field(\""
      ∷ text name
      ∷ text "\", pa.binary(), nullable=False, metadata={\n"
      ∷ emit_tensor_metadata dtype dims
    ++ text "            }),\n" ∷ []
schema_field name (optional (tensor dtype dims)) =
    text "            pa.field(\""
      ∷ text name
      ∷ text "\", pa.binary(), nullable=True, metadata={\n"
      ∷ emit_tensor_metadata dtype dims
    ++ text "            }),\n" ∷ []
schema_field name (list (tensor dtype dims)) =
    text "            pa.field(\""
      ∷ text name
      ∷ text "\", pa.list_(pa.binary()), nullable=False, metadata={\n"
      ∷ emit_tensor_metadata dtype dims
    ++ text "            }),\n" ∷ []
schema_field name ty =
    text "            pa.field(\"" ∷ text name ∷ text "\", " ∷ pyarrow_type ty
    ++ text ", nullable=" ∷ text (if is_optional ty then "True" else "False") ∷ text "),\n" ∷ []

unfoldable pub emit_schema_field : FieldDef → Detail
emit_schema_field field = schema_field field.name field.ty

unfoldable pub emit_pydict_value : String → LaicType → Detail
emit_pydict_value name (map_ty _ _) =
    text "            \""
    ∷ text name
    ∷ text "\": [list(self."
    ∷ text name
    ∷ text ".items())],\n"
    ∷ []
emit_pydict_value name _ =
    text "            \"" ∷ text name ∷ text "\": [self." ∷ text name ∷ text "],\n" ∷ []

abbrev pub pydict_value : FieldDef → Detail
pydict_value field = emit_pydict_value field.name field.ty

unfoldable pub generate_to_ipc : SkillDef → StructDef → String → String → Detail
generate_to_ipc skill def direction version =
    text "    def to_ipc(self) -> bytes:\n"
      ∷ text "        \"\"\"Serialize to Arrow IPC stream format.\"\"\"\n"
      ∷ text "        schema = pa.schema([\n"
      ∷ for_each emit_schema_field def.fields
    ++ text "        ], metadata={\n"
      ∷ text "            b\"laic.skill_id\": "
      ∷ python_bytes_literal skill.id
    ++ text ",\n" ∷ text "            b\"laic.version\": " ∷ python_bytes_literal version
    ++ text ",\n"
      ∷ text "            b\"laic.direction\": b\""
      ∷ text direction
      ∷ text "\",\n"
      ∷ text "        })\n"
      ∷ text "        batch = pa.RecordBatch.from_pydict({\n"
      ∷ for_each pydict_value def.fields
    ++ text "        }, schema=schema)\n"
      ∷ text "        sink = pa.BufferOutputStream()\n"
      ∷ text "        writer = ipc.new_stream(sink, schema)\n"
      ∷ text "        writer.write_batch(batch)\n"
      ∷ text "        writer.close()\n"
      ∷ text "        return sink.getvalue().to_pybytes()\n"
      ∷ text "\n"
      ∷ []
