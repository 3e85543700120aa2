-- ===== src/Laicc/Codegen/Python/Deserialize.antt =====
-- crates/laicc/src/codegen/python_deserialize.rs: the generated `from_ipc`.
use laic.Prelude.{ℕ, String, Option, none, some, List, [], ◌∷◌, ◌++◌}
use laic.Prelude.Detail.{Detail, text}
use laic.Laicc.Ast.{LaicType, tensor, list, optional, map_ty, Literal, FieldDef, StructDef}
use laic.Laicc.Codegen.Emitted.{for_each}
use laic.Laicc.Codegen.Text.{python_bytes_literal}
use laic.Laicc.Codegen.Python.Tensors.{emit_tensor_metadata_validation, emit_tensor_extraction}
use laic.Laicc.Codegen.Python.Types.{pyarrow_type, literal_to_python}

-- The body of the loop over the three metadata keys.
abbrev pub check_metadata : String × String → Detail
check_metadata (key, expected) =
    text "        _v = meta.get(b\""
      ∷ text key
      ∷ text "\")\n"
      ∷ text "        if _v is None:\n"
      ∷ text "            raise ValueError(\"missing required metadata key '"
      ∷ text key
      ∷ text "'\")\n"
      ∷ text "        if _v != "
      ∷ python_bytes_literal expected
    ++ text ":\n"
      ∷ text "            raise ValueError(f\"metadata '"
      ∷ text key
      ∷ text "' mismatch: got '{_v.decode()}'\")\n"
      ∷ []

unfoldable pub emit_metadata_validation : String → String → String → Detail
emit_metadata_validation skill_id version direction =
    text "        meta = batch.schema.metadata or {}\n"
    ∷ for_each check_metadata (
        ("laic.skill_id", skill_id)
        ∷ ("laic.version", version)
        ∷ ("laic.direction", direction)
        ∷ [])

unfoldable pub emit_list_extraction : String → LaicType → Detail
emit_list_extraction name (tensor dtype dims) =
    emit_tensor_metadata_validation name dtype dims
    ++ text "        "
      ∷ text name
      ∷ text " = [v.as_py() for v in batch.column(\""
      ∷ text name
      ∷ text "\")[0].values]\n"
      ∷ []
emit_list_extraction name _ =
    text "        "
    ∷ text name
    ∷ text " = batch.column(\""
    ∷ text name
    ∷ text "\")[0].as_py()\n"
    ∷ []

abbrev pub optional_value : String → Detail
optional_value name =
    text "        _val = batch.column(\""
    ∷ text name
    ∷ text "\")[0]\n"
    ∷ text "        "
    ∷ text name
    ∷ text " = None if not _val.is_valid else _val.as_py()\n"
    ∷ []

unfoldable pub emit_optional_extraction : String → LaicType → Detail
emit_optional_extraction name (tensor dtype dims) =
    emit_tensor_metadata_validation name dtype dims ++ optional_value name
emit_optional_extraction name _ = optional_value name

unfoldable pub emit_map_extraction : String → LaicType → LaicType → Detail
emit_map_extraction name _ _ =
    text "        _map_val = batch.column(\""
    ∷ text name
    ∷ text "\")[0].as_py()\n"
    ∷ text "        "
    ∷ text name
    ∷ text " = dict(_map_val) if _map_val is not None else {}\n"
    ∷ []

module _ (show_float : ℕ → List ℕ) where
  abbrev pub scalar_extraction : String → Detail → Option Literal → Detail
  scalar_extraction name expected_type (some lit) =
      text "        _col = batch.column(\""
        ∷ text name
        ∷ text "\") if \""
        ∷ text name
        ∷ text "\" in batch.schema.names else None\n"
        ∷ text "        if _col is not None:\n"
        ∷ text "            _field = batch.schema.field(\""
        ∷ text name
        ∷ text "\")\n"
        ∷ text "            if _field.type != "
        ∷ expected_type
      ++ text ":\n"
        ∷ text "                raise ValueError(f\"field '"
        ∷ text name
        ∷ text "': expected "
        ∷ expected_type
      ++ text ", got {_field.type}\")\n"
        ∷ text "            "
        ∷ text name
        ∷ text " = _col[0].as_py()\n"
        ∷ text "        else:\n"
        ∷ text "            "
        ∷ text name
        ∷ text " = "
        ∷ literal_to_python show_float lit
      ++ text "\n" ∷ []
  scalar_extraction name expected_type none =
      text "        _col = batch.column(\""
        ∷ text name
        ∷ text "\")\n"
        ∷ text "        _field = batch.schema.field(\""
        ∷ text name
        ∷ text "\")\n"
        ∷ text "        if _field.type != "
        ∷ expected_type
      ++ text ":\n"
        ∷ text "            raise ValueError(f\"field '"
        ∷ text name
        ∷ text "': expected "
        ∷ expected_type
      ++ text ", got {_field.type}\")\n"
        ∷ text "        "
        ∷ text name
        ∷ text " = _col[0].as_py()\n"
        ∷ []

  unfoldable pub emit_scalar_extraction : String → LaicType → Option Literal → Detail
  emit_scalar_extraction name ty default = scalar_extraction name (pyarrow_type ty) default

  abbrev pub field_extraction : String → Option Literal → LaicType → Detail
  field_extraction name default (tensor dtype dims) = emit_tensor_extraction name dtype dims
  field_extraction name default (list inner) = emit_list_extraction name inner
  field_extraction name default (optional inner) = emit_optional_extraction name inner
  field_extraction name default (map_ty k v) = emit_map_extraction name k v
  field_extraction name default ty = emit_scalar_extraction name ty default

  unfoldable pub emit_field_extraction : FieldDef → Detail
  emit_field_extraction field = field_extraction field.name field.default field.ty

  abbrev pub keyword_argument : FieldDef → Detail
  keyword_argument field =
      text "            " ∷ text field.name ∷ text "=" ∷ text field.name ∷ text ",\n" ∷ []

  unfoldable pub generate_from_ipc : StructDef → String → String → String → Detail
  generate_from_ipc def skill_id version direction =
      text "    @classmethod\n"
        ∷ text "    def from_ipc(cls, data: bytes) -> "
        ∷ text def.name
        ∷ text ":\n"
        ∷ text "        \"\"\"Deserialize from Arrow IPC stream format.\"\"\"\n"
        ∷ text "        reader = ipc.open_stream(data)\n"
        ∷ text "        batch = reader.read_next_batch()\n"
        ∷ text "        if batch.num_rows == 0:\n"
        ∷ text
            "            raise ValueError(\"cardinality error: RecordBatch has 0 rows, expected 1\")\n"
        ∷ text "        if batch.num_rows > 1:\n"
        ∷ text "            raise ValueError(\n"
        ∷ text
            "                f\"cardinality error: RecordBatch has {batch.num_rows} rows, expected 1\"\n"
        ∷ text "            )\n"
        ∷ text "        try:\n"
        ∷ text "            reader.read_next_batch()\n"
        ∷ text
            "            raise ValueError(\"cardinality error: stream contains more than one RecordBatch\")\n"
        ∷ text "        except StopIteration:\n"
        ∷ text "            pass\n"
        ∷ emit_metadata_validation skill_id version direction
      ++ for_each emit_field_extraction def.fields
      ++ text "        return cls(\n" ∷ for_each keyword_argument def.fields
      ++ text "        )\n" ∷ text "\n" ∷ []
