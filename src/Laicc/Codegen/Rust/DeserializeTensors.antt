-- ===== src/Laicc/Codegen/Rust/DeserializeTensors.antt =====
-- crates/laicc/src/codegen/rust_deserialize_fields.rs: how a generated `from_arrow_ipc` reads a
-- tensor, after it has checked the metadata of the column.
use laic.Prelude.{ℕ, suc, String, List, [], ◌∷◌, ◌++◌, length}
use laic.Prelude.Detail.{Detail, text, dec}
use laic.Laicc.Ast.{TensorElementType, as_str, Dimension, fixed, dynamic}

unfoldable pub emit_tensor_dtype_validation : String → TensorElementType → Detail
emit_tensor_dtype_validation name dtype =
    text "            let dtype_str = meta.get(\"laic.tensor.dtype\")\n"
    ∷ text "                .ok_or(\"field '"
    ∷ text name
    ∷ text "': missing tensor dtype metadata\")?;\n"
    ∷ text "            if dtype_str != \""
    ∷ text (as_str dtype)
    ∷ text "\" {\n"
    ∷ text "                return Err(format!(\"field '"
    ∷ text name
    ∷ text "': expected dtype "
    ∷ text (as_str dtype)
    ∷ text ", got {}\", dtype_str).into());\n"
    ∷ text "            }\n"
    ∷ []

-- The check of one constant size, at position `i`.
abbrev pub check_dim : String → ℕ → Dimension → Detail
check_dim name i (fixed size) =
    text "            if shape["
    ∷ dec i
    ∷ text "] != "
    ∷ dec size
    ∷ text " {\n"
    ∷ text "                return Err(format!(\"field '"
    ∷ text name
    ∷ text "': dim "
    ∷ dec i
    ∷ text " expected "
    ∷ dec size
    ∷ text ", got {}\", shape["
    ∷ dec i
    ∷ text "]).into());\n"
    ∷ text "            }\n"
    ∷ []
check_dim name i (dynamic _) = []

abbrev pub check_dims_from : String → ℕ → List Dimension → Detail
check_dims_from name i [] = []
check_dims_from name i (dim ∷ dims) = check_dim name i dim ++ check_dims_from name (suc i) dims

unfoldable pub emit_tensor_shape_validation : String → List Dimension → Detail
emit_tensor_shape_validation name dims =
    text "            let shape_str = meta.get(\"laic.tensor.shape\")\n"
    ∷ text "                .ok_or(\"field '"
    ∷ text name
    ∷ text "': missing tensor shape metadata\")?;\n"
    ∷ text "            let shape: Vec<usize> = shape_str.trim_matches(|c| c == '[' || c == ']')\n"
    ∷ text "                .split(',')\n"
    ∷ text "                .filter(|s| !s.is_empty())\n"
    ∷ text "                .map(|s| s.trim().parse::<usize>())\n"
    ∷ text "                .collect::<Result<_, _>>()?;\n"
    ∷ text "            if shape.len() != "
    ∷ dec (length dims)
    ∷ text " {\n"
    ∷ text "                return Err(format!(\"field '"
    ∷ text name
    ∷ text "': expected "
    ∷ dec (length dims)
    ∷ text " dimensions, got {}\", shape.len()).into());\n"
    ∷ text "            }\n"
    ∷ check_dims_from name 0 dims

unfoldable pub emit_tensor_metadata_validation :
    String → TensorElementType → List Dimension → Detail
emit_tensor_metadata_validation name dtype dims =
    text "            let schema = batch.schema();\n"
      ∷ text "            let field = schema.field_with_name(\""
      ∷ text name
      ∷ text "\")\n"
      ∷ text "                .map_err(|_| \"missing '"
      ∷ text name
      ∷ text "' field\".to_string())?;\n"
      ∷ text "            let meta = field.metadata();\n"
      ∷ emit_tensor_dtype_validation name dtype
    ++ emit_tensor_shape_validation name dims

unfoldable pub emit_tensor_extraction : String → TensorElementType → List Dimension → Detail
emit_tensor_extraction name dtype dims =
    text "        let "
      ∷ text name
      ∷ text " = {\n"
      ∷ emit_tensor_metadata_validation name dtype dims
    ++ text "            let col = batch.column_by_name(\""
      ∷ text name
      ∷ text "\")\n"
      ∷ text "                .and_then(|c| c.as_any().downcast_ref::<BinaryArray>())\n"
      ∷ text "                .ok_or(\"missing '"
      ∷ text name
      ∷ text "' BinaryArray\")?;\n"
      ∷ text "            col.value(0).to_vec()\n"
      ∷ text "        };\n"
      ∷ []
