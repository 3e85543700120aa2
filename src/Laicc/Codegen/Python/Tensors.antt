-- ===== src/Laicc/Codegen/Python/Tensors.antt =====
-- crates/laicc/src/codegen/python_deserialize.rs: how a generated `from_ipc` reads a tensor, and
-- checks the metadata of its column.
use laic.Prelude.{ℕ, suc, String, List, [], ◌∷◌, ◌++◌, length}
use laic.Prelude.Detail.{Detail, text, dec}
use laic.Laicc.Ast.{TensorElementType, as_str, Dimension, fixed, dynamic}

-- The check of one constant size, at position `i`.
abbrev pub check_dim : String → ℕ → Dimension → Detail
check_dim name i (fixed size) =
    text "        if _shape["
    ∷ dec i
    ∷ text "] != "
    ∷ dec size
    ∷ text ":\n"
    ∷ text "            raise ValueError(f\"field '"
    ∷ text name
    ∷ text "': dim "
    ∷ dec i
    ∷ text " expected "
    ∷ dec size
    ∷ text ", got {_shape["
    ∷ dec i
    ∷ text "]}\")\n"
    ∷ []
check_dim name i (dynamic _) = []

abbrev pub check_dims_from : String → ℕ → List Dimension → Detail
check_dims_from name i [] = []
check_dims_from name i (dim ∷ dims) = check_dim name i dim ++ check_dims_from name (suc i) dims

unfoldable pub emit_tensor_metadata_validation :
    String → TensorElementType → List Dimension → Detail
emit_tensor_metadata_validation name dtype dims =
    text "        _field = batch.schema.field(\""
    ∷ text name
    ∷ text "\")\n"
    ∷ text "        _fmeta = _field.metadata or {}\n"
    ∷ text "        _dtype = _fmeta.get(b\"laic.tensor.dtype\")\n"
    ∷ text "        if _dtype is None:\n            raise ValueError(\"field '"
    ∷ text name
    ∷ text "': missing tensor dtype metadata\")\n"
    ∷ text "        if _dtype != b\""
    ∷ text (as_str dtype)
    ∷ text "\":\n"
    ∷ text "            raise ValueError(f\"field '"
    ∷ text name
    ∷ text "': expected dtype "
    ∷ text (as_str dtype)
    ∷ text ", got {_dtype.decode()}\")\n"
    ∷ text "        _shape_str = _fmeta.get(b\"laic.tensor.shape\")\n"
    ∷ text "        if _shape_str is None:\n            raise ValueError(\"field '"
    ∷ text name
    ∷ text "': missing tensor shape metadata\")\n"
    ∷ text
        "        _shape = [int(x) for x in _shape_str.decode().strip(\"[]\").split(\",\") if x]\n"
    ∷ text "        if len(_shape) != "
    ∷ dec (length dims)
    ∷ text ":\n"
    ∷ text "            raise ValueError(f\"field '"
    ∷ text name
    ∷ text "': expected "
    ∷ dec (length dims)
    ∷ text " dimensions, got {len(_shape)}\")\n"
    ∷ check_dims_from name 0 dims

unfoldable pub emit_tensor_extraction : String → TensorElementType → List Dimension → Detail
emit_tensor_extraction name dtype dims =
    text "        "
    ∷ text name
    ∷ text " = batch.column(\""
    ∷ text name
    ∷ text "\")[0].as_py()\n"
    ∷ emit_tensor_metadata_validation name dtype dims
