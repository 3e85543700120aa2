-- ===== src/Laicc/Codegen/Rust/DeserializeLists.antt =====
-- crates/laicc/src/codegen/rust_deserialize_fields.rs: how a generated `from_arrow_ipc` reads the
-- column of a list.
use laic.Prelude.{String, some, [], ◌∷◌, ◌++◌}
use laic.Prelude.Detail.{Detail, text}
use laic.Laicc.Ast.{LaicType, string, bytes, bool_ty, tensor, optional}
use laic.Laicc.Codegen.Emitted.{Emitted, ◌⧺◌, with_text}
use laic.Laicc.Codegen.Rust.Types.{arrow_array_type}
use laic.Laicc.Codegen.Rust.DeserializeTensors.{emit_tensor_metadata_validation}

abbrev pub list_inner_value_expr : LaicType → String
list_inner_value_expr string = "typed.value(i).to_string()"
list_inner_value_expr bytes = "typed.value(i).to_vec()"
list_inner_value_expr _ = "typed.value(i)"

abbrev pub list_items : String → LaicType → String → Detail
list_items name inner arr_type =
    text "            let typed = inner_arr.as_any().downcast_ref::<"
    ∷ text arr_type
    ∷ text ">()\n"
    ∷ text "                .ok_or(\"field '"
    ∷ text name
    ∷ text "': expected "
    ∷ text arr_type
    ∷ text "\")?;\n"
    ∷ text "            (0..typed.len()).map(|i| "
    ∷ text (list_inner_value_expr inner)
    ∷ text ").collect::<Vec<_>>()\n"
    ∷ []

abbrev pub list_optional_items : String → LaicType → String → Detail
list_optional_items name opt_inner arr_type =
    text "            let typed = inner_arr.as_any().downcast_ref::<"
    ∷ text arr_type
    ∷ text ">()\n"
    ∷ text "                .ok_or(\"field '"
    ∷ text name
    ∷ text "': expected "
    ∷ text arr_type
    ∷ text "\")?;\n"
    ∷ text "            (0..typed.len()).map(|i| if typed.is_null(i) { None } else { Some("
    ∷ text (list_inner_value_expr opt_inner)
    ∷ text ") }).collect::<Vec<_>>()\n"
    ∷ []

abbrev pub list_extraction : String → LaicType → Emitted
list_extraction name string = some (
    text "            let typed = inner_arr.as_any().downcast_ref::<StringArray>()\n"
    ∷ text "                .ok_or(\"field '"
    ∷ text name
    ∷ text "': expected StringArray\")?;\n"
    ∷ text "            (0..typed.len()).map(|i| typed.value(i).to_string()).collect::<Vec<_>>()\n"
    ∷ [])
list_extraction name bytes = some (
    text "            let typed = inner_arr.as_any().downcast_ref::<BinaryArray>()\n"
    ∷ text "                .ok_or(\"field '"
    ∷ text name
    ∷ text "': expected BinaryArray\")?;\n"
    ∷ text "            (0..typed.len()).map(|i| typed.value(i).to_vec()).collect::<Vec<_>>()\n"
    ∷ [])
list_extraction name bool_ty = some (
    text "            let typed = inner_arr.as_any().downcast_ref::<BooleanArray>()\n"
    ∷ text "                .ok_or(\"field '"
    ∷ text name
    ∷ text "': expected BooleanArray\")?;\n"
    ∷ text "            (0..typed.len()).map(|i| typed.value(i)).collect::<Vec<_>>()\n"
    ∷ [])
list_extraction name (optional opt_inner) =
    with_text (arrow_array_type opt_inner)
      (λ arr_type. some (list_optional_items name opt_inner arr_type))
list_extraction name (tensor dtype dims) = some (
    emit_tensor_metadata_validation name dtype dims
    ++ text "            let typed = inner_arr.as_any().downcast_ref::<BinaryArray>()\n"
      ∷ text "                .ok_or(\"field '"
      ∷ text name
      ∷ text "': expected BinaryArray\")?;\n"
      ∷ text "            (0..typed.len()).map(|i| typed.value(i).to_vec()).collect::<Vec<_>>()\n"
      ∷ [])
list_extraction name inner =
    with_text (arrow_array_type inner) (λ arr_type. some (list_items name inner arr_type))

abbrev pub list_extraction_head : String → Detail
list_extraction_head name =
    text "        let "
    ∷ text name
    ∷ text " = {\n"
    ∷ text "            let list_arr = batch.column_by_name(\""
    ∷ text name
    ∷ text "\")\n"
    ∷ text "                .and_then(|c| c.as_any().downcast_ref::<ListArray>())\n"
    ∷ text "                .ok_or(\"missing '"
    ∷ text name
    ∷ text "' ListArray\")?;\n"
    ∷ text "            let inner_arr = list_arr.value(0);\n"
    ∷ []

unfoldable pub emit_list_extraction : String → LaicType → Emitted
emit_list_extraction name inner =
    some (list_extraction_head name) ⧺ list_extraction name inner ⧺ some (text "        };\n" ∷ [])
