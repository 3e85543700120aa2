-- ===== src/Laicc/Codegen/Rust/DeserializeFields.antt =====
-- crates/laicc/src/codegen/rust_deserialize_fields.rs: how a generated `from_arrow_ipc` reads the
-- columns of options and maps.
use laic.Prelude.{String, some, [], ◌∷◌, ◌++◌}
use laic.Prelude.Detail.{Detail, text}
use laic.Laicc.Ast.{LaicType, string, bytes, bool_ty, tensor, list}
use laic.Laicc.Codegen.Emitted.{Emitted, ◌⧺◌, with_text}
use laic.Laicc.Codegen.Rust.Types.{arrow_array_type}
use laic.Laicc.Codegen.Rust.DeserializeTensors.{emit_tensor_metadata_validation}
use laic.Laicc.Codegen.Rust.DeserializeLists.{list_inner_value_expr}

abbrev pub primitive_value_expr : LaicType → String
primitive_value_expr string = ".value(0).to_string()"
primitive_value_expr _ = ".value(0)"

abbrev pub optional_list_value : String → LaicType → String → Detail
optional_list_value name list_inner arr_type =
    text "                let list_arr = col.as_any().downcast_ref::<ListArray>()\n"
    ∷ text "                    .ok_or(\"field '"
    ∷ text name
    ∷ text "': expected ListArray\")?;\n"
    ∷ text "                let inner_arr = list_arr.value(0);\n"
    ∷ text "                let typed = inner_arr.as_any().downcast_ref::<"
    ∷ text arr_type
    ∷ text ">()\n"
    ∷ text "                    .ok_or(\"field '"
    ∷ text name
    ∷ text "': expected "
    ∷ text arr_type
    ∷ text "\")?;\n"
    ∷ text "                Some((0..typed.len()).map(|i| "
    ∷ text (list_inner_value_expr list_inner)
    ∷ text ").collect::<Vec<_>>())\n"
    ∷ []

abbrev pub optional_value : String → LaicType → String → Detail
optional_value name inner arr_type =
    text "                Some(col.as_any().downcast_ref::<"
    ∷ text arr_type
    ∷ text ">()\n"
    ∷ text "                    .ok_or(\"field '"
    ∷ text name
    ∷ text "': expected "
    ∷ text arr_type
    ∷ text "\")?\n"
    ∷ text "                    "
    ∷ text (primitive_value_expr inner)
    ∷ text ")\n"
    ∷ []

abbrev pub optional_extraction : String → LaicType → Emitted
optional_extraction name string = some (
    text "                Some(col.as_any().downcast_ref::<StringArray>()\n"
    ∷ text "                    .ok_or(\"field '"
    ∷ text name
    ∷ text "': expected StringArray\")?\n"
    ∷ text "                    .value(0).to_string())\n"
    ∷ [])
optional_extraction name bytes = some (
    text "                Some(col.as_any().downcast_ref::<BinaryArray>()\n"
    ∷ text "                    .ok_or(\"field '"
    ∷ text name
    ∷ text "': expected BinaryArray\")?\n"
    ∷ text "                    .value(0).to_vec())\n"
    ∷ [])
optional_extraction name bool_ty = some (
    text "                Some(col.as_any().downcast_ref::<BooleanArray>()\n"
    ∷ text "                    .ok_or(\"field '"
    ∷ text name
    ∷ text "': expected BooleanArray\")?\n"
    ∷ text "                    .value(0))\n"
    ∷ [])
optional_extraction name (tensor _ _) = some (
    text "                Some(col.as_any().downcast_ref::<BinaryArray>()\n"
    ∷ text "                    .ok_or(\"field '"
    ∷ text name
    ∷ text "': expected BinaryArray\")?\n"
    ∷ text "                    .value(0).to_vec())\n"
    ∷ [])
optional_extraction name (list list_inner) =
    with_text (arrow_array_type list_inner)
      (λ arr_type. some (optional_list_value name list_inner arr_type))
optional_extraction name inner =
    with_text (arrow_array_type inner) (λ arr_type. some (optional_value name inner arr_type))

-- `if let LaicType::Tensor { dtype, dims } = inner`
abbrev pub tensor_validation : String → LaicType → Detail
tensor_validation name (tensor dtype dims) = emit_tensor_metadata_validation name dtype dims
tensor_validation name _ = []

abbrev pub optional_extraction_head : String → LaicType → Detail
optional_extraction_head name inner =
    text "        let "
      ∷ text name
      ∷ text " = {\n"
      ∷ text "            let col = batch.column_by_name(\""
      ∷ text name
      ∷ text "\")\n"
      ∷ text "                .ok_or(\"missing '"
      ∷ text name
      ∷ text "' column\")?;\n"
      ∷ tensor_validation name inner
    ++ text "            if col.is_null(0) {\n"
      ∷ text "                None\n"
      ∷ text "            } else {\n"
      ∷ []

unfoldable pub emit_optional_extraction : String → LaicType → Emitted
emit_optional_extraction name inner =
    some (optional_extraction_head name inner)
    ⧺ optional_extraction name inner
    ⧺ some (text "            }\n" ∷ text "        };\n" ∷ [])

abbrev pub map_value_expr : LaicType → String → Detail
map_value_expr string arr_var = text arr_var ∷ text ".value(i).to_string()" ∷ []
map_value_expr bytes arr_var = text arr_var ∷ text ".value(i).to_vec()" ∷ []
map_value_expr _ arr_var = text arr_var ∷ text ".value(i)" ∷ []

abbrev pub map_extraction : String → LaicType → LaicType → String → String → Detail
map_extraction name key value key_arr_type val_arr_type =
    text "        let "
      ∷ text name
      ∷ text " = {\n"
      ∷ text "            let map_arr = batch.column_by_name(\""
      ∷ text name
      ∷ text "\")\n"
      ∷ text "                .and_then(|c| c.as_any().downcast_ref::<MapArray>())\n"
      ∷ text "                .ok_or(\"missing '"
      ∷ text name
      ∷ text "' MapArray\")?;\n"
      ∷ text "            let entries = map_arr.value(0);\n"
      ∷ text "            let struct_arr = entries.as_any().downcast_ref::<StructArray>()\n"
      ∷ text "                .ok_or(\"field '"
      ∷ text name
      ∷ text "': expected StructArray\")?;\n"
      ∷ text "            let key_arr = struct_arr.column(0).as_any().downcast_ref::<"
      ∷ text key_arr_type
      ∷ text ">()\n"
      ∷ text "                .ok_or(\"field '"
      ∷ text name
      ∷ text "': expected "
      ∷ text key_arr_type
      ∷ text " for keys\")?;\n"
      ∷ text "            let val_arr = struct_arr.column(1).as_any().downcast_ref::<"
      ∷ text val_arr_type
      ∷ text ">()\n"
      ∷ text "                .ok_or(\"field '"
      ∷ text name
      ∷ text "': expected "
      ∷ text val_arr_type
      ∷ text " for values\")?;\n"
      ∷ text "            let mut map = HashMap::new();\n"
      ∷ text "            for i in 0..key_arr.len() {\n"
      ∷ text "                let k = "
      ∷ map_value_expr key "key_arr"
    ++ text ";\n" ∷ text "                let v = " ∷ map_value_expr value "val_arr"
    ++ text ";\n"
      ∷ text "                map.insert(k, v);\n"
      ∷ text "            }\n"
      ∷ text "            map\n"
      ∷ text "        };\n"
      ∷ []

unfoldable pub emit_map_extraction : String → LaicType → LaicType → Emitted
emit_map_extraction name key value = with_text (arrow_array_type key) (λ key_arr_type.
    with_text (arrow_array_type value)
      (λ val_arr_type. some (map_extraction name key value key_arr_type val_arr_type)))
