-- ===== src/Laicc/Codegen/Rust/Columns.antt =====
-- crates/laicc/src/codegen/rust_serialize.rs: the columns of the generated
-- `to_arrow_ipc`.
use laic.Prelude.{String, some, [], ◌∷◌, ◌++◌, if◌then◌else◌}
use laic.Prelude.Detail.{Detail, text}
use laic.Laicc.Ast.{
  LaicType, string, bytes, bool_ty, i8_ty, i16_ty, i32_ty, i64_ty, u8_ty, f32_ty, f64_ty, tensor,
  list, optional, map_ty,
}
use laic.Laicc.Codegen.Emitted.{Emitted, with_text}
use laic.Laicc.Codegen.Rust.Types.{arrow_builder_type, needs_deref}

abbrev pub deref : LaicType → String
deref t = if needs_deref t then "*" else ""

-- The `append` of a list's elements; that of a list of options is written out by its own arm.
abbrev pub list_append : LaicType → Detail
list_append string = text "values.append_value(item);" ∷ []
list_append bytes = text "values.append_value(item);" ∷ []
list_append (tensor _ _) = text "values.append_value(item);" ∷ []
list_append inner = text "values.append_value(" ∷ text (deref inner) ∷ text "item);" ∷ []

abbrev pub optional_item_append : LaicType → Detail
optional_item_append string = text "values.append_value(v)" ∷ []
optional_item_append bytes = text "values.append_value(v)" ∷ []
optional_item_append inner = text "values.append_value(" ∷ text (deref inner) ∷ text "v)" ∷ []

-- The text after the choice of the builder.
abbrev pub optional_items_body : String → LaicType → String → Detail
optional_items_body name opt_inner inner_builder =
    text "{\n            let mut builder = ListBuilder::new("
      ∷ text inner_builder
      ∷ text "::new());\n"
      ∷ text "            let values = builder.values();\n"
      ∷ text "            for item in &self."
      ∷ text name
      ∷ text " {\n"
      ∷ text "                match item { Some(v) => "
      ∷ optional_item_append opt_inner
    ++ text ", None => values.append_null() };\n"
      ∷ text "            }\n"
      ∷ text "            builder.append(true);\n"
      ∷ text "            Arc::new(builder.finish())\n"
      ∷ text "        }"
      ∷ []

abbrev pub list_body : String → LaicType → String → Detail
list_body name inner builder =
    text "{\n            let mut builder = ListBuilder::new("
      ∷ text builder
      ∷ text "::new());\n"
      ∷ text "            let values = builder.values();\n"
      ∷ text "            for item in &self."
      ∷ text name
      ∷ text " {\n"
      ∷ text "                "
      ∷ list_append inner
    ++ text "\n"
      ∷ text "            }\n"
      ∷ text "            builder.append(true);\n"
      ∷ text "            Arc::new(builder.finish())\n"
      ∷ text "        }"
      ∷ []

-- The builder of the element type is asked for first, also of a list of options.
unfoldable pub emit_list_column : String → LaicType → Emitted
emit_list_column name (optional opt_inner) =
    with_text (arrow_builder_type (optional opt_inner)) (λ builder.
      with_text (arrow_builder_type opt_inner)
        (λ inner_builder. some (optional_items_body name opt_inner inner_builder)))
emit_list_column name inner =
    with_text (arrow_builder_type inner) (λ builder. some (list_body name inner builder))

abbrev pub option_list_append : LaicType → Detail
option_list_append string = text "values.append_value(item);" ∷ []
option_list_append bytes = text "values.append_value(item);" ∷ []
option_list_append inner = text "values.append_value(" ∷ text (deref inner) ∷ text "item);" ∷ []

abbrev pub optional_list_body : String → LaicType → String → Detail
optional_list_body name list_inner builder =
    text "{\n            let mut builder = ListBuilder::new("
      ∷ text builder
      ∷ text "::new());\n"
      ∷ text "            match &self."
      ∷ text name
      ∷ text " {\n"
      ∷ text "                Some(list) => {\n"
      ∷ text "                    let values = builder.values();\n"
      ∷ text "                    for item in list {\n"
      ∷ text "                        "
      ∷ option_list_append list_inner
    ++ text "\n"
      ∷ text "                    }\n"
      ∷ text "                    builder.append(true);\n"
      ∷ text "                }\n"
      ∷ text "                None => builder.append(false),\n"
      ∷ text "            }\n"
      ∷ text "            Arc::new(builder.finish())\n"
      ∷ text "        }"
      ∷ []

abbrev pub numeric_array : LaicType → String
numeric_array i8_ty = "Int8Array"
numeric_array i16_ty = "Int16Array"
numeric_array i32_ty = "Int32Array"
numeric_array i64_ty = "Int64Array"
numeric_array u8_ty = "UInt8Array"
numeric_array f32_ty = "Float32Array"
numeric_array f64_ty = "Float64Array"
numeric_array _ = "Int32Array"

unfoldable pub emit_optional_column : String → LaicType → Emitted
emit_optional_column name string =
    some (text "Arc::new(StringArray::from(vec![self." ∷ text name ∷ text ".as_deref()]))" ∷ [])
emit_optional_column name bytes =
    some (text "Arc::new(BinaryArray::from(vec![self." ∷ text name ∷ text ".as_deref()]))" ∷ [])
emit_optional_column name bool_ty =
    some (text "Arc::new(BooleanArray::from(vec![self." ∷ text name ∷ text "]))" ∷ [])
emit_optional_column name (tensor _ _) =
    some (text "Arc::new(BinaryArray::from(vec![self." ∷ text name ∷ text ".as_deref()]))" ∷ [])
emit_optional_column name (list list_inner) =
    with_text (arrow_builder_type list_inner)
      (λ builder. some (optional_list_body name list_inner builder))
emit_optional_column name inner = some (
    text "Arc::new("
    ∷ text (numeric_array inner)
    ∷ text "::from(vec![self."
    ∷ text name
    ∷ text "]))"
    ∷ [])

abbrev pub map_append_expr : LaicType → String → Detail
map_append_expr string var = text "append_value(" ∷ text var ∷ text ")" ∷ []
map_append_expr bytes var = text "append_value(" ∷ text var ∷ text ")" ∷ []
map_append_expr _ var = text "append_value(*" ∷ text var ∷ text ")" ∷ []

abbrev pub map_body : String → LaicType → LaicType → String → String → Detail
map_body name key value key_builder val_builder =
    text "{\n            let mut builder = MapBuilder::new(None, "
      ∷ text key_builder
      ∷ text "::new(), "
      ∷ text val_builder
      ∷ text "::new());\n"
      ∷ text "            for (k, v) in &self."
      ∷ text name
      ∷ text " {\n"
      ∷ text "                builder.keys()."
      ∷ map_append_expr key "k"
    ++ text ";\n" ∷ text "                builder.values()." ∷ map_append_expr value "v"
    ++ text ";\n"
      ∷ text "            }\n"
      ∷ text
          "            builder.append(true).map_err(|e| Box::new(e) as Box<dyn std::error::Error>)?;\n"
      ∷ text "            Arc::new(builder.finish())\n"
      ∷ text "        }"
      ∷ []

unfoldable pub emit_map_column : String → LaicType → LaicType → Emitted
emit_map_column name key value = with_text (arrow_builder_type key) (λ key_builder.
    with_text (arrow_builder_type value)
      (λ val_builder. some (map_body name key value key_builder val_builder)))

unfoldable pub emit_to_arrow_column : String → LaicType → Emitted
emit_to_arrow_column name string =
    some (text "Arc::new(StringArray::from(vec![self." ∷ text name ∷ text ".as_str()]))" ∷ [])
emit_to_arrow_column name bytes =
    some (text "Arc::new(BinaryArray::from(vec![self." ∷ text name ∷ text ".as_slice()]))" ∷ [])
emit_to_arrow_column name bool_ty =
    some (text "Arc::new(BooleanArray::from(vec![self." ∷ text name ∷ text "]))" ∷ [])
emit_to_arrow_column name i8_ty =
    some (text "Arc::new(Int8Array::from(vec![self." ∷ text name ∷ text "]))" ∷ [])
emit_to_arrow_column name i16_ty =
    some (text "Arc::new(Int16Array::from(vec![self." ∷ text name ∷ text "]))" ∷ [])
emit_to_arrow_column name i32_ty =
    some (text "Arc::new(Int32Array::from(vec![self." ∷ text name ∷ text "]))" ∷ [])
emit_to_arrow_column name i64_ty =
    some (text "Arc::new(Int64Array::from(vec![self." ∷ text name ∷ text "]))" ∷ [])
emit_to_arrow_column name u8_ty =
    some (text "Arc::new(UInt8Array::from(vec![self." ∷ text name ∷ text "]))" ∷ [])
emit_to_arrow_column name f32_ty =
    some (text "Arc::new(Float32Array::from(vec![self." ∷ text name ∷ text "]))" ∷ [])
emit_to_arrow_column name f64_ty =
    some (text "Arc::new(Float64Array::from(vec![self." ∷ text name ∷ text "]))" ∷ [])
emit_to_arrow_column name (tensor _ _) =
    some (text "Arc::new(BinaryArray::from(vec![self." ∷ text name ∷ text ".as_slice()]))" ∷ [])
emit_to_arrow_column name (list inner) = emit_list_column name inner
emit_to_arrow_column name (optional inner) = emit_optional_column name inner
emit_to_arrow_column name (map_ty k v) = emit_map_column name k v
