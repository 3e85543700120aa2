-- ===== src/Laicc/Codegen/Rust/Contract.antt =====
-- crates/laicc/src/codegen/rust_contract.rs: structs, error enums, and the whole generated file.
use laic.Prelude.{ℕ, String, some, List, [], ◌∷◌, ◌++◌}
use laic.Prelude.Detail.{Detail, text, dec}
use laic.Laicc.Ast.{FieldDef, StructDef, ErrorVariant, SkillDef, LaicFile}
use laic.Laicc.Codegen.Emitted.{Emitted, ◌⧺◌, for_each, emit_each}
use laic.Laicc.Codegen.Text.{rust_string_literal, pascal}
use laic.Laicc.Codegen.Rust.Types.{rust_type}
use laic.Laicc.Codegen.Rust.Serialize.{generate_to_arrow_ipc}
use laic.Laicc.Codegen.Rust.Deserialize.{generate_from_arrow_ipc}

abbrev pub enum_name : SkillDef → Detail
enum_name skill = pascal skill.name ++ text "Error" ∷ []

abbrev pub enum_variant : ErrorVariant → Detail
enum_variant variant =
    text "    " ∷ pascal variant.name ++ text " = " ∷ dec variant.code ∷ text ",\n" ∷ []

abbrev pub from_code_arm : ErrorVariant → Detail
from_code_arm variant =
    text "            " ∷ dec variant.code ∷ text " => Some(Self::" ∷ pascal variant.name
    ++ text "),\n" ∷ []

abbrev pub name_arm : ErrorVariant → Detail
name_arm variant =
    text "            Self::" ∷ pascal variant.name
    ++ text " => \"" ∷ text variant.name ∷ text "\",\n" ∷ []

unfoldable pub generate_error_enum : SkillDef → Detail
generate_error_enum skill =
    text "#[derive(Debug, Clone, Copy, PartialEq, Eq)]\n"
      ∷ text "#[repr(u16)]\n"
      ∷ text "pub enum "
      ∷ enum_name skill
    ++ text " {\n" ∷ for_each enum_variant skill.errors
    ++ text "}\n\n" ∷ text "impl " ∷ enum_name skill
    ++ text " {\n"
      ∷ text "    pub fn from_code(code: u16) -> Option<Self> {\n"
      ∷ text "        match code {\n"
      ∷ for_each from_code_arm skill.errors
    ++ text "            _ => None,\n"
      ∷ text "        }\n"
      ∷ text "    }\n\n"
      ∷ text "    pub fn code(&self) -> u16 {\n"
      ∷ text "        *self as u16\n"
      ∷ text "    }\n\n"
      ∷ text "    pub fn name(&self) -> &'static str {\n"
      ∷ text "        match self {\n"
      ∷ for_each name_arm skill.errors
    ++ text "        }\n" ∷ text "    }\n" ∷ text "}\n" ∷ []

abbrev pub struct_field : FieldDef → Detail
struct_field field =
    text "    pub " ∷ text field.name ∷ text ": " ∷ rust_type field.ty ++ text ",\n" ∷ []

abbrev pub struct_head : SkillDef → StructDef → String → String → Detail
struct_head skill def direction version =
    text "#[derive(Debug, Clone)]\n"
      ∷ text "pub struct "
      ∷ text def.name
      ∷ text " {\n"
      ∷ for_each struct_field def.fields
    ++ text "}\n\n"
      ∷ text "impl "
      ∷ text def.name
      ∷ text " {\n"
      ∷ text "    /// Skill ID for this struct.\n    pub fn skill_id() -> &'static str { "
      ∷ rust_string_literal skill.id
    ++ text " }\n\n"
      ∷ text "    /// Contract version.\n    pub fn version() -> &'static str { "
      ∷ rust_string_literal version
    ++ text " }\n\n"
      ∷ text "    /// Direction (input or output).\n    pub fn direction() -> &'static str { \""
      ∷ text direction
      ∷ text "\" }\n\n"
      ∷ []

-- `if !skill.errors.is_empty()`
abbrev pub error_enum : SkillDef → List ErrorVariant → Detail
error_enum skill [] = []
error_enum skill (_ ∷ _) = generate_error_enum skill ++ text "\n" ∷ []

abbrev pub file_head : Detail
file_head =
    text "// Generated by laicc — DO NOT EDIT.\n"
    ∷ text "//\n"
    ∷ text "// Dependencies required in your Cargo.toml:\n"
    ∷ text "//   arrow-array, arrow-schema, arrow-ipc\n\n"
    ∷ text "use arrow_array::*;\n"
    ∷ text "use arrow_array::builder::*;\n"
    ∷ text "use arrow_schema::*;\n"
    ∷ text "use std::collections::HashMap;\n"
    ∷ text "use std::sync::Arc;\n\n"
    ∷ []

module _ (show_float : ℕ → List ℕ) where
  unfoldable pub generate_struct : SkillDef → StructDef → String → String → Emitted
  generate_struct skill def direction version =
      some (struct_head skill def direction version)
      ⧺ generate_to_arrow_ipc skill def direction version
      ⧺ some (text "\n" ∷ [])
      ⧺ generate_from_arrow_ipc show_float def skill.id version direction
      ⧺ some (text "}\n" ∷ [])

  abbrev pub generate_skill : String → SkillDef → Emitted
  generate_skill version skill =
      generate_struct skill skill.input "input" version
      ⧺ some (text "\n" ∷ [])
      ⧺ generate_struct skill skill.output "output" version
      ⧺ some (text "\n" ∷ error_enum skill skill.errors)

  unfoldable pub generate_rust : LaicFile → Emitted
  generate_rust file = some file_head ⧺ emit_each (generate_skill file.version) file.skills
