-- ===== src/Laicc/Codegen/Python/Contract.antt =====
-- crates/laicc/src/codegen/python_contract.rs: dataclasses, error enums, and the whole generated file.
use laic.Prelude.{
  ℕ, Bool, true, false, String, Option, none, some, List, [], ◌∷◌, ◌++◌, if◌then◌else◌,
}
use laic.Prelude.Detail.{Detail, text, dec}
use laic.Laicc.Ast.{Literal, FieldDef, StructDef, ErrorVariant, SkillDef, LaicFile}
use laic.Laicc.Codegen.Emitted.{for_each}
use laic.Laicc.Codegen.Text.{python_string_literal, pascal}
use laic.Laicc.Codegen.Python.Types.{python_type, literal_to_python}
use laic.Laicc.Codegen.Python.Serialize.{generate_to_ipc}
use laic.Laicc.Codegen.Python.Deserialize.{generate_from_ipc}

abbrev pub enum_variant : ErrorVariant → Detail
enum_variant variant =
    text "    " ∷ text variant.name ∷ text " = " ∷ dec variant.code ∷ text "\n" ∷ []

unfoldable pub generate_error_enum : SkillDef → Detail
generate_error_enum skill =
    text "class " ∷ pascal skill.name
    ++ text "Error(enum.IntEnum):\n"
      ∷ text "    \"\"\"Error codes for skill "
      ∷ python_string_literal skill.id
    ++ text ".\"\"\"\n\n" ∷ for_each enum_variant skill.errors
    ++ text "\n" ∷ []

abbrev pub has_default : Option Literal → Bool
has_default none = false
has_default (some _) = true

-- `def.fields.iter().partition(|f| f.default.is_none())`
abbrev pub partition : List FieldDef → List FieldDef × List FieldDef
partition [] = ([], [])
partition (f ∷ fs) =
    let (without, with_default) = partition fs in
    if has_default f.default then (without, f ∷ with_default) else (f ∷ without, with_default)

abbrev pub field_without_default : FieldDef → Detail
field_without_default field =
    text "    " ∷ text field.name ∷ text ": " ∷ python_type field.ty ++ text "\n" ∷ []

-- `if !skill.errors.is_empty()`
abbrev pub error_enum : SkillDef → List ErrorVariant → Detail
error_enum skill [] = []
error_enum skill (_ ∷ _) = generate_error_enum skill ++ text "\n" ∷ []

module _ (show_float : ℕ → List ℕ) where
  -- `if let Some(lit) = &field.default`
  abbrev pub assigned : FieldDef → Option Literal → Detail
  assigned field (some lit) =
      text "    " ∷ text field.name ∷ text ": " ∷ python_type field.ty
      ++ text " = " ∷ literal_to_python show_float lit
      ++ text "\n" ∷ []
  assigned field none = []

  abbrev pub field_with_default : FieldDef → Detail
  field_with_default field = assigned field field.default

  unfoldable pub generate_fields : List FieldDef → Detail
  generate_fields fields =
      let (no_default, defaults) = partition fields in
      for_each field_without_default no_default ++ for_each field_with_default defaults

  unfoldable pub generate_dataclass : SkillDef → StructDef → String → String → Detail
  generate_dataclass skill def direction version =
      text "@dataclasses.dataclass\n"
        ∷ text "class "
        ∷ text def.name
        ∷ text ":\n"
        ∷ text "    \"\"\"LAIC contract: skill="
        ∷ python_string_literal skill.id
      ++ text ", direction='"
        ∷ text direction
        ∷ text "'.\"\"\"\n\n"
        ∷ text "    SKILL_ID: ClassVar[str] = "
        ∷ python_string_literal skill.id
      ++ text "\n" ∷ text "    VERSION: ClassVar[str] = " ∷ python_string_literal version
      ++ text "\n"
        ∷ text "    DIRECTION: ClassVar[str] = \""
        ∷ text direction
        ∷ text "\"\n\n"
        ∷ generate_fields def.fields
      ++ text "\n" ∷ generate_to_ipc skill def direction version
      ++ generate_from_ipc show_float def skill.id version direction

  abbrev pub generate_skill : String → SkillDef → Detail
  generate_skill version skill =
      generate_dataclass skill skill.input "input" version
      ++ text "\n" ∷ generate_dataclass skill skill.output "output" version
      ++ text "\n" ∷ error_enum skill skill.errors

  unfoldable pub generate_python : LaicFile → Detail
  generate_python file =
      text "# Generated by laicc — DO NOT EDIT.\n"
      ∷ text "from __future__ import annotations\n\n"
      ∷ text "import dataclasses\n"
      ∷ text "import enum\n"
      ∷ text "from typing import ClassVar\n\n"
      ∷ text "import pyarrow as pa\n"
      ∷ text "import pyarrow.ipc as ipc\n\n"
      ∷ for_each (generate_skill file.version) file.skills
