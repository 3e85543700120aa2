-- ===== src/Laicc/Codegen/TypeScript/Contract.antt =====
-- crates/laicc/src/codegen/typescript_contract.rs: classes, error enums, and the whole generated file.
use laic.Prelude.{ℕ, String, Option, none, some, List, [], ◌∷◌, ◌++◌}
use laic.Prelude.Detail.{Detail, text, dec}
use laic.Laicc.Ast.{Literal, FieldDef, StructDef, ErrorVariant, SkillDef, LaicFile}
use laic.Laicc.Codegen.Emitted.{for_each}
use laic.Laicc.Codegen.Text.{typescript_string_literal, pascal}
use laic.Laicc.Codegen.TypeScript.Types.{ts_type, literal_to_ts}
use laic.Laicc.Codegen.TypeScript.Serialize.{generate_to_ipc}
use laic.Laicc.Codegen.TypeScript.Deserialize.{generate_from_ipc}

-- The functions that every generated file starts with.
unfoldable pub append_file_helpers : Detail
append_file_helpers =
    text "function laicSchemaMetadata(schema: any): Map<string, string> {\n"
    ∷ text "  return (schema.metadata ?? new Map()) as Map<string, string>;\n"
    ∷ text "}\n\n"
    ∷ text "function laicFieldMetadata(field: any): Map<string, string> {\n"
    ∷ text "  return (field.metadata ?? new Map()) as Map<string, string>;\n"
    ∷ text "}\n\n"
    ∷ text
        "function laicAssertMetadata(metadata: Map<string, string>, key: string, expected: string): void {\n"
    ∷ text "  const actual = metadata.get(key);\n"
    ∷ text "  if (actual === undefined) {\n"
    ∷ text "    throw new Error(`missing required metadata key '${key}'`);\n"
    ∷ text "  }\n"
    ∷ text "  if (actual !== expected) {\n"
    ∷ text
        "    throw new Error(`metadata '${key}' mismatch: expected '${expected}', got '${actual}'`);\n"
    ∷ text "  }\n"
    ∷ text "}\n\n"
    ∷ text
        "function laicAssertFieldType(field: any, fieldName: string, expectedType: any): void {\n"
    ∷ text "  const actual = field.type.toString();\n"
    ∷ text "  const expected = expectedType.toString();\n"
    ∷ text "  if (actual !== expected) {\n"
    ∷ text
        "    throw new Error(`field '${fieldName}': expected type ${expected}, got ${actual}`);\n"
    ∷ text "  }\n"
    ∷ text "}\n\n"
    ∷ text
        "function laicParseTensorShape(fieldName: string, metadata: Map<string, string>): number[] {\n"
    ∷ text "  const raw = metadata.get(\"laic.tensor.shape\");\n"
    ∷ text "  if (raw === undefined) {\n"
    ∷ text "    throw new Error(`field '${fieldName}': missing tensor shape metadata`);\n"
    ∷ text "  }\n"
    ∷ text "  const body = raw.trim().slice(1, -1).trim();\n"
    ∷ text "  if (body.length === 0) {\n"
    ∷ text "    return [];\n"
    ∷ text "  }\n"
    ∷ text "  return body.split(\",\").map((part) => {\n"
    ∷ text "    const value = Number.parseInt(part.trim(), 10);\n"
    ∷ text "    if (Number.isNaN(value)) {\n"
    ∷ text
        "      throw new Error(`field '${fieldName}': invalid tensor shape metadata '${raw}'`);\n"
    ∷ text "    }\n"
    ∷ text "    return value;\n"
    ∷ text "  });\n"
    ∷ text "}\n\n"
    ∷ text
        "function laicAssertTensorMetadata(field: any, fieldName: string, expectedDtype: string, expectedShape: number[]): void {\n"
    ∷ text "  const metadata = laicFieldMetadata(field);\n"
    ∷ text "  laicAssertMetadata(metadata, \"laic.tensor.dtype\", expectedDtype);\n"
    ∷ text "  const actualShape = laicParseTensorShape(fieldName, metadata);\n"
    ∷ text "  if (actualShape.length !== expectedShape.length) {\n"
    ∷ text
        "    throw new Error(`field '${fieldName}': expected ${expectedShape.length} dimensions, got ${actualShape.length}`);\n"
    ∷ text "  }\n"
    ∷ text "  for (let index = 0; index < expectedShape.length; index += 1) {\n"
    ∷ text "    const expectedDim = expectedShape[index]!;\n"
    ∷ text "    if (expectedDim !== 0 && actualShape[index] !== expectedDim) {\n"
    ∷ text
        "      throw new Error(`field '${fieldName}': dim ${index} expected ${expectedDim}, got ${actualShape[index]}`);\n"
    ∷ text "    }\n"
    ∷ text "  }\n"
    ∷ text "}\n\n"
    ∷ []

abbrev pub enum_variant : ErrorVariant → Detail
enum_variant variant =
    text "  " ∷ text variant.name ∷ text " = " ∷ dec variant.code ∷ text ",\n" ∷ []

unfoldable pub generate_error_enum : SkillDef → Detail
generate_error_enum skill =
    text "export enum " ∷ pascal skill.name
    ++ text "Error {\n" ∷ for_each enum_variant skill.errors
    ++ text "}\n" ∷ []

-- `if !skill.errors.is_empty()`
abbrev pub error_enum : SkillDef → List ErrorVariant → Detail
error_enum skill [] = []
error_enum skill (_ ∷ _) = generate_error_enum skill ++ text "\n" ∷ []

module _ (show_float : ℕ → List ℕ) where
  abbrev pub parameter : FieldDef → Option Literal → Detail
  parameter field (some default) =
      text "    public readonly " ∷ text field.name ∷ text ": " ∷ ts_type field.ty
      ++ text " = " ∷ literal_to_ts show_float default field.ty
      ++ text ",\n" ∷ []
  parameter field none =
      text "    public readonly " ∷ text field.name ∷ text ": " ∷ ts_type field.ty
      ++ text ",\n" ∷ []

  abbrev pub constructor_parameter : FieldDef → Detail
  constructor_parameter field = parameter field field.default

  unfoldable pub generate_class : SkillDef → StructDef → String → String → Detail
  generate_class skill def direction version =
      text "export class "
        ∷ text def.name
        ∷ text " {\n"
        ∷ text "  static readonly SKILL_ID = "
        ∷ typescript_string_literal skill.id
      ++ text ";\n" ∷ text "  static readonly VERSION = " ∷ typescript_string_literal version
      ++ text ";\n"
        ∷ text "  static readonly DIRECTION = \""
        ∷ text direction
        ∷ text "\";\n\n"
        ∷ text "  constructor(\n"
        ∷ for_each constructor_parameter def.fields
      ++ text "  ) {}\n\n" ∷ generate_to_ipc skill def direction version
      ++ generate_from_ipc show_float def skill.id version direction
      ++ text "}\n" ∷ []

  abbrev pub generate_skill : String → SkillDef → Detail
  generate_skill version skill =
      generate_class skill skill.input "input" version
      ++ text "\n" ∷ generate_class skill skill.output "output" version
      ++ text "\n" ∷ error_enum skill skill.errors

  unfoldable pub generate_typescript : LaicFile → Detail
  generate_typescript file =
      text "// Generated by laicc - DO NOT EDIT.\n\n"
        ∷ text "import * as arrow from \"apache-arrow\";\n\n"
        ∷ append_file_helpers
      ++ for_each (generate_skill file.version) file.skills
