-- ===== src/Laicc/Validate/File.antt =====
-- crates/laicc/src/validate.rs: fields, structs, skills and the file.
pub mod Defaults
pub mod Accepted
use laic.Prelude.{
  ℕ, Bool, true, false, not, ◌&&◌, ◌||◌, String, str_eq, Option, none, some, List, [], ◌∷◌, Result,
  ok, err, done, ◌>>=◌, ◌>>◌, err_if, if◌then◌else◌,
}
use laic.Prelude.Detail.{Piece, text, plain}
use laic.Laicc.Ast.{
  ℤ, pos, negsuc, ltℤ, LaicType, string, bytes, bool_ty, i8_ty, i16_ty, i32_ty, i64_ty, u8_ty,
  f32_ty, f64_ty, tensor, list, optional, map_ty, Literal, string_lit, integer, float, bool_lit,
  FieldDef, StructDef, SkillDef, LaicFile, CompileError, validation,
}
use laic.Laicc.Validate.Types.{validate_field_type}
use laic.Laicc.Validate.Names.{contains, validate_codegen_identifier, validate_errors}

unfoldable pub integer_default_bounds : LaicType → Option (String × ℤ × ℤ)
integer_default_bounds i8_ty = some ("i8", negsuc 127, pos 127)
integer_default_bounds i16_ty = some ("i16", negsuc 32767, pos 32767)
integer_default_bounds i32_ty = some ("i32", negsuc 2147483647, pos 2147483647)
integer_default_bounds u8_ty = some ("u8", pos 0, pos 255)
integer_default_bounds _ = none

abbrev pub cannot_default : LaicType → Bool
cannot_default bytes = true
cannot_default (tensor _ _) = true
cannot_default (list _) = true
cannot_default (optional _) = true
cannot_default (map_ty _ _) = true
cannot_default _ = false

abbrev pub is_integer_like : LaicType → Bool
is_integer_like i8_ty = true
is_integer_like i16_ty = true
is_integer_like i32_ty = true
is_integer_like i64_ty = true
is_integer_like u8_ty = true
is_integer_like f32_ty = true
is_integer_like f64_ty = true
is_integer_like _ = false

abbrev pub is_float : LaicType → Bool
is_float f32_ty = true
is_float f64_ty = true
is_float _ = false

abbrev pub compatible : LaicType → Literal → Bool
compatible string (string_lit _) = true
compatible bool_ty (bool_lit _) = true
compatible ty (integer _) = is_integer_like ty
compatible ty (float _) = is_float ty
compatible _ _ = false

abbrev pub is_empty_string : String → Bool
is_empty_string s = str_eq s ""

abbrev pub no_fields : List FieldDef → Bool
no_fields [] = true
no_fields (_ ∷ _) = false

abbrev pub no_skills : List SkillDef → Bool
no_skills [] = true
no_skills (_ ∷ _) = false

-- `format!("{direction} struct name")`, for the two directions there are.
abbrev pub struct_context : String → String
struct_context direction =
    if str_eq direction "input" then "input struct name" else "output struct name"

-- How `{:?}` prints a type, and how `{}` prints an `i64`, are arguments.
module _ (debug : LaicType → Piece) (show : ℤ → Piece) where
  abbrev pub out_of_bounds :
      String → String → ℤ → Option (String × ℤ × ℤ) → Result (Unit {0}) CompileError
  out_of_bounds skill_name field_name value none = done
  out_of_bounds skill_name field_name value (some (type_name, min, max)) =
      err_if (ltℤ value min || ltℤ max value) (
        validation (
          text "skill '"
          ∷ text skill_name
          ∷ text "': field '"
          ∷ text field_name
          ∷ text "' default value "
          ∷ show value
          ∷ text " is out of range for "
          ∷ text type_name
          ∷ text " ("
          ∷ show min
          ∷ text "..="
          ∷ show max
          ∷ text ")"
          ∷ []))

  abbrev pub in_bounds :
      String → String → Literal → Option (String × ℤ × ℤ) → Result (Unit {0}) CompileError
  in_bounds skill_name field_name (integer value) bounds =
      out_of_bounds skill_name field_name value bounds
  in_bounds skill_name field_name _ bounds = done

  unfoldable pub validate_default_compat :
      String → String → LaicType → Literal → Result (Unit {0}) CompileError
  validate_default_compat skill_name field_name ty default = do
    err_if (cannot_default ty) (
        validation (
          text "skill '"
          ∷ text skill_name
          ∷ text "': field '"
          ∷ text field_name
          ∷ text "' of type "
          ∷ debug ty
          ∷ text " cannot have a default value"
          ∷ []))
    err_if (not (compatible ty default)) (
        validation (
          text "skill '"
          ∷ text skill_name
          ∷ text "': field '"
          ∷ text field_name
          ∷ text "' has incompatible default value type"
          ∷ []))
    in_bounds skill_name field_name default (integer_default_bounds ty)

  unfoldable pub validate_default :
      String → String → LaicType → Option Literal → Result (Unit {0}) CompileError
  validate_default skill_name field_name ty none = done
  validate_default skill_name field_name ty (some default) =
      validate_default_compat skill_name field_name ty default

  unfoldable pub validate_field : String → FieldDef → Result (Unit {0}) CompileError
  validate_field skill_name field = do
    validate_codegen_identifier skill_name "field name" field.name
    validate_default skill_name field.name field.ty field.default
    validate_field_type skill_name field.name field.ty

  -- The loop of `validate_struct`, with the names of the fields before.
  unfoldable pub validate_fields_from :
      String → String → String → List String → List FieldDef → Result (Unit {0}) CompileError
  validate_fields_from skill_name direction struct_name names [] = done
  validate_fields_from skill_name direction struct_name names (field ∷ fields) =
      err_if (contains field.name names) (
        validation (
          text "skill '"
          ∷ text skill_name
          ∷ text "': duplicate field '"
          ∷ text field.name
          ∷ text "' in "
          ∷ text direction
          ∷ text " struct '"
          ∷ text struct_name
          ∷ text "'"
          ∷ []))
      >> validate_field skill_name field
      >> validate_fields_from skill_name direction struct_name (field.name ∷ names) fields

  unfoldable pub validate_struct : String → String → StructDef → Result (Unit {0}) CompileError
  validate_struct skill_name direction def = do
    err_if (is_empty_string def.name) (
        validation (
          text "skill '"
          ∷ text skill_name
          ∷ text "': "
          ∷ text direction
          ∷ text " struct name must not be empty"
          ∷ []))
    err_if (no_fields def.fields) (
        validation (
          text "skill '"
          ∷ text skill_name
          ∷ text "': "
          ∷ text direction
          ∷ text " struct '"
          ∷ text def.name
          ∷ text "' must have at least one field"
          ∷ []))
    validate_codegen_identifier skill_name (struct_context direction) def.name
    validate_fields_from skill_name direction def.name [] def.fields

  unfoldable pub validate_skill :
      List String → List String → SkillDef → Result (Unit {0}) CompileError
  validate_skill skill_names skill_ids skill = do
    err_if (contains skill.name skill_names)
        (validation (text "duplicate skill name: '" ∷ text skill.name ∷ text "'" ∷ []))
    err_if (contains skill.id skill_ids)
        (validation (text "duplicate skill id: '" ∷ text skill.id ∷ text "'" ∷ []))
    err_if (is_empty_string skill.id)
        (validation (text "skill '" ∷ text skill.name ∷ text "': id must not be empty" ∷ []))
    validate_codegen_identifier skill.name "skill name" skill.name
    validate_struct skill.name "input" skill.input
    validate_struct skill.name "output" skill.output
    validate_errors skill.name skill.errors

  unfoldable pub validate_skills_from :
      List String → List String → List SkillDef → Result (Unit {0}) CompileError
  validate_skills_from skill_names skill_ids [] = done
  validate_skills_from skill_names skill_ids (skill ∷ skills) =
      validate_skill skill_names skill_ids skill
      >> validate_skills_from (skill.name ∷ skill_names) (skill.id ∷ skill_ids) skills

  unfoldable pub validate : LaicFile → Result (Unit {0}) CompileError
  validate file = do
    err_if (is_empty_string file.version) (validation (plain "version string must not be empty"))
    err_if (no_skills file.skills)
        (validation (plain "file must contain at least one skill definition"))
    validate_skills_from [] [] file.skills
