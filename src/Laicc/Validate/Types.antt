-- ===== src/Laicc/Validate/Types.antt =====
-- crates/laicc/src/validate.rs: the constraints on a field's type.
pub mod Supported
use laic.Prelude.{
  ℕ, Bool, true, false, not, String, List, [], ◌∷◌, Result, ok, err, done, ◌>>=◌, ◌>>◌, err_if,
  ◌==◌, if◌then◌else◌,
}
use laic.Prelude.Detail.{text}
use laic.Laicc.Ast.{
  Dimension, fixed, dynamic, LaicType, string, bytes, bool_ty, i8_ty, i16_ty, i32_ty, i64_ty, u8_ty,
  f32_ty, f64_ty, tensor, list, optional, map_ty, CompileError, validation,
}

-- `dims.iter().any(|d| matches!(d, Dimension::Fixed(0)))`, and the same for `Dynamic(_)`
abbrev pub any_fixed_zero : List Dimension → Bool
any_fixed_zero [] = false
any_fixed_zero (fixed n ∷ ds) = let rest = any_fixed_zero ds in if n == 0 then true else rest
any_fixed_zero (dynamic _ ∷ ds) = any_fixed_zero ds

abbrev pub any_dynamic : List Dimension → Bool
any_dynamic [] = false
any_dynamic (fixed _ ∷ ds) = any_dynamic ds
any_dynamic (dynamic _ ∷ ds) = true

abbrev pub no_dims : List Dimension → Bool
no_dims [] = true
no_dims (_ ∷ _) = false

abbrev pub is_leaf_type : LaicType → Bool
is_leaf_type (list _) = false
is_leaf_type (optional _) = false
is_leaf_type (map_ty _ _) = false
is_leaf_type _ = true

abbrev pub is_list : LaicType → Bool
is_list (list _) = true
is_list _ = false

abbrev pub is_optional : LaicType → Bool
is_optional (optional _) = true
is_optional _ = false

abbrev pub is_map : LaicType → Bool
is_map (map_ty _ _) = true
is_map _ = false

abbrev pub is_dynamic_tensor : LaicType → Bool
is_dynamic_tensor (tensor _ dims) = any_dynamic dims
is_dynamic_tensor _ = false

-- `if let Optional(opt_inner) = inner { if !is_leaf_type(opt_inner) ... }`, and the same for lists
abbrev pub is_deep_optional : LaicType → Bool
is_deep_optional (optional t) = not (is_leaf_type t)
is_deep_optional _ = false

abbrev pub is_deep_list : LaicType → Bool
is_deep_list (list t) = not (is_leaf_type t)
is_deep_list _ = false

abbrev pub is_map_key : LaicType → Bool
is_map_key string = true
is_map_key bool_ty = true
is_map_key i8_ty = true
is_map_key i16_ty = true
is_map_key i32_ty = true
is_map_key i64_ty = true
is_map_key u8_ty = true
is_map_key _ = false

abbrev pub is_map_value : LaicType → Bool
is_map_value (tensor _ _) = false
is_map_value (list _) = false
is_map_value (optional _) = false
is_map_value (map_ty _ _) = false
is_map_value _ = true

module _ (skill_name field_name : String) where
  -- `skill '...': field '...': ` and what is wrong.
  abbrev pub bad_field : String → CompileError
  bad_field what = validation (
      text "skill '"
      ∷ text skill_name
      ∷ text "': field '"
      ∷ text field_name
      ∷ text "': "
      ∷ text what
      ∷ [])

  abbrev pub bad_tensor : String → CompileError
  bad_tensor what = validation (
      text "skill '"
      ∷ text skill_name
      ∷ text "': tensor field '"
      ∷ text field_name
      ∷ text "' "
      ∷ text what
      ∷ [])

  unfoldable pub validate_tensor_dimensions : List Dimension → Result (Unit {0}) CompileError
  validate_tensor_dimensions dims = do
    err_if (no_dims dims) (bad_tensor "must have at least one dimension")
    err_if (any_fixed_zero dims) (bad_tensor "cannot use fixed dimension 0")

  -- What `validate_list_type_constraints` checks before it looks inside the element type.
  unfoldable pub list_constraints : LaicType → Result (Unit {0}) CompileError
  list_constraints inner = do
    err_if (is_list inner) (bad_field "nested list<list<T>> is not supported")
    err_if (is_dynamic_tensor inner)
        (bad_field "list<tensor<...>> with dynamic dimensions is not supported")
    err_if (is_map inner) (bad_field "list<map<...>> is not supported")
    err_if (is_deep_optional inner)
        (bad_field "list<optional<T>> requires T to be a scalar, string, bytes, or tensor type")

  -- The same of `validate_optional_type_constraints`.
  unfoldable pub optional_constraints : LaicType → Result (Unit {0}) CompileError
  optional_constraints inner = do
    err_if (is_optional inner) (bad_field "nested optional<optional<T>> is not supported")
    err_if (is_dynamic_tensor inner)
        (bad_field "optional<tensor<...>> with dynamic dimensions is not supported")
    err_if (is_map inner) (bad_field "optional<map<...>> is not supported")
    err_if (is_deep_list inner)
        (bad_field "optional<list<T>> requires T to be a scalar, string, bytes, or tensor type")

  unfoldable pub validate_map_type_constraints :
      LaicType → LaicType → Result (Unit {0}) CompileError
  validate_map_type_constraints key value = do
    err_if (not (is_map_key key)) (bad_field "map key must be string, bool, or integer type")
    err_if (not (is_map_value value)) (bad_field "map value must be a scalar type")

  -- With the calls of `validate_list_type_constraints` and `validate_optional_type_constraints`,
  -- which end in a call of this on the element type, written out.
  unfoldable pub validate_field_type : LaicType → Result (Unit {0}) CompileError
  validate_field_type (tensor _ dims) = validate_tensor_dimensions dims
  validate_field_type (list inner) = list_constraints inner >> validate_field_type inner
  validate_field_type (optional inner) = optional_constraints inner >> validate_field_type inner
  validate_field_type (map_ty key value) = validate_map_type_constraints key value
  validate_field_type _ = done
