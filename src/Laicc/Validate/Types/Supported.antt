-- ===== src/Laicc/Validate/Types/Supported.antt =====
-- The types that validation lets through, described by their shape.
use laic.Prelude.{
  ℕ, ◌+◌, ◌≤◌, ◌≡◌, ◌↔◌, ◌⊎◌, Bool, true, false, not, ◌&&◌, String, List, done, arith,
}
use laic.Laicc.Ast.{Dimension, LaicType, tensor, list, optional, map_ty}
use laic.Laicc.Validate.Types.{
  any_fixed_zero, any_dynamic, no_dims, is_map_key, is_map_value, validate_tensor_dimensions,
  list_constraints, optional_constraints, validate_map_type_constraints, validate_field_type,
}

-- A shape that can be generated: it has a dimension, and none is the constant 0.
abbrev pub sound_dims : List Dimension → Bool
sound_dims dims = not (no_dims dims) && not (any_fixed_zero dims)

-- What may stand inside a list or an option: a scalar, or a tensor of one constant shape.
abbrev pub is_element : LaicType → Bool
is_element (tensor _ dims) = sound_dims dims && not (any_dynamic dims)
is_element (list _) = false
is_element (optional _) = false
is_element (map_ty _ _) = false
is_element _ = true

-- What may stand inside a list: an element or an option of one; and the other way round.
abbrev pub is_list_item : LaicType → Bool
is_list_item (optional t) = is_element t
is_list_item t = is_element t

abbrev pub is_option_item : LaicType → Bool
is_option_item (list t) = is_element t
is_option_item t = is_element t

abbrev pub supported : LaicType → Bool
supported (tensor _ dims) = sound_dims dims
supported (list t) = is_list_item t
supported (optional t) = is_option_item t
supported (map_ty key value) = is_map_key key && is_map_value value
supported _ = true

-- Containers nest at most two deep.
abbrev pub depth : LaicType → ℕ
depth (list t) = 1 + depth t
depth (optional t) = 1 + depth t
depth (map_ty k v) = 1 + (depth k + depth v)
depth _ = 0

module _ (s f : String) where
  -- A field's type is accepted exactly when its shape is supported: a scalar; a tensor with at
  -- least one dimension and no constant 0; a list or an option of a scalar or of such a tensor
  -- with no dynamic dimension, or the two nested once in either order; or a map between the
  -- permitted scalars.
  pub validate_field_type_iff :
      (t : LaicType) → (validate_field_type s f t ≡ done) ↔ (supported t ≡ true)
  unfolding validate_field_type validate_tensor_dimensions list_constraints optional_constraints
      validate_map_type_constraints
  validate_field_type_iff (list (optional t)) = ground arith
  validate_field_type_iff (list t) = ground arith
  validate_field_type_iff (optional (list t)) = ground arith
  validate_field_type_iff (optional t) = ground arith
  validate_field_type_iff t = ground arith

-- The scalars of a map have no depth.
scalar-depth : (k : LaicType) → (is_map_key k ≡ true) ⊎ (is_map_value k ≡ true) → depth k ≡ 0
scalar-depth k h = ground arith

element-depth : (t : LaicType) → is_element t ≡ true → depth t ≡ 0
element-depth t h = ground arith

supported-depth : (t : LaicType) → supported t ≡ true → depth t ≤ 2
supported-depth (list (optional t)) h = ground (arith, element-depth t)
supported-depth (list t) h = ground (arith, element-depth t)
supported-depth (optional (list t)) h = ground (arith, element-depth t)
supported-depth (optional t) h = ground (arith, element-depth t)
supported-depth (map_ty k v) h = ground (arith, scalar-depth k, scalar-depth v)
supported-depth t h = ground arith

-- Containers of an accepted type nest at most two deep.
pub validate_field_type-depth :
    (s f : String) (t : LaicType) → validate_field_type s f t ≡ done → depth t ≤ 2
validate_field_type-depth s f t h = supported-depth t ((validate_field_type_iff s f t).0 h)
