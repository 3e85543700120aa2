-- ===== src/Laicc/Validate/File/Defaults.antt =====
-- The default values that validation lets through.
use laic.Prelude.{ℕ, ◌≡◌, ◌<◌, ◌↔◌, String, done, arith}
use laic.Prelude.Detail.{Piece}
use laic.Laicc.Ast.{
  ℤ, pos, negsuc, LaicType, string, bool_ty, i8_ty, i16_ty, i32_ty, i64_ty, u8_ty, f32_ty, f64_ty,
  Literal, string_lit, integer, float, bool_lit,
}
use laic.Laicc.Validate.File.{integer_default_bounds, validate_default_compat}

-- The least and the greatest value of a two's complement integer of which half the range is `n`.
abbrev pub Within : ℕ → ℤ → Type 0
Within n (pos k) = k < n
Within n (negsuc k) = k < n

-- A default and a type that go together: a float takes any number, an integer a value in its
-- range.
abbrev pub IsDefault : LaicType → Literal → Type 0
IsDefault string (string_lit _) = Unit
IsDefault bool_ty (bool_lit _) = Unit
IsDefault i8_ty (integer v) = Within 128 v
IsDefault i16_ty (integer v) = Within 32768 v
IsDefault i32_ty (integer v) = Within 2147483648 v
IsDefault i64_ty (integer v) = Unit
IsDefault u8_ty (integer (pos k)) = k < 256
IsDefault f32_ty (integer _) = Unit
IsDefault f64_ty (integer _) = Unit
IsDefault f32_ty (float _) = Unit
IsDefault f64_ty (float _) = Unit
IsDefault _ _ = ⊥

module _ (debug : LaicType → Piece) (show : ℤ → Piece) (s f : String) where
  -- A default value is accepted exactly when it has the type's kind and, for an integer type other
  -- than `i64`, lies in the type's range.
  pub validate_default_compat_iff :
      (t : LaicType) (d : Literal)
      → (validate_default_compat debug show s f t d ≡ done) ↔ IsDefault t d
  unfolding validate_default_compat integer_default_bounds
  validate_default_compat_iff t (string_lit x) = ground arith
  validate_default_compat_iff t (integer (pos n)) = ground arith
  validate_default_compat_iff t (integer (negsuc n)) = ground arith
  validate_default_compat_iff t (float x) = ground arith
  validate_default_compat_iff t (bool_lit x) = ground arith
