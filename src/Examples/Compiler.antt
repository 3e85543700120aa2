-- ===== src/Examples/Compiler.antt =====
-- The validation theorems at small definitions.
use laic.Prelude.{◌≡◌, ◌↔◌, true, List, [], ◌∷◌, map, All, done}
use laic.Prelude.Detail.{text}
use laic.Laicc.Ast.{
  negsuc, LaicType, fixed, i8_ty, list, optional, tensor, f32, ErrorVariant, integer,
}
use laic.Laicc.Validate.Types.{validate_field_type}
use laic.Laicc.Validate.Types.Supported.{supported, validate_field_type_iff}
use laic.Laicc.Validate.Sets.{Distinct}
use laic.Laicc.Validate.Names.{validate_errors}
use laic.Laicc.Validate.Names.Errors.{IsUsable, name, code, validate_errors_iff}
use laic.Laicc.Validate.File.{validate_default_compat}
use laic.Laicc.Validate.File.Defaults.{IsDefault, validate_default_compat_iff}

-- `optional<list<tensor<f32, [3]>>>`
abbrev vectors : LaicType
vectors = optional (list (tensor f32 (fixed 3 ∷ [])))

validate_field_type_iff_example :
    (validate_field_type "Embed" "vectors" vectors ≡ done) ↔ (supported vectors ≡ true)
validate_field_type_iff_example = validate_field_type_iff "Embed" "vectors" vectors

abbrev errors : List ErrorVariant
errors = record { name = "TOO_LONG"; code = 1 } ∷ record { name = "EMPTY"; code = 2 } ∷ []

validate_errors_iff_example :
    (validate_errors "Embed" errors ≡ done)
    ↔ (All IsUsable errors × Distinct (map name errors) × Distinct (map code errors))
validate_errors_iff_example = validate_errors_iff "Embed" errors

validate_default_compat_iff_example :
    (validate_default_compat
        (λ t. text "type")
        (λ v. text "value")
        "Embed"
        "limit"
        i8_ty
        (integer (negsuc 127))
      ≡ done)
    ↔ IsDefault i8_ty (integer (negsuc 127))
validate_default_compat_iff_example =
    validate_default_compat_iff (λ t. text "type") (λ v. text "value") "Embed" "limit" i8_ty
      (integer (negsuc 127))
