-- ===== src/Laicc/Validate/Names/Errors.antt =====
-- The error blocks that validation lets through.
use laic.Prelude.{ℕ, ◌≡◌, ◌≢◌, ◌↔◌, refl, String, List, [], ◌∷◌, map, done, All}
use laic.Laicc.Ast.{ErrorVariant}
use laic.Laicc.Validate.Names.{
  reserved, is_reserved_codegen_identifier, validate_codegen_identifier, validate_error,
  validate_errors_from, validate_errors,
}
use laic.Laicc.Validate.Sets.{
  Absent, Distinct, Fresh, Fresh-cons, Fresh-nil, contains-Absent, contains_code-Absent,
}
use laic.Laicc.Validate.Steps.{then_iff, both, if_absent, non_zero}

-- What one variant must satisfy by itself.
abbrev pub IsUsable : ErrorVariant → Type 0
IsUsable v = Absent v.name reserved × (v.code ≢ 0)

abbrev pub name : ErrorVariant → String
name v = v.name

abbrev pub code : ErrorVariant → ℕ
code v = v.code

-- What the loop accepts, from the names and codes of the variants before.
abbrev pub Good : List String → List ℕ → List ErrorVariant → Type 0
Good names codes es =
    All IsUsable es
    × Fresh names (map name es)
    × Fresh codes (map code es)
    × Distinct (map name es)
    × Distinct (map code es)

module _ (s : String) where
  validate_error_iff :
      (names : List String) (codes : List ℕ) (v : ErrorVariant)
      → (validate_error s names codes v ≡ done)
        ↔ (Absent v.name reserved × (Absent v.name names × ((v.code ≢ 0) × Absent v.code codes)))
  unfolding validate_error validate_codegen_identifier is_reserved_codegen_identifier
  validate_error_iff names codes v = both _ _ (if_absent _ _ (contains-Absent v.name reserved)) (
      both _ _ (if_absent _ _ (contains-Absent v.name names)) (
        both _ _ (if_absent _ _ (non_zero v.code))
          (if_absent _ _ (contains_code-Absent v.code codes))))

  validate_errors_from_iff :
      (names : List String) (codes : List ℕ) (es : List ErrorVariant)
      → (validate_errors_from s names codes es ≡ done) ↔ Good names codes es
  unfolding validate_errors_from
  validate_errors_from_iff names codes [] = (λ _. (tt, tt, tt, tt, tt), λ _. refl)
  validate_errors_from_iff names codes (v ∷ es) =
      let (out, back) =
        then_iff (validate_error s names codes v)
          (validate_errors_from s (v.name ∷ names) (v.code ∷ codes) es) in
      let (fn, bn) = Fresh-cons v.name names (map name es) in
      let (fc, bc) = Fresh-cons v.code codes (map code es) in
      let (one, one') = validate_error_iff names codes v in
      let (rest, rest') = validate_errors_from_iff (v.name ∷ names) (v.code ∷ codes) es in
      (
        λ h.
            let (h1, h2) = out h in
            let (not_reserved, (absent_name, (not_zero, absent_code))) = one h1 in
            let (all_usable, fresh_names, fresh_codes, names_differ, codes_differ) = rest h2 in
            (
              ((not_reserved, not_zero), all_usable),
              (absent_name, (fn fresh_names).1),
              (absent_code, (fc fresh_codes).1),
              ((fn fresh_names).0, names_differ),
              ((fc fresh_codes).0, codes_differ),
            ),
        λ (
          ((not_reserved, not_zero), all_usable),
          (absent_name, fresh_names),
          (absent_code, fresh_codes),
          (name_differs, names_differ),
          (code_differs, codes_differ),
        ).
            back (
              one' (not_reserved, (absent_name, (not_zero, absent_code))),
              rest' (
                all_usable,
                bn (name_differs, fresh_names),
                bc (code_differs, fresh_codes),
                names_differ,
                codes_differ,
              ),
            ),
      )

  -- An error block is accepted exactly when no name is a reserved word, no code is 0, no two
  -- variants have the same name, and no two have the same code.
  pub validate_errors_iff :
      (es : List ErrorVariant)
      → (validate_errors s es ≡ done)
        ↔ (All IsUsable es × Distinct (map name es) × Distinct (map code es))
  unfolding validate_errors
  validate_errors_iff es =
      let (out, back) = validate_errors_from_iff [] [] es in
      (
        λ h. let (usable, _, _, names, codes) = out h in (usable, names, codes),
        λ (usable, names, codes).
            back (usable, Fresh-nil (map name es), Fresh-nil (map code es), names, codes),
      )
