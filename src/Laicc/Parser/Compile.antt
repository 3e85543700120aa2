-- ===== src/Laicc/Parser/Compile.antt =====
-- The parser on whole files of the grammar, and `compile`.
use laic.Prelude.{
  ℕ, ◌≡◌, ◌↔◌, refl, ◌∙◌, String, List, ◌++◌, append_assoc, append-nil, Result, ok, err, panicked,
  done, ◌>>=◌, arith,
}
use laic.Prelude.Detail.{Piece}
use laic.Laicc.Ast.{
  ℤ, LaicType, Literal, FieldDef, StructDef, ErrorVariant, SkillDef, LaicFile, CompileError,
}
use laic.Laicc.Validate.File.{validate}
use laic.Laicc.Validate.File.Accepted.{FileOk, validate_iff}
use laic.Laicc.Parser.Tree.{version_decl, string_literal, Rule, Pair, pair, Pairs, nil, next}
use laic.Laicc.Parser.Text.Numbers.{parse_i64-IsNumeral, parse_i64-negative}
use laic.Laicc.Parser.Text.Strings.{Without, quoted, strip_quotes-quoted, normalize-SameLines}
use laic.Laicc.Parser.Types.{require_next}
use laic.Laicc.Parser.File.{
  max_u16, parse_error_variant, parse_error_variants, optional_errors, parse_version_decl,
  parse_id_decl, parse_literal, parse_field_def, parse_fields, parse_struct_def, parse_skill_def,
  parse_items, parse_file, parse_source, compile,
}
use laic.Laicc.Parser.Grammar.{
  IsVariants, no_variant, variant, IsLiteral, text_literal, positive, negative, number, a_true,
  a_false, IsFields, no_field, field, field_with_default, IsStruct, a_struct, IsErrors, no_errors,
  errors_of, IsSkills, end, skill, IsFile, a_file,
}
use laic.Laicc.Parser.RoundTrip.{in_range, parse_laic_type-IsType}

parse_error_variants-IsVariants :
    {ps : Pairs} {vs : List ErrorVariant} → IsVariants ps vs → parse_error_variants ps ≡ ok vs
unfolding parse_error_variants parse_error_variant require_next
parse_error_variants-IsVariants no_variant = refl
parse_error_variants-IsVariants (variant {d} h le vs) =
    rw (in_range max_u16 d h le, parse_error_variants-IsVariants vs) refl

optional_errors-IsErrors :
    {ps : Pairs} {vs : List ErrorVariant} → IsErrors ps vs → optional_errors ps ≡ ok vs
optional_errors-IsErrors no_errors = refl
optional_errors-IsErrors (errors_of vs) = parse_error_variants-IsVariants vs

then_ok_iff :
    (r : Result (Unit {0}) CompileError) (file : LaicFile)
    → ((r >>= λ _. ok file) ≡ ok file) ↔ (r ≡ done)
then_ok_iff (ok _) file = (λ _. refl, λ _. refl)
then_ok_iff (err e) file = ground arith
then_ok_iff panicked file = ground arith

module _ (parse_float : String → Result ℕ Piece) where
  parse_literal-IsLiteral :
      {p : Pair} {l : Literal} → IsLiteral parse_float p l → parse_literal parse_float p ≡ ok l
  unfolding parse_literal require_next
  parse_literal-IsLiteral (text_literal {x} h w) =
      rw (strip_quotes-quoted x h, normalize-SameLines w) refl
  parse_literal-IsLiteral (positive {d} h le) = rw (parse_i64-IsNumeral d h le) refl
  parse_literal-IsLiteral (negative {d} h le) = rw (parse_i64-negative d h le) refl
  parse_literal-IsLiteral (number e) = rw e refl
  parse_literal-IsLiteral a_true = refl
  parse_literal-IsLiteral a_false = refl

  parse_fields-IsFields :
      {ps : Pairs} {fs : List FieldDef}
      → IsFields parse_float ps fs
      → parse_fields parse_float ps ≡ ok fs
  unfolding parse_fields parse_field_def require_next
  parse_fields-IsFields no_field = refl
  parse_fields-IsFields (field t fs) = rw (parse_laic_type-IsType t, parse_fields-IsFields fs) refl
  parse_fields-IsFields (field_with_default t l fs) =
      rw (parse_laic_type-IsType t, parse_literal-IsLiteral l, parse_fields-IsFields fs) refl

  parse_struct_def-IsStruct :
      {r : Rule} {p : Pair} {d : StructDef}
      → IsStruct parse_float r p d
      → parse_struct_def parse_float p ≡ ok d
  unfolding parse_struct_def require_next
  parse_struct_def-IsStruct (a_struct fs) = rw (parse_fields-IsFields fs) refl

  parse_items-IsSkills :
      {ps : Pairs} {ks : List SkillDef} (file : LaicFile)
      → IsSkills parse_float ps ks
      → parse_items parse_float ps file ≡ ok (record file { skills = file.skills ++ ks })
  unfolding parse_items parse_skill_def parse_id_decl require_next
  parse_items-IsSkills file end = rw append-nil
  parse_items-IsSkills file (skill {id} h i o es ks) =
      rw
        (
          strip_quotes-quoted id h,
          parse_struct_def-IsStruct i,
          parse_struct_def-IsStruct o,
          optional_errors-IsErrors es,
        )
        (parse_items-IsSkills _ ks ∙ rw append_assoc)

  version_step :
      (v s : String) (ps : Pairs) (file : LaicFile)
      → Without 34 v
      → parse_items parse_float
          (next (pair version_decl s (next (pair string_literal (quoted v) nil) nil)) ps)
          file
        ≡ parse_items parse_float ps (record file { version = v })
  unfolding parse_items parse_version_decl require_next
  version_step v s ps file h = rw (strip_quotes-quoted v h) refl

  -- From any tree that the grammar gives for a file, the parser reads the file that the tree says.
  -- The tree's numbers are within the ranges of their types, and its floats are what `parse_float`
  -- makes of their text.
  pub parse_file-IsFile :
      (p : Pair) (file : LaicFile) → IsFile parse_float p file → parse_file parse_float p ≡ ok file
  unfolding parse_file
  parse_file-IsFile p file (a_file {s'} {v} {ps} h ks) =
      version_step v s' ps _ h ∙ parse_items-IsSkills _ ks

  -- `compile` of a source that has such a tree gives the file that the tree says exactly when the
  -- file obeys the rules of validation, which `FileOk` lists.
  pub compile_iff :
      (debug : LaicType → Piece) (show : ℤ → Piece) (laic_parser : String → Result Pairs Piece)
      (source : String) (p : Pair) (file : LaicFile)
      → laic_parser source ≡ ok (next p nil)
      → IsFile parse_float p file
      → (compile parse_float laic_parser debug show source ≡ ok file) ↔ FileOk file
  unfolding compile parse_source
  compile_iff debug show laic_parser source p file parsed tree =
      let (out, back) = then_ok_iff (validate debug show file) file in
      let (valid, invalid) = validate_iff debug show file in
      rw (parsed, parse_file-IsFile p file tree) ((λ h. valid (out h)), (λ h. back (invalid h)))
