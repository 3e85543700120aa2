-- ===== src/Laicc/Parser/File.antt =====
-- crates/laicc/src/parser.rs: literals, fields, structs, skills and the file; and `compile` of lib.rs.
-- The parser that pest makes from the grammar, and `parse` of a float, are parameters.
use laic.Prelude.{
  ℕ, ◌-◌, ◌^◌, true, false, String, str_eq, Option, none, some, List, [], ◌∷◌, ◌++◌, Result, ok,
  err, ◌>>=◌, map_err, if◌then◌else◌,
}
use laic.Prelude.Detail.{Piece, text, plain}
use laic.Laicc.Ast.{
  ℤ, LaicType, Literal, string_lit, integer, float, bool_lit, FieldDef, StructDef, ErrorVariant,
  SkillDef, LaicFile, CompileError, parse,
}
use laic.Laicc.Validate.File.{validate}
use laic.Laicc.Parser.Tree.{
  debug_rule, version_decl, skill_def, field_def, default_value, error_def, error_variant,
  string_literal, float_literal, integer_literal, bool_literal, Pair, pair, Pairs, nil, next,
  as_str, into_inner,
}
use laic.Laicc.Parser.Text.{
  strip_quotes, normalize_string_literal_newlines, parse_unsigned, parse_i64, show_int_error,
}
use laic.Laicc.Parser.Types.{require_next, parse_laic_type}

abbrev pub max_u16 : ℕ
max_u16 = 2 ^ 16 - 1

abbrev pub bool_of : String → Result Literal CompileError
bool_of s =
    if str_eq s "true"
    then ok (bool_lit true)
    else if str_eq s "false"
    then ok (bool_lit false)
    else err (parse (text "invalid bool literal: '" ∷ text s ∷ text "'" ∷ []))

unfoldable pub parse_error_variant : Pair → Result ErrorVariant CompileError
parse_error_variant p = do
  (name, rest) ← require_next (into_inner p) "error variant name"
  (code_pair, _) ← require_next rest "error variant code"
  code ←
      map_err
        (λ e. parse (
          text "invalid error code '"
          ∷ text (as_str code_pair)
          ∷ text "': "
          ∷ text (show_int_error e)
          ∷ []))
        (parse_unsigned max_u16 (as_str code_pair))
  ok (record { name = as_str name; code = code })

-- The loop over the pairs of the block: one that is no variant is skipped.
unfoldable pub parse_error_variants : Pairs → Result (List ErrorVariant) CompileError
parse_error_variants nil = ok []
parse_error_variants (next (pair error_variant s inner) ps) = do
  v ← parse_error_variant (pair error_variant s inner)
  vs ← parse_error_variants ps
  ok (v ∷ vs)
parse_error_variants (next _ ps) = parse_error_variants ps

abbrev pub parse_error_def : Pair → Result (List ErrorVariant) CompileError
parse_error_def p = parse_error_variants (into_inner p)

-- The error block, if it comes next.
abbrev pub optional_errors : Pairs → Result (List ErrorVariant) CompileError
optional_errors (next (pair error_def s inner) _) = parse_error_def (pair error_def s inner)
optional_errors _ = ok []

abbrev pub parse_quoted : String → Pair → Result String CompileError
parse_quoted context p = do
  (inner, _) ← require_next (into_inner p) context
  ok (strip_quotes (as_str inner))

unfoldable pub parse_version_decl : Pair → Result String CompileError
parse_version_decl p = parse_quoted "version string literal" p

unfoldable pub parse_id_decl : Pair → Result String CompileError
parse_id_decl p = parse_quoted "id string literal" p

module _ (parse_float : String → Result ℕ Piece) where
  abbrev pub literal_of : Pair → Result Literal CompileError
  literal_of (pair string_literal s _) =
      ok (string_lit (normalize_string_literal_newlines (strip_quotes s)))
  literal_of (pair float_literal s _) = do
    val ← map_err (λ e. parse (text "invalid float literal: " ∷ e ∷ [])) (parse_float s)
    ok (float val)
  literal_of (pair integer_literal s _) = do
    val ←
        map_err (λ e. parse (text "invalid integer literal: " ∷ text (show_int_error e) ∷ []))
          (parse_i64 s)
    ok (integer val)
  literal_of (pair bool_literal s _) = bool_of s
  literal_of (pair r _ _) =
      err (parse (text "unexpected literal rule: " ∷ text (debug_rule r) ∷ []))

  unfoldable pub parse_literal : Pair → Result Literal CompileError
  parse_literal p = do (child, _) ← require_next (into_inner p) "literal value"; literal_of child

  abbrev pub default_of : Pairs → Result (Option Literal) CompileError
  default_of (next (pair default_value _ inner) _) = do
    (lit_pair, _) ← require_next inner "default literal"
    lit ← parse_literal lit_pair
    ok (some lit)
  default_of _ = ok none

  unfoldable pub parse_field_def : Pair → Result FieldDef CompileError
  parse_field_def p = do
    (name, rest) ← require_next (into_inner p) "field name"
    (type_pair, rest') ← require_next rest "field type"
    ty ← parse_laic_type type_pair
    default ← default_of rest'
    ok (record { name = as_str name; ty = ty; default = default })

  -- The loop over the pairs after the struct's name: one that is no field is skipped.
  unfoldable pub parse_fields : Pairs → Result (List FieldDef) CompileError
  parse_fields nil = ok []
  parse_fields (next (pair field_def s inner) ps) = do
    f ← parse_field_def (pair field_def s inner)
    fs ← parse_fields ps
    ok (f ∷ fs)
  parse_fields (next _ ps) = parse_fields ps

  unfoldable pub parse_struct_def : Pair → Result StructDef CompileError
  parse_struct_def p = do
    (name, rest) ← require_next (into_inner p) "struct name"
    fields ← parse_fields rest
    ok (record { name = as_str name; fields = fields })

  unfoldable pub parse_skill_def : Pair → Result SkillDef CompileError
  parse_skill_def p = do
    (name, after_name) ← require_next (into_inner p) "skill name"
    (id_pair, after_id) ← require_next after_name "id declaration"
    id ← parse_id_decl id_pair
    (input_pair, after_input) ← require_next after_id "input definition"
    input ← parse_struct_def input_pair
    (output_pair, after_output) ← require_next after_input "output definition"
    output ← parse_struct_def output_pair
    errors ← optional_errors after_output
    ok (record { name = as_str name; id = id; input = input; output = output; errors = errors })

  -- The loop over the pairs of the file, which sets the version and appends the skills.
  unfoldable pub parse_items : Pairs → LaicFile → Result LaicFile CompileError
  parse_items nil file = ok file
  parse_items (next (pair version_decl s inner) ps) file = do
    version ← parse_version_decl (pair version_decl s inner)
    parse_items ps (record file { version = version })
  parse_items (next (pair skill_def s inner) ps) file = do
    skill ← parse_skill_def (pair skill_def s inner)
    parse_items ps (record file { skills = file.skills ++ (skill ∷ []) })
  parse_items (next _ ps) file = parse_items ps file

  unfoldable pub parse_file : Pair → Result LaicFile CompileError
  parse_file p = parse_items (into_inner p) (record { version = ""; skills = [] })

  module _ (laic_parser : String → Result Pairs Piece) where
    abbrev pub first_file : Pairs → Result LaicFile CompileError
    first_file nil = err (parse (plain "empty parse result"))
    first_file (next file_pair _) = parse_file file_pair

    unfoldable pub parse_source : String → Result LaicFile CompileError
    parse_source source = do
      pairs ← map_err (λ e. parse (e ∷ [])) (laic_parser source)
      first_file pairs

    unfoldable pub compile :
        (LaicType → Piece) → (ℤ → Piece) → String → Result LaicFile CompileError
    compile debug show source = do file ← parse_source source; _ ← validate debug show file; ok file
