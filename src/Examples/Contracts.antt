-- ===== src/Examples/Contracts.antt =====
-- The theorems on the compiler at a contract with a list of options.
use laic.Prelude.{
  ℕ, ◌≡◌, ◌↔◌, refl, true, String, none, some, List, [], ◌∷◌, ◌++◌, Result, ok, done, arith,
}
use laic.Prelude.Detail.{Piece, text}
use laic.Laicc.Ast.{
  ℤ, LaicType, i32_ty, f32_ty, list, optional, float, FieldDef, StructDef, SkillDef, LaicFile,
}
use laic.Laicc.Validate.Types.{validate_field_type, list_constraints, optional_constraints}
use laic.Laicc.Validate.Names.{
  is_reserved_codegen_identifier, validate_codegen_identifier, validate_errors,
  validate_errors_from, validate_error,
}
use laic.Laicc.Validate.File.{
  validate, validate_skills_from, validate_skill, validate_struct, validate_fields_from,
  validate_field, validate_default, validate_default_compat,
}
use laic.Laicc.Validate.File.Accepted.{FileOk, validate_iff}
use laic.Laicc.Parser.Tree.{Pair, pair, Pairs, nil, next}
use laic.Laicc.Parser.Tree
use laic.Laicc.Parser.Text.Strings.{quoted}
use laic.Laicc.Parser.File.{parse_file, compile}
use laic.Laicc.Parser.Grammar.{
  IsFile, a_file, skill, end, no_errors, a_struct, field, field_with_default, no_field, a_list,
  an_optional, an_i32, an_f32, number,
}
use laic.Laicc.Parser.Compile.{parse_file-IsFile, compile_iff}
use laic.Laicc.Codegen.Emitted.{panics, for_each}
use laic.Laicc.Codegen.Text.{codes, python_like, rust, escape_string_literal_body}
use laic.Laicc.Codegen.Text.Reader.{read, plain}
use laic.Laicc.Codegen.Text.Literals.{read-escape_python, read-escape_rust}
use laic.Laicc.Codegen.Rust.Contract.{generate_rust}
use laic.Laicc.Codegen.Rust.Panics.{generate_rust-panics}
use laic.Prelude.{All}
use laic.Laicc.Codegen.Python.Contract.{generate_dataclass}
use laic.Laicc.Codegen.Python.Fields.{
  Required, Optional, Interleaving, declaration, heading, methods, generate_dataclass_lem,
}
use laic.Laicc.Driver.{Cli, Files}
use laic.Laicc.Driver
use laic.Laicc.Driver.Runs.{RustOutcome, generate_bindings-rust}

abbrev debug : LaicType → Piece
debug t = text "type"

abbrev show : ℤ → Piece
show v = text "value"

abbrev show_float : ℕ → List ℕ
show_float f = codes "0.5"

abbrev parse_float : String → Result ℕ Piece
parse_float s = ok 1056964608

abbrev input_def : StructDef
input_def = record {
  name = "EmbedInput";
  fields = record { name = "ids"; ty = list (optional i32_ty); default = none } ∷ [];
}

abbrev output_def : StructDef
output_def = record {
  name = "EmbedOutput";
  fields = record { name = "score"; ty = f32_ty; default = some (float 1056964608) } ∷ [];
}

abbrev embed : SkillDef
embed = record { name = "Embed"; id = "embed"; input = input_def; output = output_def; errors = [] }

abbrev contract : LaicFile
contract = record { version = "1.0"; skills = embed ∷ [] }

contract-valid : validate debug show contract ≡ done
unfolding validate validate_skills_from validate_skill validate_struct validate_fields_from
    validate_field validate_default validate_default_compat validate_field_type list_constraints
    optional_constraints is_reserved_codegen_identifier validate_codegen_identifier validate_errors
    validate_errors_from validate_error
contract-valid = refl

validate_iff_example : (validate debug show contract ≡ done) ↔ FileOk contract
validate_iff_example = validate_iff debug show contract

generate_rust-panics_example : panics (generate_rust show_float contract) ≡ true
generate_rust-panics_example = generate_rust-panics show_float debug show contract contract-valid

-- A tree of the grammar for the contract. The text of a pair that holds others does not matter.
abbrev leaf : Tree.Rule → String → Pair
leaf r s = pair r s nil

abbrev node : Tree.Rule → Pairs → Pair
node r ps = pair r "" ps

abbrev one : Pair → Pairs
one p = next p nil

abbrev ids_type : Pair
ids_type = node Tree.laic_type (
    one (
      node Tree.list_type (
        one
          (node Tree.laic_type (one (node Tree.optional_type (one (leaf Tree.laic_type "i32"))))))))

abbrev ids_field : Pair
ids_field = node Tree.field_def (next (leaf Tree.ident "ids") (one ids_type))

abbrev score_field : Pair
score_field = node Tree.field_def (
    next (leaf Tree.ident "score") (
      next (leaf Tree.laic_type "f32") (
        one (
          node Tree.default_value
            (one (node Tree.literal (one (leaf Tree.float_literal "0.5"))))))))

abbrev skill_tree : Pair
skill_tree = node Tree.skill_def (
    next (leaf Tree.ident "Embed") (
      next (node Tree.id_decl (one (leaf Tree.string_literal (quoted "embed")))) (
        next (node Tree.input_def (next (leaf Tree.ident "EmbedInput") (one ids_field))) (
          next (node Tree.output_def (next (leaf Tree.ident "EmbedOutput") (one score_field)))
            nil))))

abbrev tree : Pair
tree = node Tree.file (
    next (node Tree.version_decl (one (leaf Tree.string_literal (quoted "1.0"))))
      (next skill_tree (one (leaf Tree.eoi ""))))

tree-IsFile : IsFile parse_float tree contract
tree-IsFile = a_file (ground arith) (
    skill (ground arith) (a_struct (field (a_list (an_optional an_i32)) no_field))
      (a_struct (field_with_default an_f32 (number refl) no_field)) no_errors end)

abbrev laic_parser : String → Result Pairs Piece
laic_parser s = ok (one tree)

parse_file-IsFile_example : parse_file parse_float tree ≡ ok contract
parse_file-IsFile_example = parse_file-IsFile parse_float tree contract tree-IsFile

compile_iff_example :
    (compile parse_float laic_parser debug show "source" ≡ ok contract) ↔ FileOk contract
compile_iff_example =
    compile_iff parse_float debug show laic_parser "source" tree contract refl tree-IsFile

compiled : compile parse_float laic_parser debug show "source" ≡ ok contract
compiled =
    (compile_iff parse_float debug show laic_parser "source" tree contract refl tree-IsFile).1
      ((validate_iff debug show contract).0 contract-valid)

-- A file system that records the paths of what is written.
abbrev files : Files (List String)
files = record {
  read_to_string = λ path w. ok "source";
  create_dir_all = λ path w. (done, path ∷ w);
  write = λ path code w. (done, path ∷ w);
  print = λ t w. w;
  eprint = λ t w. w;
  file_stem = λ path. some path;
  join = λ directory file. directory;
}

abbrev cli : Cli
cli = record { input = some "embed"; command = none; lang = Driver.rust; output = "out" }

generate_bindings-rust_example :
    RustOutcome files show_float parse_float laic_parser debug show cli "embed" "source" [] contract
generate_bindings-rust_example =
    generate_bindings-rust files show_float parse_float laic_parser debug show cli "embed" "source"
      [] contract refl refl refl compiled

-- A text with a quote, a line end, and the control character U+0001.
abbrev awkward : List ℕ
awkward = 34 ∷ 10 ∷ 1 ∷ 65 ∷ []

read-escape_python_example :
    read python_like plain (escape_string_literal_body python_like awkward ++ 34 ∷ 59 ∷ [])
    ≡ some (awkward, 59 ∷ [])
read-escape_python_example = read-escape_python awkward (59 ∷ [])

read-escape_rust_example :
    read rust plain (escape_string_literal_body rust (133 ∷ awkward) ++ 34 ∷ 59 ∷ []) ≡ none
read-escape_rust_example = read-escape_rust (133 ∷ awkward) (59 ∷ [])

-- A struct that puts a field with a default first.
abbrev mixed_def : StructDef
mixed_def = record {
  name = "EmbedOutput";
  fields =
      record { name = "score"; ty = f32_ty; default = some (float 1056964608) }
      ∷ record { name = "count"; ty = i32_ty; default = none }
      ∷ [];
}

generate_dataclass_lem_example :
    (required : List FieldDef) × (optional : List FieldDef) × All Required required
    × All Optional optional
    × Interleaving required optional mixed_def.fields
    × (generate_dataclass show_float embed mixed_def "output" "1.0"
        ≡ heading embed mixed_def "output" "1.0"
          ++ for_each (declaration show_float) (required ++ optional)
          ++ methods show_float embed mixed_def "output" "1.0")
generate_dataclass_lem_example = generate_dataclass_lem show_float embed mixed_def "output" "1.0"
