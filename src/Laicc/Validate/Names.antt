-- ===== src/Laicc/Validate/Names.antt =====
-- crates/laicc/src/validate.rs: reserved identifiers, and the variants of an error block.
pub mod Errors
use laic.Prelude.{
  ℕ, Bool, true, false, not, ◌||◌, String, str_eq, List, [], ◌∷◌, Result, ok, err, done, ◌>>=◌,
  ◌>>◌, err_if, ◌==◌, if◌then◌else◌,
}
use laic.Prelude.Detail.{text, dec}
use laic.Laicc.Ast.{ErrorVariant, CompileError, validation}

-- `any(|word| word == identifier)`, and `HashSet::contains`
abbrev pub contains : String → List String → Bool
contains x [] = false
contains x (y ∷ ys) = str_eq y x || contains x ys

abbrev pub contains_code : ℕ → List ℕ → Bool
contains_code x [] = false
contains_code x (y ∷ ys) = (y == x) || contains_code x ys

abbrev pub reserved : List String
reserved =
    "abstract" ∷ "as" ∷ "async" ∷ "await" ∷ "become" ∷ "box" ∷ "break" ∷ "const" ∷ "continue"
    ∷ "crate" ∷ "do" ∷ "dyn" ∷ "else" ∷ "enum" ∷ "extern" ∷ "false" ∷ "final" ∷ "fn" ∷ "for" ∷ "gen"
    ∷ "if" ∷ "impl" ∷ "in" ∷ "let" ∷ "loop" ∷ "macro" ∷ "match" ∷ "mod" ∷ "move" ∷ "mut"
    ∷ "override" ∷ "priv" ∷ "pub" ∷ "ref" ∷ "return" ∷ "Self" ∷ "self" ∷ "static" ∷ "struct"
    ∷ "super" ∷ "trait" ∷ "true" ∷ "try" ∷ "type" ∷ "typeof" ∷ "union" ∷ "unsafe" ∷ "unsized"
    ∷ "use" ∷ "virtual" ∷ "where" ∷ "while" ∷ "yield" ∷ "False" ∷ "None" ∷ "True" ∷ "and" ∷ "assert"
    ∷ "class" ∷ "def" ∷ "del" ∷ "elif" ∷ "except" ∷ "finally" ∷ "from" ∷ "global" ∷ "import" ∷ "is"
    ∷ "lambda" ∷ "nonlocal" ∷ "not" ∷ "or" ∷ "pass" ∷ "raise" ∷ "with" ∷ "any" ∷ "arguments"
    ∷ "boolean" ∷ "case" ∷ "catch" ∷ "constructor" ∷ "debugger" ∷ "declare" ∷ "default" ∷ "delete"
    ∷ "eval" ∷ "export" ∷ "extends" ∷ "function" ∷ "get" ∷ "implements" ∷ "infer" ∷ "instanceof"
    ∷ "interface" ∷ "keyof" ∷ "module" ∷ "namespace" ∷ "new" ∷ "never" ∷ "null" ∷ "number"
    ∷ "object" ∷ "of" ∷ "package" ∷ "private" ∷ "protected" ∷ "public" ∷ "readonly" ∷ "require"
    ∷ "set" ∷ "string" ∷ "switch" ∷ "symbol" ∷ "this" ∷ "throw" ∷ "undefined" ∷ "unique" ∷ "unknown"
    ∷ "var" ∷ "void" ∷ []

unfoldable pub is_reserved_codegen_identifier : String → Bool
is_reserved_codegen_identifier identifier = contains identifier reserved

unfoldable pub validate_codegen_identifier :
    String → String → String → Result (Unit {0}) CompileError
validate_codegen_identifier skill_name context identifier =
    err_if (is_reserved_codegen_identifier identifier) (
      validation (
        text "skill '"
        ∷ text skill_name
        ∷ text "': "
        ∷ text context
        ∷ text " '"
        ∷ text identifier
        ∷ text "' is a reserved codegen identifier"
        ∷ []))

-- The checks of one variant, given the names and the codes of those before it.
unfoldable pub validate_error :
    String → List String → List ℕ → ErrorVariant → Result (Unit {0}) CompileError
validate_error skill_name names codes variant = do
  validate_codegen_identifier skill_name "error name" variant.name
  err_if (contains variant.name names) (
      validation (
        text "skill '"
        ∷ text skill_name
        ∷ text "': duplicate error name '"
        ∷ text variant.name
        ∷ text "'"
        ∷ []))
  err_if (variant.code == 0) (
      validation (
        text "skill '"
        ∷ text skill_name
        ∷ text "': error code must be positive, got 0 for '"
        ∷ text variant.name
        ∷ text "'"
        ∷ []))
  err_if (contains_code variant.code codes) (
      validation (
        text "skill '"
        ∷ text skill_name
        ∷ text "': duplicate error code "
        ∷ dec variant.code
        ∷ text " for '"
        ∷ text variant.name
        ∷ text "'"
        ∷ []))

-- The loop of `validate_errors`, with its two sets.
unfoldable pub validate_errors_from :
    String → List String → List ℕ → List ErrorVariant → Result (Unit {0}) CompileError
validate_errors_from skill_name names codes [] = done
validate_errors_from skill_name names codes (variant ∷ errors) =
    validate_error skill_name names codes variant
    >> validate_errors_from skill_name (variant.name ∷ names) (variant.code ∷ codes) errors

unfoldable pub validate_errors : String → List ErrorVariant → Result (Unit {0}) CompileError
validate_errors skill_name errors = validate_errors_from skill_name [] [] errors
