-- ===== src/Laicc/Driver.antt =====
-- crates/laicc/src/main.rs, lib.rs: the command, over a file system that is a parameter. A path is a
-- text, which is also what `display` prints.
pub mod Inspect
pub mod Runs
use laic.Prelude.{
  ℕ, Bool, true, false, String, Option, none, some, List, [], ◌∷◌, ◌++◌, Result, ok, err, panicked,
  and_then, map_err, map_err_fst, ok_or, ◌>>=◌,
}
use laic.Prelude.Detail.{Detail, Piece, text, plain}
use laic.Laicc.Ast.{ℤ, LaicType, LaicFile, CompileError, parse, validation, codegen, io}
use laic.Laicc.Parser.Tree.{Pairs}
use laic.Laicc.Parser.File.{compile}
use laic.Laicc.Codegen.Emitted.{Emitted}
use laic.Laicc.Codegen.Rust.Contract.{generate_rust}
use laic.Laicc.Codegen.Python.Contract.{generate_python}
use laic.Laicc.Codegen.TypeScript.Contract.{generate_typescript}
use laic.Laicc.Driver.Inspect.{inspect_schema}

pub data TargetLanguage : Type 0 where
  rust python typescript : TargetLanguage

-- What `clap` makes of the command line: `Cli`, and `Command` with its argument.
pub data Command : Type 0 where
  inspect_command : (input : String) → Command

pub record Cli : Type 0 where
  pub input : Option String
  pub command : Option Command
  pub lang : TargetLanguage
  pub output : String

-- The file system, the error texts it gives, and the parts of `Path` that the command uses:
-- `file_stem` followed by `to_str`, and `join`.
pub record Files (World : Type 0) : Type 1 where
  pub read_to_string : String → World → Result String Piece
  pub create_dir_all : String → World → Result (Unit {0}) Piece × World
  pub write : String → Detail → World → Result (Unit {0}) Piece × World
  pub print : Detail → World → World
  pub eprint : Detail → World → World
  pub file_stem : String → Option String
  pub join : String → Detail → String

-- `CompileError as Display`
unfoldable pub fmt : CompileError → Detail
fmt (parse msg) = text "parse error: " ∷ msg
fmt (validation msg) = text "validation error: " ∷ msg
fmt (codegen msg) = text "codegen error: " ∷ msg
fmt (io e) = text "I/O error: " ∷ e

-- A generator that may panic, and one that cannot, as the functions of lib.rs.
abbrev pub of_emitted : Emitted → Result Detail CompileError
of_emitted none = panicked
of_emitted (some d) = ok d

abbrev pub extension : TargetLanguage → String
extension rust = "rs"
extension python = "py"
extension typescript = "ts"

abbrev pub unwrap_or : String → Option String → String
unwrap_or d none = d
unwrap_or d (some s) = s

module _ (show_float : ℕ → List ℕ) where
  unfoldable pub generate : TargetLanguage → LaicFile → Result Detail CompileError
  generate rust file = of_emitted (generate_rust show_float file)
  generate python file = ok (generate_python show_float file)
  generate typescript file = ok (generate_typescript show_float file)

module _ {World : Type 0} (fs : Files World) where
  abbrev pub out_path : Cli → String → String
  out_path cli input = fs.join cli.output (
      text (unwrap_or "output" (fs.file_stem input))
      ∷ text "_laic."
      ∷ text (extension cli.lang)
      ∷ [])

  -- What `generate_bindings` does once the code is there.
  unfoldable pub write_bindings :
      String → String → Detail → World → Result (Unit {0}) Detail × World
  write_bindings directory path code w =
      and_then
        (map_err_fst
          (λ e. text "failed to create output directory '" ∷ text directory ∷ text "': " ∷ e ∷ [])
          (fs.create_dir_all directory w))
        (λ _ w1.
          and_then
            (map_err_fst
              (λ e. text "failed to write output file '" ∷ text path ∷ text "': " ∷ e ∷ [])
              (fs.write path code w1))
            (λ _ w2. (ok tt, fs.eprint (text "wrote " ∷ text path ∷ text "\n" ∷ []) w2)))

module _ {World : Type 0} (fs : Files World) (show_float : ℕ → List ℕ)
    (parse_float : String → Result ℕ Piece) (laic_parser : String → Result Pairs Piece)
    (debug : LaicType → Piece) (show : ℤ → Piece) where
  unfoldable pub read_contract : String → World → Result LaicFile Detail
  read_contract input w = do
    source ←
        map_err (λ e. text "failed to read input file '" ∷ text input ∷ text "': " ∷ e ∷ [])
          (fs.read_to_string input w)
    map_err fmt (compile parse_float laic_parser debug show source)

  -- The code for the command's input, which reads the file system and does not change it.
  unfoldable pub bindings : Cli → World → Result (String × Detail) Detail
  bindings cli w = do
    input ← ok_or (plain "missing input `.laic` file") cli.input
    file ← read_contract input w
    code ← map_err fmt (generate show_float cli.lang file)
    ok (input, code)

  unfoldable pub generate_bindings : Cli → World → Result (Unit {0}) Detail × World
  generate_bindings cli w =
      and_then (bindings cli w, w)
        (λ (input, code). write_bindings fs cli.output (out_path fs cli input) code)

  abbrev pub run_command : Cli → Option Command → World → Result (Unit {0}) Detail × World
  run_command cli (some (inspect_command input)) w =
      and_then (read_contract input w, w)
        (λ file w'. (ok tt, fs.print (inspect_schema input file ++ text "\n" ∷ []) w'))
  run_command cli none w = generate_bindings cli w

  unfoldable pub run : Cli → World → Result (Unit {0}) Detail × World
  run cli w = run_command cli cli.command w
