-- ===== src/Laicc/Driver/Runs.antt =====
-- What a run of the command leaves behind.
use laic.Prelude.{
  ℕ, ◌≡◌, refl, sym, ap, ◌∙◌, true, false, String, some, List, Result, ok, err, panicked, done, ◌⊎◌,
  inl, inr, Option-cases, ok-injective, bind-ok,
}
use mathlib.Core.Path.{subst}
use laic.Prelude.Detail.{Detail, Piece}
use laic.Laicc.Ast.{ℤ, LaicType, LaicFile, CompileError}
use laic.Laicc.Validate.File.{validate}
use laic.Laicc.Parser.Tree.{Pairs}
use laic.Laicc.Parser.File.{parse_source, compile}
use laic.Laicc.Codegen.Emitted.{panics, any}
use laic.Laicc.Codegen.Rust.Contract.{generate_rust}
use laic.Laicc.Codegen.Rust.Panics.{skill_panics, generate_rust-panics}
use laic.Laicc.Driver.{
  rust, Cli, Files, fmt, generate, read_contract, out_path, write_bindings, bindings,
  generate_bindings,
}

module _ (parse_float : String → Result ℕ Piece) (laic_parser : String → Result Pairs Piece)
    (debug : LaicType → Piece) (show : ℤ → Piece) where
  -- What `compile` returns was parsed from the source, and has passed validation.
  pub compile-ok :
      (source : String) (file : LaicFile)
      → compile parse_float laic_parser debug show source ≡ ok file
      → (parse_source parse_float laic_parser source ≡ ok file) × (validate debug show file ≡ done)
  unfolding compile
  compile-ok source file h =
      let (file', parsed, rest) = bind-ok (parse_source parse_float laic_parser source) _ h in
      let (_, valid, same) = bind-ok (validate debug show file') _ rest in
      (
        parsed ∙ same,
        subst (λ (f : LaicFile). validate debug show f ≡ done) (ok-injective same) valid,
      )

module _ {World : Type 0} (fs : Files World) (show_float : ℕ → List ℕ)
    (parse_float : String → Result ℕ Piece) (laic_parser : String → Result Pairs Piece)
    (debug : LaicType → Piece) (show : ℤ → Piece) (cli : Cli) (input source : String)
    (w : World) where
  -- A contract that cannot be read as one is reported, and nothing is written.
  pub generate_bindings-rejects :
      (e : CompileError)
      → cli.input ≡ some input
      → fs.read_to_string input w ≡ ok source
      → compile parse_float laic_parser debug show source ≡ err e
      → generate_bindings fs show_float parse_float laic_parser debug show cli w ≡ (err (fmt e), w)
  unfolding generate_bindings bindings read_contract
  generate_bindings-rejects e named read compiled = rw (named, read, compiled) refl

  -- How a run for Rust ends: a panic that leaves everything as it was, or the writing of the code.
  abbrev pub RustOutcome : LaicFile → Type 0
  RustOutcome file =
      ((any skill_panics file.skills ≡ true)
        × (generate_bindings fs show_float parse_float laic_parser debug show cli w
            ≡ (panicked, w)))
      ⊎ ((code : Detail) × (any skill_panics file.skills ≡ false)
          × (generate_rust show_float file ≡ some code)
          × (generate_bindings fs show_float parse_float laic_parser debug show cli w
              ≡ write_bindings fs cli.output (out_path fs cli input) code w))

  -- For Rust, a contract that compiles and has a field that is a list of options makes the command
  -- panic before it writes anything; without such a field, what is left of the run is the writing of
  -- the generated code to the output path.
  pub generate_bindings-rust :
      (file : LaicFile)
      → cli.lang ≡ rust
      → cli.input ≡ some input
      → fs.read_to_string input w ≡ ok source
      → compile parse_float laic_parser debug show source ≡ ok file
      → RustOutcome file
  unfolding generate_bindings bindings read_contract generate
  generate_bindings-rust file lang named read compiled =
      let (_, valid) = compile-ok parse_float laic_parser debug show source file compiled in
      let panic = generate_rust-panics show_float debug show file valid in
      elim (Option-cases (generate_rust show_float file)) [
        | inl gone ↦ inl (sym panic ∙ ap panics gone, rw (named, read, compiled, lang, gone) refl)
        | inr (code, made) ↦
            inr
              (code, sym panic ∙ ap panics made, made, rw (named, read, compiled, lang, made) refl)
      ]
