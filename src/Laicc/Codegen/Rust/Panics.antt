-- ===== src/Laicc/Codegen/Rust/Panics.antt =====
-- When the Rust generator reaches `unreachable!`, on the types that validation lets through.
use laic.Prelude.{ℕ, ◌≡◌, refl, Bool, true, false, ◌||◌, String, Option, arith, List, [], ◌∷◌, All}
use laic.Prelude.{done}
use laic.Prelude.Detail.{Piece}
use laic.Laicc.Ast.{
  LaicType, list, optional, map_ty, Literal, FieldDef, StructDef, SkillDef, LaicFile, ℤ,
}
use laic.Laicc.Validate.Types.Supported.{supported}
use laic.Laicc.Validate.File.{validate}
use laic.Laicc.Validate.File.Accepted.{FieldOk, StructOk, SkillOk, validate_iff}
use laic.Laicc.Codegen.Emitted.{panics, any, panics-⧺, panics-emit_each}
use laic.Laicc.Codegen.Rust.Types.{arrow_builder_type, arrow_array_type}
use laic.Laicc.Codegen.Rust.Columns.{
  emit_list_column, emit_optional_column, emit_map_column, emit_to_arrow_column,
}
use laic.Laicc.Codegen.Rust.Serialize.{column, generate_to_arrow_ipc}
use laic.Laicc.Codegen.Rust.DeserializeLists.{emit_list_extraction}
use laic.Laicc.Codegen.Rust.DeserializeFields.{emit_optional_extraction, emit_map_extraction}
use laic.Laicc.Codegen.Rust.Deserialize.{
  field_extraction, emit_field_extraction, generate_from_arrow_ipc,
}
use laic.Laicc.Codegen.Rust.Contract.{generate_struct, generate_skill, generate_rust}

abbrev pub is_list_of_optional : LaicType → Bool
is_list_of_optional (list (optional _)) = true
is_list_of_optional _ = false

column-panics :
    (name : String) (t : LaicType)
    → supported t ≡ true
    → panics (emit_to_arrow_column name t) ≡ is_list_of_optional t
unfolding emit_to_arrow_column emit_list_column emit_optional_column emit_map_column
    arrow_builder_type
column-panics name (list inner) h = ground arith
column-panics name (optional inner) h = ground arith
column-panics name (map_ty k v) h = ground arith
column-panics name t h = ground arith

extraction-panics :
    (show_float : ℕ → List ℕ) (name : String) (d : Option Literal) (t : LaicType)
    → supported t ≡ true
    → panics (field_extraction show_float name d t) ≡ false
unfolding emit_list_extraction emit_optional_extraction emit_map_extraction arrow_array_type
extraction-panics f name d (list inner) h = ground arith
extraction-panics f name d (optional inner) h = ground arith
extraction-panics f name d (map_ty k v) h = ground arith
extraction-panics f name d t h = ground arith

abbrev pub field_panics : FieldDef → Bool
field_panics f = is_list_of_optional f.ty

-- Whether a skill's structs have a field that is a list of options.
abbrev pub skill_panics : SkillDef → Bool
skill_panics k = any field_panics k.input.fields || any field_panics k.output.fields

any-ext {ℓ κ} :
    {A : Type ℓ} (P : A → Type κ) (p q : A → Bool) (xs : List A)
    → ((x : A) → P x → p x ≡ q x)
    → All P xs
    → any p xs ≡ any q xs
any-ext P p q [] same h = refl
any-ext P p q (x ∷ xs) same (hx, hxs) = rw (same x hx, any-ext P p q xs same hxs)

any-false {ℓ} : {A : Type ℓ} (xs : List A) → any (λ (_ : A). false) xs ≡ false
any-false [] = refl
any-false (x ∷ xs) = any-false xs

module _ (show_float : ℕ → List ℕ) where
  columns-panics : (f : FieldDef) → FieldOk f → panics (column f) ≡ field_panics f
  columns-panics f (_, (_, ok_type)) =
      rw (panics-⧺, panics-⧺, column-panics f.name f.ty ok_type) (ground arith)

  extractions-panic :
      (f : FieldDef) → FieldOk f → panics (emit_field_extraction show_float f) ≡ false
  unfolding emit_field_extraction
  extractions-panic f (_, (_, ok_type)) = extraction-panics show_float f.name f.default f.ty ok_type

  to_arrow-panics :
      (k : SkillDef) (d : StructDef) (direction version : String)
      → StructOk d
      → panics (generate_to_arrow_ipc k d direction version) ≡ any field_panics d.fields
  unfolding generate_to_arrow_ipc
  to_arrow-panics k d direction version (_, (_, (_, (fields, _)))) =
      rw
        (
          panics-⧺,
          panics-⧺,
          panics-emit_each,
          any-ext FieldOk _ field_panics d.fields columns-panics fields,
        )
        (ground arith)

  from_arrow-panics :
      (d : StructDef) (id version direction : String)
      → StructOk d
      → panics (generate_from_arrow_ipc show_float d id version direction) ≡ false
  unfolding generate_from_arrow_ipc
  from_arrow-panics d id version direction (_, (_, (_, (fields, _)))) =
      rw
        (
          panics-⧺,
          panics-⧺,
          panics-emit_each,
          any-ext FieldOk _ (λ _. false) d.fields extractions-panic fields,
          any-false,
        )
        refl

  struct-panics :
      (k : SkillDef) (d : StructDef) (direction version : String)
      → StructOk d
      → panics (generate_struct show_float k d direction version) ≡ any field_panics d.fields
  unfolding generate_struct
  struct-panics k d direction version good =
      rw
        (
          panics-⧺,
          panics-⧺,
          panics-⧺,
          panics-⧺,
          to_arrow-panics k d direction version good,
          from_arrow-panics d k.id version direction good,
        )
        (ground arith)

  skill_lem :
      (version : String) (k : SkillDef)
      → SkillOk k
      → panics (generate_skill show_float version k) ≡ skill_panics k
  skill_lem version k (_, (_, (input, (output, _)))) =
      rw
        (
          panics-⧺,
          panics-⧺,
          panics-⧺,
          struct-panics k k.input "input" version input,
          struct-panics k k.output "output" version output,
        )
        (ground arith)

  -- On a file that validation lets through, the Rust generator panics exactly when some field of some
  -- struct is a list of options; any other accepted file is generated to its end.
  pub generate_rust-panics :
      (debug : LaicType → Piece) (show : ℤ → Piece) (file : LaicFile)
      → validate debug show file ≡ done
      → panics (generate_rust show_float file) ≡ any skill_panics file.skills
  unfolding generate_rust
  generate_rust-panics debug show file accepted =
      let (_, (_, (skills, _))) = (validate_iff debug show file).0 accepted in
      rw
        (
          panics-⧺,
          panics-emit_each,
          any-ext SkillOk _ skill_panics file.skills (skill_lem file.version) skills,
        )
        (ground arith)
