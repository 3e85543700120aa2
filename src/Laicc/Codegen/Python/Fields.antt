-- ===== src/Laicc/Codegen/Python/Fields.antt =====
-- The fields that a dataclass declares, and their order.
use laic.Prelude.{
  ℕ, ◌≡◌, refl, sym, ap, ◌∙◌, true, false, Bool-cases, inl, inr, String, Option, none, some, List,
  [], ◌∷◌, ◌++◌, append_assoc, append-nil, All, arith,
}
use laic.Prelude.Detail.{Detail, text}
use laic.Laicc.Ast.{Literal, FieldDef, SkillDef, StructDef}
use laic.Laicc.Codegen.Emitted.{for_each}
use laic.Laicc.Codegen.Python.Types.{python_type, literal_to_python}
use laic.Laicc.Codegen.Text.{python_string_literal}
use laic.Laicc.Codegen.Python.Serialize.{generate_to_ipc}
use laic.Laicc.Codegen.Python.Deserialize.{generate_from_ipc}
use laic.Laicc.Codegen.Python.Contract.{
  has_default, partition, field_without_default, assigned, field_with_default, generate_fields,
  generate_dataclass,
}

-- A list whose elements are those of two others, in an order that keeps both.
pub data Interleaving {ℓ} {A : Type ℓ} : List A → List A → List A → Type ℓ where
  nothing : Interleaving [] [] []
  left : {x : A} {xs ys zs : List A} → Interleaving xs ys zs → Interleaving (x ∷ xs) ys (x ∷ zs)
  right : {y : A} {xs ys zs : List A} → Interleaving xs ys zs → Interleaving xs (y ∷ ys) (y ∷ zs)

abbrev pub Required : FieldDef → Type 0
Required f = has_default f.default ≡ false

abbrev pub Optional : FieldDef → Type 0
Optional f = has_default f.default ≡ true

-- `partition` splits a list by whether a field has a default, and keeps the order on both sides.
partition_lem :
    (fs : List FieldDef)
    → All Required (partition fs).0
      × All Optional (partition fs).1
      × Interleaving (partition fs).0 (partition fs).1 fs
partition_lem [] = (tt, tt, nothing)
partition_lem (f ∷ fs) =
    let (required, rest, order) = partition_lem fs in
    elim (Bool-cases (has_default f.default)) [
      | inl given ↦ rw given (required, (given, rest), right order)
      | inr lacking ↦ rw lacking ((lacking, required), rest, left order)
    ]

for_each-append {ℓ} :
    {A : Type ℓ} (f : A → Detail) (xs ys : List A)
    → for_each f (xs ++ ys) ≡ for_each f xs ++ for_each f ys
for_each-append f [] ys = refl
for_each-append f (x ∷ xs) ys =
    ap (λ d. f x ++ d) (for_each-append f xs ys)
    ∙ sym (append_assoc (f x) (for_each f xs) (for_each f ys))

-- Takes a list out of the middle of a text.
around : (xs ts fs ys zs : Detail) → xs ++ (ts ++ fs) ++ ys ++ zs ≡ xs ++ ts ++ fs ++ (ys ++ zs)
around xs ts fs ys zs = simp append_assoc

abbrev direction_line : String → Detail
direction_line direction =
    text "\n" ∷ text "    DIRECTION: ClassVar[str] = \"" ∷ text direction ∷ text "\"\n\n" ∷ []

-- The lines above the fields of a dataclass, but for the last.
abbrev class_lines : SkillDef → StructDef → String → String → Detail
class_lines skill def direction version =
    text "@dataclasses.dataclass\n"
      ∷ text "class "
      ∷ text def.name
      ∷ text ":\n"
      ∷ text "    \"\"\"LAIC contract: skill="
      ∷ python_string_literal skill.id
    ++ text ", direction='"
      ∷ text direction
      ∷ text "'.\"\"\"\n\n"
      ∷ text "    SKILL_ID: ClassVar[str] = "
      ∷ python_string_literal skill.id
    ++ text "\n" ∷ text "    VERSION: ClassVar[str] = " ∷ python_string_literal version

-- The lines above the fields of a dataclass.
abbrev pub heading : SkillDef → StructDef → String → String → Detail
heading skill def direction version =
    class_lines skill def direction version ++ direction_line direction

module _ (show_float : ℕ → List ℕ) where
  -- What follows the type of a field: its default, if it has one.
  abbrev pub initial : Option Literal → Detail
  initial none = []
  initial (some lit) = text " = " ∷ literal_to_python show_float lit

  -- The line of a dataclass that declares a field.
  abbrev pub declaration : FieldDef → Detail
  declaration f =
      text "    " ∷ text f.name ∷ text ": " ∷ python_type f.ty
      ++ initial f.default
      ++ text "\n" ∷ []

  declared_without_default :
      (f : FieldDef) (given : Option Literal)
      → has_default given ≡ false
      → field_without_default f
        ≡ text "    " ∷ text f.name ∷ text ": " ∷ python_type f.ty
          ++ initial given
          ++ text "\n" ∷ []
  declared_without_default f none h = sym (
      ap (λ d. d ++ text "\n" ∷ [])
        (append-nil (text "    " ∷ text f.name ∷ text ": " ∷ python_type f.ty)))
  declared_without_default f (some lit) h = ground arith

  declared_with_default :
      (f : FieldDef) (given : Option Literal)
      → has_default given ≡ true
      → assigned show_float f given
        ≡ text "    " ∷ text f.name ∷ text ": " ∷ python_type f.ty
          ++ initial given
          ++ text "\n" ∷ []
  declared_with_default f none h = ground arith
  declared_with_default f (some lit) h = refl

  lines_without_default :
      (fs : List FieldDef)
      → All Required fs
      → for_each field_without_default fs ≡ for_each declaration fs
  lines_without_default [] h = refl
  lines_without_default (f ∷ fs) (h, hs) =
      ap (λ d. d ++ for_each field_without_default fs) (declared_without_default f f.default h)
      ∙ ap (λ d. declaration f ++ d) (lines_without_default fs hs)

  lines_with_default :
      (fs : List FieldDef)
      → All Optional fs
      → for_each (field_with_default show_float) fs ≡ for_each declaration fs
  lines_with_default [] h = refl
  lines_with_default (f ∷ fs) (h, hs) =
      rw (declared_with_default f f.default h, lines_with_default fs hs) refl

  -- The block of a struct's fields.
  generate_fields_lem :
      (fs : List FieldDef)
      → generate_fields show_float fs ≡ for_each declaration ((partition fs).0 ++ (partition fs).1)
  unfolding generate_fields
  generate_fields_lem fs =
      let (required, optional, _) = partition_lem fs in
      rw
        (
          lines_without_default (partition fs).0 required,
          lines_with_default (partition fs).1 optional,
          for_each-append declaration (partition fs).0 (partition fs).1,
        )
        refl

  -- The methods of a dataclass, below its fields.
  abbrev pub methods : SkillDef → StructDef → String → String → Detail
  methods skill def direction version =
      text "\n" ∷ generate_to_ipc skill def direction version
      ++ generate_from_ipc show_float def skill.id version direction

  -- The class that is generated for a struct has one block between its heading and its methods. The
  -- block declares, on a line each, every field of the struct once, with its name, its Python type
  -- and its default if it has one: first the fields without a default and then those with one, each
  -- group in the order of the struct.
  pub generate_dataclass_lem :
      (skill : SkillDef) (def : StructDef) (direction version : String)
      → (required : List FieldDef) × (optional : List FieldDef) × All Required required
        × All Optional optional
        × Interleaving required optional def.fields
        × (generate_dataclass show_float skill def direction version
            ≡ heading skill def direction version
              ++ for_each declaration (required ++ optional)
              ++ methods skill def direction version)
  unfolding generate_dataclass
  generate_dataclass_lem skill def direction version =
      let (required, optional, order) = partition_lem def.fields in
      (
        (partition def.fields).0,
        (partition def.fields).1,
        required,
        optional,
        order,
        around (class_lines skill def direction version) (direction_line direction)
              (generate_fields show_float def.fields)
              (text "\n" ∷ generate_to_ipc skill def direction version)
              (generate_from_ipc show_float def skill.id version direction)
            ∙ ap
                (λ d.
                  heading skill def direction version ++ d ++ methods skill def direction version)
                (generate_fields_lem def.fields),
      )
