-- ===== src/Laicc/Validate/File/Accepted.antt =====
-- The files that validation lets through, described field by field.
use laic.Prelude.{
  ◌≡◌, ◌≢◌, ◌↔◌, refl, Bool, true, false, String, eq_iff, Option, none, some, List, [], ◌∷◌, map,
  done, All, arith,
}
use laic.Prelude.Detail.{Piece}
use laic.Laicc.Ast.{ℤ, LaicType, Literal, FieldDef, StructDef, SkillDef, LaicFile}
use laic.Laicc.Validate.Types.Supported.{supported, validate_field_type_iff}
use laic.Laicc.Validate.Names.{
  reserved, is_reserved_codegen_identifier, validate_codegen_identifier, validate_errors,
}
use laic.Laicc.Validate.Names.Errors.{IsUsable, validate_errors_iff}
use laic.Laicc.Validate.Names.Errors
use laic.Laicc.Validate.Sets.{Absent, Distinct, Fresh, Fresh-cons, Fresh-nil, contains-Absent}
use laic.Laicc.Validate.Steps.{both, if_absent}
use laic.Laicc.Validate.File.{
  is_empty_string, no_fields, no_skills, validate_default, validate_field, validate_fields_from,
  validate_struct, validate_skill, validate_skills_from, validate,
}
use laic.Laicc.Validate.File.Defaults.{IsDefault, validate_default_compat_iff}

abbrev pub field_name : FieldDef → String
field_name f = f.name

abbrev pub skill_name : SkillDef → String
skill_name k = k.name

abbrev pub skill_id : SkillDef → String
skill_id k = k.id

abbrev pub FitsDefault : LaicType → Option Literal → Type 0
FitsDefault t none = Unit
FitsDefault t (some d) = IsDefault t d

-- A field with a name that can be used, a default of its type, and a type that can be generated.
abbrev pub FieldOk : FieldDef → Type 0
FieldOk f = Absent f.name reserved × (FitsDefault f.ty f.default × (supported f.ty ≡ true))

-- A struct that is named and has fields, all of them right and no two of one name.
abbrev pub StructOk : StructDef → Type 0
StructOk d =
    (d.name ≢ "")
    × ((no_fields d.fields ≡ false)
        × (Absent d.name reserved × (All FieldOk d.fields × Distinct (map field_name d.fields))))

abbrev pub ErrorsOk : SkillDef → Type 0
ErrorsOk k =
    All IsUsable k.errors
    × (Distinct (map Errors.name k.errors) × Distinct (map Errors.code k.errors))

abbrev pub SkillOk : SkillDef → Type 0
SkillOk k =
    (k.id ≢ "") × (Absent k.name reserved × (StructOk k.input × (StructOk k.output × ErrorsOk k)))

-- A file with a version and skills, all of them right, no two of one name or of one id.
abbrev pub FileOk : LaicFile → Type 0
FileOk file =
    (file.version ≢ "")
    × ((no_skills file.skills ≡ false)
        × (All SkillOk file.skills
            × (Distinct (map skill_name file.skills) × Distinct (map skill_id file.skills))))

not_empty : (s : String) → (is_empty_string s ≡ false) ↔ (s ≢ "")
not_empty s = ground (arith, eq_iff s "")

same_false : (b : Bool) → (b ≡ false) ↔ (b ≡ false)
same_false b = (λ h. h, λ h. h)

module _ (debug : LaicType → Piece) (show : ℤ → Piece) where
  identifier_iff :
      (s context name : String)
      → (validate_codegen_identifier s context name ≡ done) ↔ Absent name reserved
  unfolding validate_codegen_identifier is_reserved_codegen_identifier
  identifier_iff s context name = if_absent _ _ (contains-Absent name reserved)

  validate_default_iff :
      (s f : String) (t : LaicType) (d : Option Literal)
      → (validate_default debug show s f t d ≡ done) ↔ FitsDefault t d
  unfolding validate_default
  validate_default_iff s f t none = (λ _. tt, λ _. refl)
  validate_default_iff s f t (some d) = validate_default_compat_iff debug show s f t d

  validate_field_iff :
      (s : String) (f : FieldDef) → (validate_field debug show s f ≡ done) ↔ FieldOk f
  unfolding validate_field
  validate_field_iff s f = both _ _ (identifier_iff s "field name" f.name) (
      both _ _ (validate_default_iff s f.name f.ty f.default)
        (validate_field_type_iff s f.name f.ty))

  validate_fields_from_iff :
      (s direction name : String) (names : List String) (fs : List FieldDef)
      → (validate_fields_from debug show s direction name names fs ≡ done)
        ↔ (All FieldOk fs × (Fresh names (map field_name fs) × Distinct (map field_name fs)))
  unfolding validate_fields_from
  validate_fields_from_iff s direction name names [] = (λ _. (tt, (tt, tt)), λ _. refl)
  validate_fields_from_iff s direction name names (f ∷ fs) =
      let (out, back) =
        both _ _ (both _ _ (if_absent _ _ (contains-Absent f.name names)) (validate_field_iff s f))
          (validate_fields_from_iff s direction name (f.name ∷ names) fs) in
      let (fn, bn) = Fresh-cons f.name names (map field_name fs) in
      (
        λ h.
            let ((absent, right), (rights, (fresh, differ))) = out h in
            ((right, rights), ((absent, (fn fresh).1), ((fn fresh).0, differ))),
        λ ((right, rights), ((absent, fresh), (differs, differ))).
            back ((absent, right), (rights, (bn (differs, fresh), differ))),
      )

  validate_struct_iff :
      (s direction : String) (d : StructDef)
      → (validate_struct debug show s direction d ≡ done) ↔ StructOk d
  unfolding validate_struct
  validate_struct_iff s direction d =
      let (out, back) = both _ _ (if_absent _ _ (not_empty d.name)) (
        both _ _ (if_absent _ _ (same_false (no_fields d.fields))) (
          both _ _ (identifier_iff s _ d.name)
            (validate_fields_from_iff s direction d.name [] d.fields))) in
      (
        λ h.
            let (named, (filled, (free, (rights, (_, differ))))) = out h in
            (named, (filled, (free, (rights, differ)))),
        λ (named, (filled, (free, (rights, differ)))).
            back (named, (filled, (free, (rights, (Fresh-nil (map field_name d.fields), differ))))),
      )

  errors_nested : (s : String) (k : SkillDef) → (validate_errors s k.errors ≡ done) ↔ ErrorsOk k
  errors_nested s k =
      let (out, back) = validate_errors_iff s k.errors in
      (
        λ h. let (usable, names, codes) = out h in (usable, (names, codes)),
        λ (usable, (names, codes)). back (usable, names, codes),
      )

  validate_skill_iff :
      (names ids : List String) (k : SkillDef)
      → (validate_skill debug show names ids k ≡ done)
        ↔ (Absent k.name names × (Absent k.id ids × SkillOk k))
  unfolding validate_skill
  validate_skill_iff names ids k = both _ _ (if_absent _ _ (contains-Absent k.name names)) (
      both _ _ (if_absent _ _ (contains-Absent k.id ids)) (
        both _ _ (if_absent _ _ (not_empty k.id)) (
          both _ _ (identifier_iff k.name "skill name" k.name) (
            both _ _ (validate_struct_iff k.name "input" k.input)
              (both _ _ (validate_struct_iff k.name "output" k.output) (errors_nested k.name k))))))

  validate_skills_from_iff :
      (names ids : List String) (ks : List SkillDef)
      → (validate_skills_from debug show names ids ks ≡ done) ↔ (
          All SkillOk ks
          × ((Fresh names (map skill_name ks) × Fresh ids (map skill_id ks))
              × (Distinct (map skill_name ks) × Distinct (map skill_id ks))))
  unfolding validate_skills_from
  validate_skills_from_iff names ids [] = (λ _. (tt, ((tt, tt), (tt, tt))), λ _. refl)
  validate_skills_from_iff names ids (k ∷ ks) =
      let (out, back) =
        both _ _ (validate_skill_iff names ids k)
          (validate_skills_from_iff (k.name ∷ names) (k.id ∷ ids) ks) in
      let (fn, bn) = Fresh-cons k.name names (map skill_name ks) in
      let (fi, bi) = Fresh-cons k.id ids (map skill_id ks) in
      (
        λ h.
            let ((new_name, (new_id, right)), (rights, ((names', ids'), (dn, di)))) = out h in
            (
              (right, rights),
              (
                ((new_name, (fn names').1), (new_id, (fi ids').1)),
                (((fn names').0, dn), ((fi ids').0, di)),
              ),
            ),
        λ ((right, rights), (((new_name, fresh), (new_id, fresh')), ((n, dn), (i, di)))).
            back
              ((new_name, (new_id, right)), (rights, ((bn (n, fresh), bi (i, fresh')), (dn, di)))),
      )

  -- A file is accepted exactly when it has a version and a skill; no two skills have one name or one
  -- id; no name is a reserved word, no id and no struct's name is empty; every struct has a field
  -- and no two of one name; every field has a supported type and, if any, a default of that type;
  -- and the error blocks have usable, distinct names and codes.
  pub validate_iff : (file : LaicFile) → (validate debug show file ≡ done) ↔ FileOk file
  unfolding validate
  validate_iff file =
      let (out, back) = both _ _ (if_absent _ _ (not_empty file.version)) (
        both _ _ (if_absent _ _ (same_false (no_skills file.skills)))
          (validate_skills_from_iff [] [] file.skills)) in
      (
        λ h.
            let (versioned, (filled, (rights, (_, differ)))) = out h in
            (versioned, (filled, (rights, differ))),
        λ (versioned, (filled, (rights, differ))). back (
          versioned,
          (
            filled,
            (
              rights,
              (
                (Fresh-nil (map skill_name file.skills), Fresh-nil (map skill_id file.skills)),
                differ,
              ),
            ),
          ),
        ),
      )
