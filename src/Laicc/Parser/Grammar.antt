-- ===== src/Laicc/Parser/Grammar.antt =====
-- crates/laicc/src/laic.pest: which trees of pairs the grammar gives, and the syntax that each says.
-- The text of a pair that holds others is any text, since it has the source's spaces and comments.
use Prim.Native.Char.{Char, code}
use laic.Prelude.{
  ℕ, ◌-◌, ◌^◌, ◌≤◌, ◌≡◌, ◌⊎◌, true, false, String, none, some, List, [], ◌∷◌, Result, ok,
}
use laic.Prelude.Detail.{Piece}
use laic.Laicc.Ast.{
  TensorElementType, as_str, Dimension, fixed, dynamic, LaicType, string, bytes, bool_ty, i8_ty,
  i16_ty, i32_ty, i64_ty, u8_ty, f32_ty, f64_ty, tensor, list, optional, map_ty, pos, Literal,
  string_lit, integer, float, bool_lit, FieldDef, StructDef, ErrorVariant, SkillDef, LaicFile,
}
use laic.Laicc.Parser.Tree.{Rule, Pair, pair, Pairs, nil, next}
use laic.Laicc.Parser.Tree.{
  eoi, version_decl, skill_def, id_decl, input_def, output_def, field_def, default_value, laic_type,
  map_type, list_type, optional_type, tensor_type, tensor_dtype, dim_list, dimension, error_def,
  error_variant, ident, literal, string_literal, float_literal, integer_literal, bool_literal,
}
use laic.Laicc.Parser.Tree
use laic.Laicc.Parser.Text.{negate}
use laic.Laicc.Parser.Text.Numbers.{IsNumeral, value}
use laic.Laicc.Parser.Text.Strings.{Without, quoted, SameLines}

-- `ASCII_ALPHA`, which an identifier starts with.
abbrev pub IsLetter : Char → Type 0
IsLetter c = ((65 ≤ code c) × (code c ≤ 90)) ⊎ ((97 ≤ code c) × (code c ≤ 122))

abbrev pub StartsWithLetter : String → Type 0
StartsWithLetter String.[] = ⊥
StartsWithLetter (String.◌∷◌ c s) = IsLetter c

pub data IsDimension : Pair → Dimension → Type 0 where
  constant :
      {d : String}
      → IsNumeral d
      → value d ≤ 2 ^ 64 - 1
      → IsDimension (pair dimension d (next (pair Tree.integer d nil) nil)) (fixed (value d))
  anonymous : IsDimension (pair dimension "_" nil) (dynamic none)
  named :
      {x : String}
      → StartsWithLetter x
      → IsDimension (pair dimension x (next (pair ident x nil) nil)) (dynamic (some x))

pub data IsDims : Pairs → List Dimension → Type 0 where
  no_more : IsDims nil []
  one_more :
      {s : String} {inner ps : Pairs} {d : Dimension} {ds : List Dimension}
      → IsDimension (pair dimension s inner) d
      → IsDims ps ds
      → IsDims (next (pair dimension s inner) ps) (d ∷ ds)

pub data IsType : Pair → LaicType → Type 0 where
  a_string : IsType (pair laic_type "string" nil) string
  a_bytes : IsType (pair laic_type "bytes" nil) bytes
  a_bool : IsType (pair laic_type "bool" nil) bool_ty
  an_i8 : IsType (pair laic_type "i8" nil) i8_ty
  an_i16 : IsType (pair laic_type "i16" nil) i16_ty
  an_i32 : IsType (pair laic_type "i32" nil) i32_ty
  an_i64 : IsType (pair laic_type "i64" nil) i64_ty
  a_u8 : IsType (pair laic_type "u8" nil) u8_ty
  an_f32 : IsType (pair laic_type "f32" nil) f32_ty
  an_f64 : IsType (pair laic_type "f64" nil) f64_ty
  a_tensor :
      {s s' s'' : String} {e : TensorElementType} {ps : Pairs} {dims : List Dimension}
      → IsDims ps dims
      → IsType
          (pair laic_type s (
            next
              (pair tensor_type s'
                (next (pair tensor_dtype (as_str e) nil) (next (pair dim_list s'' ps) nil)))
              nil))
          (tensor e dims)
  a_list :
      {s s' : String} {p : Pair} {t : LaicType}
      → IsType p t
      → IsType (pair laic_type s (next (pair list_type s' (next p nil)) nil)) (list t)
  an_optional :
      {s s' : String} {p : Pair} {t : LaicType}
      → IsType p t
      → IsType (pair laic_type s (next (pair optional_type s' (next p nil)) nil)) (optional t)
  a_map :
      {s s' : String} {p q : Pair} {t u : LaicType}
      → IsType p t
      → IsType q u
      → IsType (pair laic_type s (next (pair map_type s' (next p (next q nil))) nil)) (map_ty t u)

pub data IsVariants : Pairs → List ErrorVariant → Type 0 where
  no_variant : IsVariants nil []
  variant :
      {s n d : String} {ps : Pairs} {vs : List ErrorVariant}
      → IsNumeral d
      → value d ≤ 2 ^ 16 - 1
      → IsVariants ps vs
      → IsVariants
          (next
            (pair error_variant s (next (pair ident n nil) (next (pair Tree.integer d nil) nil)))
            ps)
          (record { name = n; code = value d } ∷ vs)

pub data IsErrors : Pairs → List ErrorVariant → Type 0 where
  no_errors : IsErrors nil []
  errors_of :
      {s : String} {ps : Pairs} {vs : List ErrorVariant}
      → IsVariants ps vs
      → IsErrors (next (pair error_def s ps) nil) vs

-- What the floats are is a parameter.
module _ (parse_float : String → Result ℕ Piece) where
  pub data IsLiteral : Pair → Literal → Type 0 where
    text_literal :
        {s x y : String}
        → Without 34 x
        → SameLines x y
        → IsLiteral (pair literal s (next (pair string_literal (quoted x) nil) nil)) (string_lit y)
    positive :
        {s d : String}
        → IsNumeral d
        → value d ≤ 2 ^ 63 - 1
        → IsLiteral
            (pair literal s (next (pair integer_literal d nil) nil))
            (integer (pos (value d)))
    negative :
        {s d : String}
        → IsNumeral d
        → value d ≤ 2 ^ 63
        → IsLiteral
            (pair literal s (next (pair integer_literal (String.◌∷◌ "-" d) nil) nil))
            (integer (negate (value d)))
    number :
        {s x : String} {v : ℕ}
        → parse_float x ≡ ok v
        → IsLiteral (pair literal s (next (pair float_literal x nil) nil)) (float v)
    a_true :
        {s : String}
        → IsLiteral (pair literal s (next (pair bool_literal "true" nil) nil)) (bool_lit true)
    a_false :
        {s : String}
        → IsLiteral (pair literal s (next (pair bool_literal "false" nil) nil)) (bool_lit false)

  pub data IsFields : Pairs → List FieldDef → Type 0 where
    no_field : IsFields nil []
    field :
        {s n : String} {p : Pair} {t : LaicType} {ps : Pairs} {fs : List FieldDef}
        → IsType p t
        → IsFields ps fs
        → IsFields
            (next (pair field_def s (next (pair ident n nil) (next p nil))) ps)
            (record { name = n; ty = t; default = none } ∷ fs)
    field_with_default :
        {s s' n : String} {p q : Pair} {t : LaicType} {l : Literal} {ps : Pairs}
        {fs : List FieldDef}
        → IsType p t
        → IsLiteral q l
        → IsFields ps fs
        → IsFields
            (next
              (pair field_def s
                (next (pair ident n nil) (next p (next (pair default_value s' (next q nil)) nil))))
              ps)
            (record { name = n; ty = t; default = some l } ∷ fs)

  pub data IsStruct : Rule → Pair → StructDef → Type 0 where
    a_struct :
        {r : Rule} {s n : String} {ps : Pairs} {fs : List FieldDef}
        → IsFields ps fs
        → IsStruct r (pair r s (next (pair ident n nil) ps)) (record { name = n; fields = fs })

  pub data IsSkills : Pairs → List SkillDef → Type 0 where
    end : {s : String} → IsSkills (next (pair eoi s nil) nil) []
    skill :
        {s s' n id : String} {input output : Pair} {i o : StructDef} {es ps : Pairs}
        {vs : List ErrorVariant} {ks : List SkillDef}
        → Without 34 id
        → IsStruct input_def input i
        → IsStruct output_def output o
        → IsErrors es vs
        → IsSkills ps ks
        → IsSkills
            (next
              (pair skill_def s (
                next (pair ident n nil) (
                  next
                    (pair id_decl s' (next (pair string_literal (quoted id) nil) nil))
                    (next input (next output es)))))
              ps)
            (record { name = n; id = id; input = i; output = o; errors = vs } ∷ ks)

  pub data IsFile : Pair → LaicFile → Type 0 where
    a_file :
        {s s' v : String} {ps : Pairs} {ks : List SkillDef}
        → Without 34 v
        → IsSkills ps ks
        → IsFile
            (pair Tree.file s
              (next (pair version_decl s' (next (pair string_literal (quoted v) nil) nil)) ps))
            (record { version = v; skills = ks })
