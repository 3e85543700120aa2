-- ===== src/Laicc/Parser/RoundTrip.antt =====
-- The parser reads from a tree of the grammar the syntax that the tree says.
use Prim.Native.Char.{Char, code}
use laic.Prelude.{
  ℕ, ◌≤◌, ◌≡◌, ◌≢◌, inl, inr, refl, sym, ap, ◌∙◌, false, String, str_eq, eq_iff, List, ok,
  Bool-cases, arith,
}
use laic.Laicc.Ast.{
  TensorElementType, as_str, f32, f64, i8, i16, i32, i64, u8, bool, Dimension, LaicType,
}
use laic.Laicc.Parser.Tree.{Pair, pair, Pairs, nil, tensor_dtype}
use laic.Laicc.Parser.Text.{is_whitespace, trim, trim_end_matches, keep_end, parse_unsigned}
use laic.Laicc.Parser.Text.Numbers.{IsDigit, IsNumeral, value, parse_unsigned-IsNumeral}
use laic.Laicc.Parser.Types.{
  require_next, parse_tensor_dtype, parse_dimension, parse_dims, parse_dim_list, parse_tensor_type,
  parse_laic_type, max_usize,
}
use laic.Laicc.Parser.Grammar.{
  IsLetter, StartsWithLetter, IsDimension, constant, anonymous, named, IsDims, no_more, one_more,
  IsType, a_string, a_bytes, a_bool, an_i8, an_i16, an_i32, an_i64, a_u8, an_f32, an_f64, a_tensor,
  a_list, an_optional, a_map,
}

first_code : String → ℕ
first_code String.[] = 0
first_code (String.◌∷◌ c s) = code c

keep_end-first :
    (c : Char) (s : String)
    → is_whitespace c ≡ false
    → first_code (keep_end is_whitespace c s) ≡ code c
unfolding first_code
keep_end-first c String.[] h = rw h
keep_end-first c (String.◌∷◌ d s) h = refl

trim-first :
    (c : Char) (s : String) → is_whitespace c ≡ false → first_code (trim (String.◌∷◌ c s)) ≡ code c
unfolding first_code
trim-first c s h = rw h (keep_end-first c (trim_end_matches is_whitespace s) h)

-- A token that starts with a letter or a digit is not the anonymous dimension.
not_anonymous :
    (c : Char) (s : String)
    → is_whitespace c ≡ false
    → code c ≢ 95
    → str_eq (trim (String.◌∷◌ c s)) "_" ≡ false
unfolding first_code
not_anonymous c s h h' = elim (Bool-cases (str_eq (trim (String.◌∷◌ c s)) "_")) [
  | inl e ↦ absurd (h' (sym (trim-first c s h) ∙ ap first_code ((eq_iff _ "_").0 e)))
  | inr e ↦ e
]

digit-ordinary : (c : Char) → IsDigit c → (is_whitespace c ≡ false) × (code c ≢ 95)
digit-ordinary c h = ground arith

letter-ordinary : (c : Char) → IsLetter c → (is_whitespace c ≡ false) × (code c ≢ 95)
letter-ordinary c h = ground arith

pub in_range :
    (max : ℕ) (d : String) → IsNumeral d → value d ≤ max → parse_unsigned max d ≡ ok (value d)
in_range max d h le = parse_unsigned-IsNumeral max d h ∙ ground arith

numeral-not_anonymous : (d : String) → IsNumeral d → str_eq (trim d) "_" ≡ false
numeral-not_anonymous String.[] h = absurd h
numeral-not_anonymous (String.◌∷◌ c s) (hc, _) =
    let (a, b) = digit-ordinary c hc in not_anonymous c s a b

name-not_anonymous : (x : String) → StartsWithLetter x → str_eq (trim x) "_" ≡ false
name-not_anonymous String.[] h = absurd h
name-not_anonymous (String.◌∷◌ c s) hc = let (a, b) = letter-ordinary c hc in not_anonymous c s a b

parse_dimension-IsDimension :
    {p : Pair} {d : Dimension} → IsDimension p d → parse_dimension p ≡ ok d
unfolding parse_dimension
parse_dimension-IsDimension (constant {d} h le) =
    rw (numeral-not_anonymous d h, in_range max_usize d h le) refl
parse_dimension-IsDimension anonymous = refl
parse_dimension-IsDimension (named {x} h) = rw (name-not_anonymous x h) refl

parse_dims-IsDims : {ps : Pairs} {ds : List Dimension} → IsDims ps ds → parse_dims ps ≡ ok ds
unfolding parse_dims
parse_dims-IsDims no_more = refl
parse_dims-IsDims (one_more d ds) = rw (parse_dimension-IsDimension d, parse_dims-IsDims ds) refl

parse_tensor_dtype-as_str :
    (e : TensorElementType) → parse_tensor_dtype (pair tensor_dtype (as_str e) nil) ≡ ok e
unfolding parse_tensor_dtype as_str
parse_tensor_dtype-as_str f32 = refl
parse_tensor_dtype-as_str f64 = refl
parse_tensor_dtype-as_str i8 = refl
parse_tensor_dtype-as_str i16 = refl
parse_tensor_dtype-as_str i32 = refl
parse_tensor_dtype-as_str i64 = refl
parse_tensor_dtype-as_str u8 = refl
parse_tensor_dtype-as_str bool = refl

pub parse_laic_type-IsType : {p : Pair} {t : LaicType} → IsType p t → parse_laic_type p ≡ ok t
unfolding parse_laic_type parse_tensor_type parse_dim_list require_next
parse_laic_type-IsType a_string = refl
parse_laic_type-IsType a_bytes = refl
parse_laic_type-IsType a_bool = refl
parse_laic_type-IsType an_i8 = refl
parse_laic_type-IsType an_i16 = refl
parse_laic_type-IsType an_i32 = refl
parse_laic_type-IsType an_i64 = refl
parse_laic_type-IsType a_u8 = refl
parse_laic_type-IsType an_f32 = refl
parse_laic_type-IsType an_f64 = refl
parse_laic_type-IsType (a_tensor {e} dims) =
    rw (parse_tensor_dtype-as_str e, parse_dims-IsDims dims) refl
parse_laic_type-IsType (a_list t) = rw (parse_laic_type-IsType t) refl
parse_laic_type-IsType (an_optional t) = rw (parse_laic_type-IsType t) refl
parse_laic_type-IsType (a_map t u) = rw (parse_laic_type-IsType t, parse_laic_type-IsType u) refl
