-- ===== src/Laicc/Parser/Types.antt =====
-- crates/laicc/src/parser.rs: types and dimensions.
use laic.Prelude.{
  ℕ, ◌-◌, ◌^◌, String, str_eq, none, some, List, [], ◌∷◌, Result, ok, err, ◌>>=◌, map_err,
  if◌then◌else◌,
}
use laic.Prelude.Detail.{text}
use laic.Laicc.Ast.{
  TensorElementType, f32, f64, i8, i16, i32, i64, u8, bool, Dimension, fixed, dynamic, LaicType,
  string, bytes, bool_ty, i8_ty, i16_ty, i32_ty, i64_ty, u8_ty, f32_ty, f64_ty, tensor, list,
  optional, map_ty, CompileError, parse,
}
use laic.Laicc.Parser.Tree.{
  Rule, debug_rule, dimension, integer, ident, map_type, list_type, optional_type, tensor_type,
  Pair, pair, Pairs, nil, next, as_str, into_inner,
}
use laic.Laicc.Parser.Text.{trim, parse_unsigned, show_int_error}

abbrev pub expected : String → CompileError
expected context = parse (text "expected " ∷ text context ∷ [])

-- The next pair and the iterator after it.
unfoldable pub require_next : Pairs → String → Result (Pair × Pairs) CompileError
require_next nil context = err (expected context)
require_next (next p ps) context = ok (p, ps)

abbrev pub unknown_dtype : String → CompileError
unknown_dtype other = parse (text "unknown tensor dtype: '" ∷ text other ∷ text "'" ∷ [])

abbrev pub dtype_of : String → Result TensorElementType CompileError
dtype_of s =
    if str_eq s "f32"
    then ok f32
    else if str_eq s "f64"
    then ok f64
    else if str_eq s "i8"
    then ok i8
    else if str_eq s "i16"
    then ok i16
    else if str_eq s "i32"
    then ok i32
    else if str_eq s "i64"
    then ok i64
    else if str_eq s "u8"
    then ok u8
    else if str_eq s "bool"
    then ok bool
    else err (unknown_dtype s)

unfoldable pub parse_tensor_dtype : Pair → Result TensorElementType CompileError
parse_tensor_dtype p = dtype_of (trim (as_str p))

abbrev pub max_usize : ℕ
max_usize = 2 ^ 64 - 1

abbrev pub unexpected_dimension : Rule → CompileError
unexpected_dimension r = parse (text "unexpected dimension rule: " ∷ text (debug_rule r) ∷ [])

-- On the first pair inside a dimension.
abbrev pub inner_dimension : Pair → Result Dimension CompileError
inner_dimension (pair integer s _) = do
  val ←
      map_err (λ e. parse (text "invalid dimension integer: " ∷ text (show_int_error e) ∷ []))
        (parse_unsigned max_usize s)
  ok (fixed val)
inner_dimension (pair ident s _) = ok (dynamic (some s))
inner_dimension (pair r _ _) = err (unexpected_dimension r)

abbrev pub first_dimension : String → Pairs → Result Dimension CompileError
first_dimension s (next child _) = inner_dimension child
first_dimension s nil = err (parse (text "could not parse dimension: '" ∷ text s ∷ text "'" ∷ []))

unfoldable pub parse_dimension : Pair → Result Dimension CompileError
parse_dimension (pair _ s inner) =
    if str_eq (trim s) "_" then ok (dynamic none) else first_dimension (trim s) inner

-- The loop over the pairs of the list: one that is no dimension is skipped.
unfoldable pub parse_dims : Pairs → Result (List Dimension) CompileError
parse_dims nil = ok []
parse_dims (next (pair dimension s inner) ps) = do
  d ← parse_dimension (pair dimension s inner)
  ds ← parse_dims ps
  ok (d ∷ ds)
parse_dims (next _ ps) = parse_dims ps

unfoldable pub parse_dim_list : Pair → Result (List Dimension) CompileError
parse_dim_list p = parse_dims (into_inner p)

unfoldable pub parse_tensor_type : Pair → Result LaicType CompileError
parse_tensor_type p = do
  (first, rest) ← require_next (into_inner p) "tensor dtype"
  dtype ← parse_tensor_dtype first
  (dims_pair, _) ← require_next rest "tensor dimensions"
  dims ← parse_dim_list dims_pair
  ok (tensor dtype dims)

abbrev pub unknown_type : String → CompileError
unknown_type other = parse (text "unknown type: '" ∷ text other ∷ text "'" ∷ [])

abbrev pub scalar_type : String → Result LaicType CompileError
scalar_type s =
    if str_eq s "string"
    then ok string
    else if str_eq s "bytes"
    then ok bytes
    else if str_eq s "bool"
    then ok bool_ty
    else if str_eq s "i8"
    then ok i8_ty
    else if str_eq s "i16"
    then ok i16_ty
    else if str_eq s "i32"
    then ok i32_ty
    else if str_eq s "i64"
    then ok i64_ty
    else if str_eq s "u8"
    then ok u8_ty
    else if str_eq s "f32"
    then ok f32_ty
    else if str_eq s "f64"
    then ok f64_ty
    else err (unknown_type s)

abbrev pub unexpected_type : Rule → CompileError
unexpected_type r = parse (text "unexpected type rule: " ∷ text (debug_rule r) ∷ [])

-- With `parse_map_type`, `parse_list_type` and `parse_optional_type` on the pairs inside the child.
unfoldable mutual
  pub parse_laic_type : Pair → Result LaicType CompileError
  parse_laic_type (pair _ s nil) = scalar_type (trim s)
  parse_laic_type (pair _ _ (next (pair map_type _ inner) _)) = parse_map_type inner
  parse_laic_type (pair _ _ (next (pair list_type _ inner) _)) = parse_list_type inner
  parse_laic_type (pair _ _ (next (pair optional_type _ inner) _)) = parse_optional_type inner
  parse_laic_type (pair _ _ (next (pair tensor_type s inner) _)) =
      parse_tensor_type (pair tensor_type s inner)
  parse_laic_type (pair _ _ (next (pair r _ _) _)) = err (unexpected_type r)

  pub parse_map_type : Pairs → Result LaicType CompileError
  parse_map_type nil = err (expected "map key type")
  parse_map_type (next k nil) = do _ ← parse_laic_type k; err (expected "map value type")
  parse_map_type (next k (next v _)) = do
    key ← parse_laic_type k
    value ← parse_laic_type v
    ok (map_ty key value)

  pub parse_list_type : Pairs → Result LaicType CompileError
  parse_list_type nil = err (expected "list element type")
  parse_list_type (next p _) = do elem ← parse_laic_type p; ok (list elem)

  pub parse_optional_type : Pairs → Result LaicType CompileError
  parse_optional_type nil = err (expected "optional inner type")
  parse_optional_type (next p _) = do elem ← parse_laic_type p; ok (optional elem)
