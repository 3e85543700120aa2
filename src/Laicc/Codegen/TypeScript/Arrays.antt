-- ===== src/Laicc/Codegen/TypeScript/Arrays.antt =====
-- The TypeScript type of a list, and where it needs brackets.
use laic.Prelude.{ℕ, ◌≡◌, refl, Bool, true, false, ◌||◌, [], ◌∷◌, ◌++◌, if◌then◌else◌, arith}
use laic.Prelude.Detail.{Detail, text, dec, hex, chars}
use laic.Laicc.Ast.{LaicType, list, optional}
use laic.Laicc.Validate.Types.{is_optional}
use laic.Laicc.Validate.Types.Supported.{supported}
use laic.Laicc.Codegen.Text.{codes}
use laic.Laicc.Codegen.TypeScript.Types.{contains_char, member, ts_type}

or_assoc : (a b c : Bool) → (a || (b || c)) ≡ ((a || b) || c)
or_assoc true b c = refl
or_assoc false b c = refl

contains_char-append :
    (c : ℕ) (d e : Detail) → contains_char c (d ++ e) ≡ (contains_char c d || contains_char c e)
contains_char-append c [] e = refl
contains_char-append c (text s ∷ d) e =
    rw (contains_char-append c d e) (or_assoc (member c (codes s)) _ _)
contains_char-append c (chars s ∷ d) e = rw (contains_char-append c d e) (or_assoc (member c s) _ _)
contains_char-append c (dec n ∷ d) e = contains_char-append c d e
contains_char-append c (hex n w ∷ d) e = contains_char-append c d e

or_true : (b : Bool) → (b || true) ≡ true
or_true true = refl
or_true false = refl

-- Of the lists that validation lets through, those of options are written `Array<T | null>`, since
-- `T | null[]` would mean something else, and all others `T[]`.
pub ts_type-list :
    (t : LaicType)
    → supported (list t) ≡ true
    → ts_type (list t) ≡ (
        if is_optional t
        then text "Array<" ∷ ts_type t ++ text ">" ∷ []
        else ts_type t ++ text "[]" ∷ [])
unfolding ts_type
ts_type-list (optional t) h =
    rw
      (
        contains_char-append 124 (ts_type t) (text " | null" ∷ []),
        or_true (contains_char 124 (ts_type t)),
      )
      refl
ts_type-list t h = ground arith
