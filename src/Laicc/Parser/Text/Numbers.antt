-- ===== src/Laicc/Parser/Text/Numbers.antt =====
-- What the standard library's `parse` does to a numeral, described by the value of its digits.
use Prim.Native.Char.{Char, code}
use laic.Prelude.{le→leb, lt→leb, leb→lt}
use laic.Prelude.{
  ℕ, ◌+◌, ◌-◌, ◌*◌, ◌≤◌, ◌<◌, ◌≡◌, refl, ◌∙◌, false, String, some, Result, ok, err, leb, ◌==◌,
  if◌then◌else◌, arith,
}
use laic.Laicc.Parser.Text.{
  IntErrorKind, pos_overflow, to_digit, parse_digits_from, parse_digits, parse_unsigned, parse_i64,
  negate, neg_overflow,
}
use laic.Laicc.Ast.{pos}
use laic.Prelude.{◌^◌, Bool-cases, inl, inr}

abbrev pub IsDigit : Char → Type 0
IsDigit c = (48 ≤ code c) × (code c ≤ 57)

abbrev pub AllDigits : String → Type 0
AllDigits String.[] = Unit
AllDigits (String.◌∷◌ c s) = IsDigit c × AllDigits s

-- `ASCII_DIGIT+`
abbrev pub IsNumeral : String → Type 0
IsNumeral String.[] = ⊥
IsNumeral (String.◌∷◌ c s) = IsDigit c × AllDigits s

abbrev pub value_from : ℕ → String → ℕ
value_from v String.[] = v
value_from v (String.◌∷◌ c s) = value_from (v * 10 + (code c - 48)) s

abbrev pub value : String → ℕ
value s = value_from 0 s

to_digit-IsDigit : (c : Char) → IsDigit c → to_digit c ≡ some (code c - 48)
to_digit-IsDigit c h = ground arith

value_from-le : (v : ℕ) (s : String) → v ≤ value_from v s
value_from-le v String.[] = omega arith
value_from-le v (String.◌∷◌ c s) = omega (arith, value_from-le (v * 10 + (code c - 48)) s)

abbrev pub within : IntErrorKind → ℕ → ℕ → Result ℕ IntErrorKind
within overflow max v = if leb v max then ok v else err overflow

digits_lem :
    (overflow : IntErrorKind) (max v : ℕ) (s : String)
    → AllDigits s
    → v ≤ max
    → parse_digits_from overflow max v s ≡ within overflow max (value_from v s)
digits_lem overflow max v String.[] h le = rw (le→leb v max le)
digits_lem overflow max v (String.◌∷◌ c s) (hc, hs) le =
    rw (parse_digits_from, to_digit-IsDigit c hc)
      (elim (Bool-cases (leb (v * 10 + (code c - 48)) max)) [
        | inl fits ↦ rw fits (digits_lem overflow max (v * 10 + (code c - 48)) s hs (ground arith))
        | inr large ↦ rw (large, lt→leb (value_from (v * 10 + (code c - 48)) s) max (above large))
      ])
  where
    above : leb (v * 10 + (code c - 48)) max ≡ false → max < value_from (v * 10 + (code c - 48)) s
    above large =
        omega (
          arith,
          value_from-le (v * 10 + (code c - 48)) s,
          leb→lt (v * 10 + (code c - 48)) max large,
        )

-- An unsigned integer whose largest value is `max` is parsed from a numeral as the value of its
-- digits, and a numeral that stands for more is an overflow.
pub parse_unsigned-IsNumeral :
    (max : ℕ) (s : String)
    → IsNumeral s
    → parse_unsigned max s ≡ (if leb (value s) max then ok (value s) else err pos_overflow)
unfolding parse_unsigned
parse_unsigned-IsNumeral max String.[] h = absurd h
parse_unsigned-IsNumeral max (String.◌∷◌ c s) h =
    rw (no_plus h) (digits_lem pos_overflow max 0 (String.◌∷◌ c s) h (omega arith))
  where
    no_plus : IsDigit c × AllDigits s → (code c == 43) ≡ false
    no_plus (hc, _) = ground arith

digits_in_range :
    (overflow : IntErrorKind) (max : ℕ) (s : String)
    → IsNumeral s
    → value s ≤ max
    → parse_digits overflow max s ≡ ok (value s)
digits_in_range overflow max String.[] h le = absurd h
digits_in_range overflow max (String.◌∷◌ c s) h le =
    digits_lem overflow max 0 (String.◌∷◌ c s) h (omega arith)
    ∙ rw (le→leb (value (String.◌∷◌ c s)) max le)

-- An `i64` is parsed from a numeral below 2^63, and from a minus sign and a numeral up to 2^63.
pub parse_i64-IsNumeral :
    (s : String) → IsNumeral s → value s ≤ 2 ^ 63 - 1 → parse_i64 s ≡ ok (pos (value s))
unfolding parse_i64
parse_i64-IsNumeral String.[] h le = absurd h
parse_i64-IsNumeral (String.◌∷◌ c s) h le =
    rw
      (
        no_sign 45 h (omega arith),
        no_sign 43 h (omega arith),
        digits_in_range pos_overflow (2 ^ 63 - 1) (String.◌∷◌ c s) h le,
      )
      refl
  where
    no_sign : (k : ℕ) → IsDigit c × AllDigits s → k < 48 → (code c == k) ≡ false
    no_sign k (hc, _) lt = ground arith

pub parse_i64-negative :
    (s : String)
    → IsNumeral s
    → value s ≤ 2 ^ 63
    → parse_i64 (String.◌∷◌ "-" s) ≡ ok (negate (value s))
unfolding parse_i64
parse_i64-negative s h le = rw (digits_in_range neg_overflow (2 ^ 63) s h le) refl
