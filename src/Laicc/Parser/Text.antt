-- ===== src/Laicc/Parser/Text.antt =====
-- crates/laicc/src/parser.rs: what the parser does to the text of a token, and the standard library's
-- `trim` and `parse` of integers.
pub mod Numbers
pub mod Strings
use Prim.Native.Char.{Char, code}
use laic.Prelude.{
  ℕ, zero, suc, ◌+◌, ◌-◌, ◌*◌, ◌^◌, ◌>>=◌, panicked, Bool, true, false, ◌&&◌, ◌||◌, String, Option,
  none, some, Result, ok, err, ltb, leb, ◌==◌, if◌then◌else◌,
}
use laic.Laicc.Ast.{ℤ, pos, negsuc}

-- `char::is_whitespace`
abbrev pub is_whitespace : Char → Bool
is_whitespace c =
    let n = code c in
    leb 9 n && leb n 13
    || (n == 32 || n == 133 || n == 160 || n == 5760)
    || leb 8192 n && leb n 8202
    || (n == 8232 || n == 8233 || n == 8239 || n == 8287 || n == 12288)

abbrev pub is_quote : Char → Bool
is_quote c = code c == 34

abbrev pub trim_start_matches : (Char → Bool) → String → String
trim_start_matches p String.[] = ""
trim_start_matches p (String.◌∷◌ c s) =
    let rest = trim_start_matches p s in if p c then rest else String.◌∷◌ c s

-- A character before what is left of the rest: kept unless it is at the end and matches.
abbrev pub keep_end : (Char → Bool) → Char → String → String
keep_end p c String.[] = if p c then "" else String.◌∷◌ c ""
keep_end p c (String.◌∷◌ d s) = String.◌∷◌ c (String.◌∷◌ d s)

abbrev pub trim_end_matches : (Char → Bool) → String → String
trim_end_matches p String.[] = ""
trim_end_matches p (String.◌∷◌ c s) = keep_end p c (trim_end_matches p s)

abbrev pub trim_matches : (Char → Bool) → String → String
trim_matches p s = trim_end_matches p (trim_start_matches p s)

abbrev pub trim : String → String
trim s = trim_matches is_whitespace s

unfoldable pub strip_quotes : String → String
strip_quotes s = trim_matches is_quote s

abbrev pub starts_with_newline : String → Bool
starts_with_newline String.[] = false
starts_with_newline (String.◌∷◌ c s) = code c == 10

-- `s.replace("\r\n", "\n")`
abbrev pub replace_crlf : String → String
replace_crlf String.[] = ""
replace_crlf (String.◌∷◌ c s) =
    let rest = replace_crlf s in
    if code c == 13 && starts_with_newline s then rest else String.◌∷◌ c rest

-- `s.replace('\r', "\n")`
abbrev pub replace_cr : String → String
replace_cr String.[] = ""
replace_cr (String.◌∷◌ c s) =
    let rest = replace_cr s in if code c == 13 then String.◌∷◌ "\n" rest else String.◌∷◌ c rest

unfoldable pub normalize_string_literal_newlines : String → String
normalize_string_literal_newlines s = replace_cr (replace_crlf s)

-- `ParseIntError`
pub data IntErrorKind : Type 0 where
  empty invalid_digit pos_overflow neg_overflow : IntErrorKind

abbrev pub show_int_error : IntErrorKind → String
show_int_error empty = "cannot parse integer from empty string"
show_int_error invalid_digit = "invalid digit found in string"
show_int_error pos_overflow = "number too large to fit in target type"
show_int_error neg_overflow = "number too small to fit in target type"

-- `char::to_digit(10)`
abbrev pub to_digit : Char → Option ℕ
to_digit c = if leb 48 (code c) && leb (code c) 57 then some (code c - 48) else none

-- One digit: an invalid one is reported before an overflow.
abbrev pub add_digit : IntErrorKind → (max value : ℕ) → Option ℕ → Result ℕ IntErrorKind
add_digit overflow max value none = err invalid_digit
add_digit overflow max value (some d) =
    if leb (value * 10 + d) max then ok (value * 10 + d) else err overflow

-- The loop over the digits, up to a largest value.
abbrev pub parse_digits_from : IntErrorKind → (max value : ℕ) → String → Result ℕ IntErrorKind
parse_digits_from overflow max value String.[] = ok value
parse_digits_from overflow max value (String.◌∷◌ c s) =
    add_digit overflow max value (to_digit c) >>= (λ v. parse_digits_from overflow max v s)

-- At least one digit, after the sign.
abbrev pub parse_digits : IntErrorKind → ℕ → String → Result ℕ IntErrorKind
parse_digits overflow max String.[] = err invalid_digit
parse_digits overflow max (String.◌∷◌ c s) = parse_digits_from overflow max 0 (String.◌∷◌ c s)

-- `str::parse` of an unsigned integer of which `max` is the largest.
unfoldable pub parse_unsigned : ℕ → String → Result ℕ IntErrorKind
parse_unsigned max String.[] = err empty
parse_unsigned max (String.◌∷◌ c s) =
    if code c == 43
    then parse_digits pos_overflow max s
    else parse_digits pos_overflow max (String.◌∷◌ c s)

abbrev pub negate : ℕ → ℤ
negate zero = pos 0
negate (suc n) = negsuc n

-- `str::parse` of an `i64`.
unfoldable pub parse_i64 : String → Result ℤ IntErrorKind
parse_i64 String.[] = err empty
parse_i64 (String.◌∷◌ c s) =
    if code c == 45
    then parse_digits neg_overflow (2 ^ 63) s >>= (λ n. ok (negate n))
    else if code c == 43
    then parse_digits pos_overflow (2 ^ 63 - 1) s >>= (λ n. ok (pos n))
    else parse_digits pos_overflow (2 ^ 63 - 1) (String.◌∷◌ c s) >>= (λ n. ok (pos n))
