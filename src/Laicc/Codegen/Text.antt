-- ===== src/Laicc/Codegen/Text.antt =====
-- crates/laicc/src/codegen/mod.rs: names in PascalCase, and string literals of the target languages.
-- A text that is taken apart is the list of its code points.
pub mod Reader
pub mod Literals
pub mod Pascal
use Prim.Native.Char.{code}
use laic.Prelude.{
  ℕ, zero, suc, ◌+◌, ◌-◌, ◌/◌, ◌%◌, Bool, true, false, ◌&&◌, ◌||◌, String, List, [], ◌∷◌, ◌++◌, ltb,
  leb, ◌==◌, if◌then◌else◌,
}
use laic.Prelude.Detail.{Detail, text, chars}

abbrev pub codes : String → List ℕ
codes String.[] = []
codes (String.◌∷◌ c s) = code c ∷ codes s

-- `char::to_ascii_uppercase` and `to_ascii_lowercase`, which is what `to_uppercase` and
-- `to_lowercase` do to the characters of an identifier.
abbrev pub upper : ℕ → ℕ
upper c = if leb 97 c && leb c 122 then c - 32 else c

abbrev pub lower : ℕ → ℕ
lower c = if leb 65 c && leb c 90 then c + 32 else c

abbrev pub to_lowercase : List ℕ → List ℕ
to_lowercase [] = []
to_lowercase (c ∷ cs) = lower c ∷ to_lowercase cs

-- `split('_')`: the first part, and the others.
abbrev pub split_underscores : List ℕ → List ℕ × List (List ℕ)
split_underscores [] = ([], [])
split_underscores (c ∷ cs) =
    let (part, parts) = split_underscores cs in
    if c == 95 then ([], part ∷ parts) else (c ∷ part, parts)

abbrev pub capitalize : List ℕ → List ℕ
capitalize [] = []
capitalize (c ∷ cs) = upper c ∷ to_lowercase cs

abbrev pub capitalize_all : List (List ℕ) → List ℕ
capitalize_all [] = []
capitalize_all (part ∷ parts) = capitalize part ++ capitalize_all parts

unfoldable pub to_pascal_case : List ℕ → List ℕ
to_pascal_case s =
    let (part, parts) = split_underscores s in capitalize part ++ capitalize_all parts

pub data StringLiteralDialect : Type 0 where
  python_like rust : StringLiteralDialect

-- `char::is_control`
abbrev pub is_control : ℕ → Bool
is_control c = ltb c 32 || leb 127 c && leb c 159

-- A digit of `{:X}`, and the last `n` digits of a number.
abbrev pub hex_digit : ℕ → ℕ
hex_digit d = if ltb d 10 then 48 + d else 55 + d

abbrev pub hex_digits : (n x : ℕ) → List ℕ
hex_digits zero x = []
hex_digits (suc n) x = hex_digits n (x / 16) ++ (hex_digit (x % 16) ∷ [])

-- `{:X}` of a 32-bit number, without padding.
abbrev pub strip_zeros : List ℕ → List ℕ
strip_zeros [] = []
strip_zeros (d ∷ []) = d ∷ []
strip_zeros (d ∷ e ∷ ds) = let rest = strip_zeros (e ∷ ds) in if d == 48 then rest else d ∷ e ∷ ds

abbrev pub escape_nul : StringLiteralDialect → List ℕ
escape_nul python_like = codes "\\x00"
escape_nul rust = codes "\\0"

abbrev pub escape_line_separator : StringLiteralDialect → List ℕ
escape_line_separator python_like = codes "\\u2028"
escape_line_separator rust = codes "\\u{2028}"

abbrev pub escape_paragraph_separator : StringLiteralDialect → List ℕ
escape_paragraph_separator python_like = codes "\\u2029"
escape_paragraph_separator rust = codes "\\u{2029}"

abbrev pub escape_control : StringLiteralDialect → ℕ → List ℕ
escape_control python_like c =
    if leb c 255
    then codes "\\x" ++ hex_digits 2 c
    else if leb c 65535
    then codes "\\u" ++ hex_digits 4 c
    else codes "\\U" ++ hex_digits 8 c
escape_control rust c =
    if leb c 255
    then codes "\\x" ++ hex_digits 2 c
    else codes "\\u{" ++ strip_zeros (hex_digits 8 c) ++ codes "}"

-- The body of the loop over the characters.
unfoldable pub escape_char : StringLiteralDialect → ℕ → List ℕ
escape_char d c =
    if c == 92
    then codes "\\\\"
    else if c == 34
    then codes "\\\""
    else if c == 10
    then codes "\\n"
    else if c == 13
    then codes "\\r"
    else if c == 9
    then codes "\\t"
    else if c == 0
    then escape_nul d
    else if c == 8232
    then escape_line_separator d
    else if c == 8233
    then escape_paragraph_separator d
    else if is_control c
    then escape_control d c
    else c ∷ []

abbrev pub escape_string_literal_body : StringLiteralDialect → List ℕ → List ℕ
escape_string_literal_body d [] = []
escape_string_literal_body d (c ∷ cs) = escape_char d c ++ escape_string_literal_body d cs

-- The literals that the generators put into their output.
abbrev pub rust_string_literal : String → Detail
rust_string_literal value =
    text "\"" ∷ chars (escape_string_literal_body rust (codes value)) ∷ text "\"" ∷ []

abbrev pub python_string_literal : String → Detail
python_string_literal value =
    text "\"" ∷ chars (escape_string_literal_body python_like (codes value)) ∷ text "\"" ∷ []

abbrev pub python_bytes_literal : String → Detail
python_bytes_literal value = python_string_literal value ++ (text ".encode(\"utf-8\")" ∷ [])

abbrev pub typescript_string_literal : String → Detail
typescript_string_literal value = python_string_literal value

-- `to_pascal_case` of a name, as a text to put into the output.
abbrev pub pascal : String → Detail
pascal name = chars (to_pascal_case (codes name)) ∷ []
