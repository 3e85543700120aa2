-- ===== src/Laicc/Codegen/Text/Reader.antt =====
-- A reader of the body of a string literal, as the target languages define it, for the escapes that
-- the generators use.
use laic.Prelude.{
  ℕ, ◌+◌, ◌-◌, ◌*◌, Bool, false, ◌&&◌, ◌||◌, Option, none, some, List, [], ◌∷◌, leb, ◌==◌,
  if◌then◌else◌,
}
use laic.Laicc.Codegen.Text.{StringLiteralDialect, python_like, rust}

-- Where the reader stands: in plain text; after a backslash; with a number of hexadecimal digits still
-- to read; or, in Rust, after `\u` and between its braces.
pub data Mode : Type 0 where
  plain slash open_brace : Mode
  digits : (left value : ℕ) → Mode
  braced : (value : ℕ) → Mode

-- What the reader does on a character.
pub data Action : Type 0 where
  close fail : Action
  enter : Mode → Action
  yield : ℕ → Action

abbrev pub unhex : ℕ → Option ℕ
unhex c =
    if leb 48 c && leb c 57
    then some (c - 48)
    else if leb 65 c && leb c 70
    then some (c - 55)
    else none

-- What may not stand in a literal as it is.
abbrev pub is_forbidden : StringLiteralDialect → ℕ → Bool
is_forbidden python_like c = c == 10 || c == 13 || c == 0
is_forbidden rust c = c == 13

-- A literal ends at a quote.
abbrev pub on_plain : StringLiteralDialect → ℕ → Action
on_plain d c =
    if c == 34
    then close
    else if c == 92
    then enter slash
    else if is_forbidden d c
    then fail
    else yield c

abbrev pub on_slash : StringLiteralDialect → ℕ → Action
on_slash d c =
    if c == 92
    then yield 92
    else if c == 34
    then yield 34
    else if c == 110
    then yield 10
    else if c == 114
    then yield 13
    else if c == 116
    then yield 9
    else if c == 120
    then enter (digits 2 0)
    else elim d [
      | python_like ↦ if c == 117 then enter (digits 4 0) else fail
      | rust ↦ if c == 48 then yield 0 else if c == 117 then enter open_brace else fail
    ]

-- Rust takes `\x` up to 7F only.
abbrev pub complete : StringLiteralDialect → ℕ → Action
complete python_like v = yield v
complete rust v = if leb v 127 then yield v else fail

abbrev pub on_digit : StringLiteralDialect → ℕ → ℕ → Option ℕ → Action
on_digit d left v none = fail
on_digit d left v (some x) =
    if leb left 1 then complete d (v * 16 + x) else enter (digits (left - 1) (v * 16 + x))

abbrev pub on_braced : ℕ → ℕ → Option ℕ → Action
on_braced c v none = if c == 125 then yield v else fail
on_braced c v (some x) = enter (braced (v * 16 + x))

unfoldable pub step : StringLiteralDialect → Mode → ℕ → Action
step d plain c = on_plain d c
step d slash c = on_slash d c
step d open_brace c = if c == 123 then enter (braced 0) else fail
step d (digits left v) c = on_digit d left v (unhex c)
step d (braced v) c = on_braced c v (unhex c)

abbrev pub cons_char : ℕ → Option (List ℕ × List ℕ) → Option (List ℕ × List ℕ)
cons_char c none = none
cons_char c (some (value, rest)) = some (c ∷ value, rest)

abbrev pub act : Action → List ℕ → (Mode → Option (List ℕ × List ℕ)) → Option (List ℕ × List ℕ)
act close cs k = some ([], cs)
act fail cs k = none
act (enter m) cs k = k m
act (yield c) cs k = cons_char c (k plain)

-- The text of a literal's body, and what follows its closing quote.
unfoldable pub read : StringLiteralDialect → Mode → List ℕ → Option (List ℕ × List ℕ)
read d m [] = none
read d m (c ∷ cs) = act (step d m c) cs (λ m'. read d m' cs)

-- The second row of control characters.
abbrev pub is_c1 : ℕ → Bool
is_c1 c = leb 128 c && leb c 159

abbrev pub has_c1 : List ℕ → Bool
has_c1 [] = false
has_c1 (c ∷ cs) = is_c1 c || has_c1 cs
