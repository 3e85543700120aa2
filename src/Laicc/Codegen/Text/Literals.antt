-- ===== src/Laicc/Codegen/Text/Literals.antt =====
-- What a string literal that the generators emit means: the reader gives back the text that was
-- escaped.
use laic.Prelude.{==_false, le→leb}
use laic.Prelude.{
  ℕ, ◌<◌, ◌/◌, ◌%◌, ◌≢◌, ◌⊎◌, inl, inr, ◌+◌, ◌*◌, ◌≡◌, refl, ap, ◌∙◌, true, false, Option, none,
  some, List, [], ◌∷◌, ◌++◌, append_assoc, ◌==◌, if◌then◌else◌, arith,
}
use mathlib.Core.Path.{subst, sym}
use native.Mathlib.Nat.{zero-add}
use laic.Laicc.Codegen.Text.{
  StringLiteralDialect, python_like, rust, escape_char, escape_string_literal_body, hex_digits,
  hex_digit, escape_control, is_control,
}
use laic.Laicc.Codegen.Text.Reader.{
  plain, yield, unhex, on_plain, complete, step, cons_char, act, read, is_c1, has_c1,
}

-- What the escape does with a character: the eight it has a form for, the other controls, the rest.
abbrev IsControl : ℕ → Type 0
IsControl c = (is_control c ≡ true) × (c ≢ 0) × (c ≢ 9) × (c ≢ 10) × (c ≢ 13)

abbrev IsOrdinary : ℕ → Type 0
IsOrdinary c = (is_control c ≡ false) × (c ≢ 34) × (c ≢ 92) × (c ≢ 8232) × (c ≢ 8233)

classify :
    (c : ℕ)
    → (c ≡ 92)
      ⊎ ((c ≡ 34)
          ⊎ ((c ≡ 10)
              ⊎ ((c ≡ 13)
                  ⊎ ((c ≡ 9)
                      ⊎ ((c ≡ 0) ⊎ ((c ≡ 8232) ⊎ ((c ≡ 8233) ⊎ (IsControl c ⊎ IsOrdinary c))))))))
classify c = ground arith

unhex-hex_digit : (x : ℕ) → x < 16 → unhex (hex_digit x) ≡ some x
unhex-hex_digit x h = ground arith

apart : (c k : ℕ) → is_control c ≡ true → is_control k ≡ false → (c == k) ≡ false
apart c k h h' = ==_false c k (λ e. ground (arith, ap is_control e))

other : (c k : ℕ) → is_control c ≡ false → is_control k ≡ true → (c == k) ≡ false
other c k h h' = ==_false c k (λ e. ground (arith, ap is_control e))

-- A character in the form `\xHH`.
control_form :
    (d : StringLiteralDialect) (c : ℕ) → IsControl c → escape_char d c ≡ escape_control d c
unfolding escape_char
control_form d c (h, n0, n9, n10, n13) = rw (
  apart c 92 h refl,
  apart c 34 h refl,
  ==_false c 10 n10,
  ==_false c 13 n13,
  ==_false c 9 n9,
  ==_false c 0 n0,
  apart c 8232 h refl,
  apart c 8233 h refl,
  h,
)

control-lt : (c : ℕ) → IsControl c → c < 256
control-lt c h = ground arith

two_digits : (c : ℕ) → c < 256 → hex_digits 2 c ≡ hex_digit (c / 16) ∷ hex_digit (c % 16) ∷ []
two_digits c h = ap (λ (x : ℕ). hex_digit x ∷ hex_digit (c % 16) ∷ []) small
  where
    small : c / 16 % 16 ≡ c / 16
    small = omega arith

byte_form :
    (d : StringLiteralDialect) (c : ℕ) → c < 256 → escape_control d c ≡ 92 ∷ 120 ∷ hex_digits 2 c
byte_form python_like c h = rw (le→leb c 255 (omega arith)) refl
byte_form rust c h = rw (le→leb c 255 (omega arith)) refl

byte_escape :
    (d : StringLiteralDialect) (c : ℕ)
    → IsControl c
    → escape_char d c ≡ 92 ∷ 120 ∷ hex_digit (c / 16) ∷ hex_digit (c % 16) ∷ []
byte_escape d c h =
    control_form d c h
    ∙ byte_form d c (control-lt c h)
    ∙ ap (λ (l : List ℕ). 92 ∷ 120 ∷ l) (two_digits c (control-lt c h))

read-byte_escape :
    (d : StringLiteralDialect) (x y : ℕ) (rest : List ℕ)
    → x < 16
    → y < 16
    → read d plain (92 ∷ 120 ∷ hex_digit x ∷ hex_digit y ∷ rest)
      ≡ act (complete d (x * 16 + y)) rest (λ m. read d m rest)
unfolding read step
read-byte_escape d x y rest hx hy =
    rw (unhex-hex_digit x hx, unhex-hex_digit y hy)
      (ap (λ (v : ℕ). act (complete d (v * 16 + y)) rest (λ m. read d m rest)) (zero-add x))

read-control :
    (d : StringLiteralDialect) (c : ℕ) (rest : List ℕ)
    → IsControl c
    → read d plain (escape_char d c ++ rest) ≡ act (complete d c) rest (λ m. read d m rest)
read-control d c rest h = rw (byte_escape d c h) (
    read-byte_escape d (c / 16) (c % 16) rest (omega (arith, control-lt c h)) (omega arith)
    ∙ ap (λ (v : ℕ). act (complete d v) rest (λ m. read d m rest)) (omega arith))

ordinary_form : (d : StringLiteralDialect) (c : ℕ) → IsOrdinary c → escape_char d c ≡ c ∷ []
unfolding escape_char
ordinary_form d c (h, n34, n92, n8232, n8233) = rw (
  ==_false c 92 n92,
  ==_false c 34 n34,
  other c 10 h refl,
  other c 13 h refl,
  other c 9 h refl,
  other c 0 h refl,
  ==_false c 8232 n8232,
  ==_false c 8233 n8233,
  h,
)

on_ordinary : (d : StringLiteralDialect) (c : ℕ) → IsOrdinary c → on_plain d c ≡ yield c
on_ordinary python_like c h = ground arith
on_ordinary rust c h = ground arith

read-ordinary :
    (d : StringLiteralDialect) (c : ℕ) (rest : List ℕ)
    → IsOrdinary c
    → read d plain (escape_char d c ++ rest) ≡ cons_char c (read d plain rest)
unfolding read step
read-ordinary d c rest h = rw (ordinary_form d c h, on_ordinary d c h)

-- The same as an indexed type, to match on.
data Shape : ℕ → Type 0 where
  backslash : Shape 92
  quote : Shape 34
  line_feed : Shape 10
  carriage_return : Shape 13
  tab : Shape 9
  nul : Shape 0
  line_separator : Shape 8232
  paragraph_separator : Shape 8233
  control : {c : ℕ} → IsControl c → Shape c
  ordinary : {c : ℕ} → IsOrdinary c → Shape c

shape : (c : ℕ) → Shape c
shape c = elim (classify c) [
  | inl e ↦ subst Shape (sym e) backslash
  | inr (inl e) ↦ subst Shape (sym e) quote
  | inr (inr (inl e)) ↦ subst Shape (sym e) line_feed
  | inr (inr (inr (inl e))) ↦ subst Shape (sym e) carriage_return
  | inr (inr (inr (inr (inl e)))) ↦ subst Shape (sym e) tab
  | inr (inr (inr (inr (inr (inl e))))) ↦ subst Shape (sym e) nul
  | inr (inr (inr (inr (inr (inr (inl e)))))) ↦ subst Shape (sym e) line_separator
  | inr (inr (inr (inr (inr (inr (inr (inl e))))))) ↦ subst Shape (sym e) paragraph_separator
  | inr (inr (inr (inr (inr (inr (inr (inr (inl h)))))))) ↦ control h
  | inr (inr (inr (inr (inr (inr (inr (inr (inr h)))))))) ↦ ordinary h
]

-- Reading back one character of the text.
read-python :
    (c : ℕ) (rest : List ℕ)
    → Shape c
    → read python_like plain (escape_char python_like c ++ rest)
      ≡ cons_char c (read python_like plain rest)
unfolding read step escape_char
read-python c rest backslash = refl
read-python c rest quote = refl
read-python c rest line_feed = refl
read-python c rest carriage_return = refl
read-python c rest tab = refl
read-python c rest nul = refl
read-python c rest line_separator = refl
read-python c rest paragraph_separator = refl
read-python c rest (control h) = read-control python_like c rest h
read-python c rest (ordinary h) = read-ordinary python_like c rest h

abbrev if_readable : ℕ → Option (List ℕ × List ℕ) → Option (List ℕ × List ℕ)
if_readable c r = if is_c1 c then none else r

rust_control :
    (c : ℕ) (rest : List ℕ)
    → IsControl c
    → act (complete rust c) rest (λ m. read rust m rest)
      ≡ if_readable c (cons_char c (read rust plain rest))
rust_control c rest h = ground arith

ordinary_readable : (c : ℕ) → IsOrdinary c → is_c1 c ≡ false
ordinary_readable c h = ground arith

read-rust :
    (c : ℕ) (rest : List ℕ)
    → Shape c
    → read rust plain (escape_char rust c ++ rest)
      ≡ if_readable c (cons_char c (read rust plain rest))
unfolding read step escape_char
read-rust c rest backslash = refl
read-rust c rest quote = refl
read-rust c rest line_feed = refl
read-rust c rest carriage_return = refl
read-rust c rest tab = refl
read-rust c rest nul = refl
read-rust c rest line_separator = refl
read-rust c rest paragraph_separator = refl
read-rust c rest (control h) = read-control rust c rest h ∙ rust_control c rest h
read-rust c rest (ordinary h) = rw (ordinary_readable c h) (read-ordinary rust c rest h)

-- A text escaped for Python or TypeScript, with the closing quote and anything else behind it, is read
-- back as that text and what stands behind the quote.
pub read-escape_python :
    (value rest : List ℕ)
    → read python_like plain (escape_string_literal_body python_like value ++ 34 ∷ rest)
      ≡ some (value, rest)
unfolding read step
read-escape_python [] rest = refl
read-escape_python (c ∷ cs) rest =
    rw append_assoc (read-python c _ (shape c) ∙ ap (cons_char c) (read-escape_python cs rest))

-- A text escaped for Rust, with the closing quote and anything else behind it, is read back as that
-- text and what stands behind the quote when it has no character from U+0080 to U+009F; with such
-- a character it is no Rust literal.
pub read-escape_rust :
    (value rest : List ℕ)
    → read rust plain (escape_string_literal_body rust value ++ 34 ∷ rest)
      ≡ (if has_c1 value then none else some (value, rest))
unfolding read step
read-escape_rust [] rest = refl
read-escape_rust (c ∷ cs) rest = rw append_assoc (
    read-rust c _ (shape c)
    ∙ ap (λ r. if_readable c (cons_char c r)) (read-escape_rust cs rest)
    ∙ ground arith)
