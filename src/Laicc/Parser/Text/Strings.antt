-- ===== src/Laicc/Parser/Text/Strings.antt =====
-- What the parser makes of a quoted literal, and of the line ends inside it.
use Prim.Native.Char.{Char, code}
use laic.Prelude.{==_false}
use laic.Prelude.{ℕ, ◌≡◌, ◌≢◌, refl, false, String}
use laic.Laicc.Parser.Text.{
  is_quote, trim_start_matches, trim_end_matches, keep_end, strip_quotes, starts_with_newline,
  normalize_string_literal_newlines,
}

-- A text without the character `k`.
abbrev pub Without : ℕ → String → Type 0
Without k String.[] = Unit
Without k (String.◌∷◌ c s) = (code c ≢ k) × Without k s

abbrev pub snoc : String → Char → String
snoc String.[] c = String.◌∷◌ c ""
snoc (String.◌∷◌ d s) c = String.◌∷◌ d (snoc s c)

-- The token of a string: the text between two quotes.
abbrev pub quoted : String → String
quoted s = String.◌∷◌ "\"" (snoc s "\"")

keep : (c : Char) (s : String) → code c ≢ 34 → keep_end is_quote c s ≡ String.◌∷◌ c s
keep c String.[] h = rw (==_false (code c) 34 h)
keep c (String.◌∷◌ d s) h = refl

trim_end : (s : String) → Without 34 s → trim_end_matches is_quote (snoc s "\"") ≡ s
trim_end String.[] h = refl
trim_end (String.◌∷◌ c s) (hc, hs) = rw (trim_end s hs) (keep c s hc)

trim_start :
    (s : String)
    → Without 34 s
    → trim_end_matches is_quote (trim_start_matches is_quote (snoc s "\"")) ≡ s
trim_start String.[] h = refl
trim_start (String.◌∷◌ c s) (hc, hs) =
    rw (==_false (code c) 34 hc) (trim_end (String.◌∷◌ c s) (hc, hs))

-- A text without quotes is got back from between its quotes.
pub strip_quotes-quoted : (s : String) → Without 34 s → strip_quotes (quoted s) ≡ s
unfolding strip_quotes
strip_quotes-quoted s h = trim_start s h

-- A source text, and what it says once each of its line ends, `\n`, `\r\n` or `\r`, is a `\n`.
pub data SameLines : String → String → Type 0 where
  finish : SameLines "" ""
  copy :
      {c : Char} {s t : String}
      → code c ≢ 13
      → SameLines s t
      → SameLines (String.◌∷◌ c s) (String.◌∷◌ c t)
  crlf :
      {s t : String}
      → SameLines s t
      → SameLines (String.◌∷◌ "\r" (String.◌∷◌ "\n" s)) (String.◌∷◌ "\n" t)
  cr :
      {s t : String}
      → starts_with_newline s ≡ false
      → SameLines s t
      → SameLines (String.◌∷◌ "\r" s) (String.◌∷◌ "\n" t)

-- Line ends inside a string literal are read as `\n`, whichever of the three forms they have.
pub normalize-SameLines : {s t : String} → SameLines s t → normalize_string_literal_newlines s ≡ t
unfolding normalize_string_literal_newlines
normalize-SameLines finish = refl
normalize-SameLines (copy {c} {s} h w) =
    rw (==_false (code c) 13 h, normalize-SameLines w, ==_false (code c) 13 h) refl
normalize-SameLines (crlf w) = rw (normalize-SameLines w) refl
normalize-SameLines (cr e w) = rw (e, normalize-SameLines w) refl
