-- ===== src/Prelude/Detail.antt =====
-- What `format!` puts together: literal text, numbers printed in decimal, and numbers printed in
-- upper-case hexadecimal, padded to a width, and text given
-- by its code points. The printing itself is the standard library's.
use laic.Prelude.{ℕ, String, List, [], ◌∷◌}

pub data Piece : Type 0 where
  text : String → Piece
  dec : ℕ → Piece
  hex : ℕ → ℕ → Piece
  chars : List ℕ → Piece

abbrev pub Detail : Type 0
Detail = List Piece

-- A detail that is one text, as `"...".into()` and `e.to_string()` make.
abbrev pub plain : String → Detail
plain s = text s ∷ []
