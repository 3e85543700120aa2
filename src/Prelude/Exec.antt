-- ===== src/Prelude/Exec.antt =====
-- Methods of `&mut self` that return `Result`: a failure keeps what was written before it.
use laic.Prelude.{Result, ok, and_then, map_err_fst}

abbrev pub Exec : Type 0 → Type 0 → Type 0 → Type 0
Exec S E A = S → Result A E × S

infixl 5 ◌>>=◌ ◌>>◌
abbrev pub ◌>>=◌ : {S E A B : Type 0} → Exec S E A → (A → Exec S E B) → Exec S E B
◌>>=◌ m f s = and_then (m s) f

abbrev pub ◌>>◌ : {S E A B : Type 0} → Exec S E A → Exec S E B → Exec S E B
◌>>◌ m k s = and_then (m s) (λ _. k)

-- A step that does not touch the state.
abbrev pub lift : {S E A : Type 0} → Result A E → Exec S E A
lift r s = (r, s)

abbrev pub map_error : {S E F A : Type 0} → (E → F) → Exec S E A → Exec S F A
map_error f m s = map_err_fst f (m s)

abbrev pub gets : {S E A : Type 0} → (S → A) → Exec S E A
gets f s = (ok (f s), s)
