-- ===== src/Laicc/Codegen/Emitted.antt =====
-- What a generator appends to its buffer, or the panic of an `unreachable!`, which loses all of it.
use laic.Prelude.{◌≡◌, refl, Bool, true, false, ◌||◌, Option, none, some, List, [], ◌∷◌, ◌++◌}
use laic.Prelude.Detail.{Detail, text}

abbrev pub Emitted : Type 0
Emitted = Option Detail

abbrev pub panics : Emitted → Bool
panics none = true
panics (some _) = false

-- One generator after another.
infixr 5 ◌⧺◌
abbrev pub ◌⧺◌ : Emitted → Emitted → Emitted
none ⧺ e = none
some d ⧺ none = none
some d ⧺ some e = some (d ++ e)

-- A generator run for each element of a list, `for x in xs`: one that cannot panic, and one that can.
abbrev pub for_each {ℓ} : {A : Type ℓ} → (A → Detail) → List A → Detail
for_each f [] = []
for_each f (x ∷ xs) = f x ++ for_each f xs

abbrev pub emit_each {ℓ} : {A : Type ℓ} → (A → Emitted) → List A → Emitted
emit_each f [] = some []
emit_each f (x ∷ xs) = f x ⧺ emit_each f xs

-- A text that is computed by a function that may panic, used by the rest of a generator.
abbrev pub with_text {ℓ} : {A : Type ℓ} → Option A → (A → Emitted) → Emitted
with_text none k = none
with_text (some a) k = k a

-- `parts.join(",")`
abbrev pub join_comma : List Detail → Detail
join_comma [] = []
join_comma (d ∷ []) = d
join_comma (d ∷ e ∷ ds) = d ++ text "," ∷ join_comma (e ∷ ds)

abbrev pub any {ℓ} : {A : Type ℓ} → (A → Bool) → List A → Bool
any p [] = false
any p (x ∷ xs) = p x || any p xs

pub panics-⧺ : (d e : Emitted) → panics (d ⧺ e) ≡ (panics d || panics e)
panics-⧺ none e = refl
panics-⧺ (some d) none = refl
panics-⧺ (some d) (some e) = refl

pub panics-emit_each {ℓ} :
    {A : Type ℓ} (f : A → Emitted) (xs : List A)
    → panics (emit_each f xs) ≡ any (λ x. panics (f x)) xs
panics-emit_each f [] = refl
panics-emit_each f (x ∷ xs) = rw (panics-⧺, panics-emit_each f xs)
