-- ===== src/Laicc/Codegen/Text/Pascal.antt =====
-- What PascalCase forgets about a name: the case it was written in.
use laic.Prelude.{ℕ, ◌≡◌, refl, sym, ap, ◌∙◌, List, [], ◌∷◌, ◌==◌, arith}
use laic.Laicc.Codegen.Text.{
  upper, lower, to_lowercase, split_underscores, capitalize, capitalize_all, to_pascal_case,
}

upper-lower : (c : ℕ) → upper (lower c) ≡ upper c
upper-lower c = ground arith

lower-lower : (c : ℕ) → lower (lower c) ≡ lower c
lower-lower c = ground arith

underscore-lower : (c : ℕ) → (lower c == 95) ≡ (c == 95)
underscore-lower c = ground arith

to_lowercase-twice : (s : List ℕ) → to_lowercase (to_lowercase s) ≡ to_lowercase s
to_lowercase-twice [] = refl
to_lowercase-twice (c ∷ cs) = rw (lower-lower c, to_lowercase-twice cs)

capitalize-lower : (s : List ℕ) → capitalize (to_lowercase s) ≡ capitalize s
capitalize-lower [] = refl
capitalize-lower (c ∷ cs) = rw (upper-lower c, to_lowercase-twice cs)

lower_all : List (List ℕ) → List (List ℕ)
lower_all [] = []
lower_all (p ∷ ps) = to_lowercase p ∷ lower_all ps

capitalize_all-lower : (ps : List (List ℕ)) → capitalize_all (lower_all ps) ≡ capitalize_all ps
unfolding lower_all
capitalize_all-lower [] = refl
capitalize_all-lower (p ∷ ps) = rw (capitalize-lower p, capitalize_all-lower ps)

split-lower :
    (s : List ℕ)
    → split_underscores (to_lowercase s)
      ≡ (to_lowercase (split_underscores s).0, lower_all (split_underscores s).1)
unfolding lower_all
split-lower [] = refl
split-lower (c ∷ cs) = rw (underscore-lower c, split-lower cs) (ground arith)

pascal-lower : (s : List ℕ) → to_pascal_case (to_lowercase s) ≡ to_pascal_case s
unfolding to_pascal_case
pascal-lower s = rw (
  split-lower s,
  capitalize-lower (split_underscores s).0,
  capitalize_all-lower (split_underscores s).1,
)

-- Two names that differ only in the case of their letters have the same PascalCase.
pub to_pascal_case-caseless :
    (a b : List ℕ) → to_lowercase a ≡ to_lowercase b → to_pascal_case a ≡ to_pascal_case b
to_pascal_case-caseless a b h = sym (pascal-lower a) ∙ ap to_pascal_case h ∙ pascal-lower b
