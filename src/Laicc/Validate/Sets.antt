-- ===== src/Laicc/Validate/Sets.antt =====
-- The sets of validate.rs, kept as lists of what was inserted.
use laic.Prelude.{ℕ, ◌≡◌, ◌≢◌, ◌↔◌, refl, false, String, eq_iff, List, [], ◌∷◌, All, arith}
use laic.Laicc.Validate.Names.{contains, contains_code}

-- No element is that one.
abbrev pub Absent : {A : Type 0} → A → List A → Type 0
Absent x ys = All (λ y. y ≢ x) ys

-- No two elements are equal.
abbrev pub Distinct : {A : Type 0} → List A → Type 0
Distinct [] = Unit
Distinct (x ∷ xs) = All (λ y. x ≢ y) xs × Distinct xs

pub contains-Absent : (x : String) (ys : List String) → (contains x ys ≡ false) ↔ Absent x ys
contains-Absent x [] = (λ _. tt, λ _. refl)
contains-Absent x (y ∷ ys) = ground (arith, contains-Absent x ys, eq_iff y x)

pub contains_code-Absent : (x : ℕ) (ys : List ℕ) → (contains_code x ys ≡ false) ↔ Absent x ys
contains_code-Absent x [] = (λ _. tt, λ _. refl)
contains_code-Absent x (y ∷ ys) = ground (arith, contains_code-Absent x ys)

-- Every element is absent from a list.
abbrev pub Fresh : {A : Type 0} → List A → List A → Type 0
Fresh seen xs = All (λ x. Absent x seen) xs

pub Fresh-cons :
    {A : Type 0} (v : A) (seen xs : List A)
    → Fresh (v ∷ seen) xs ↔ (All (λ x. v ≢ x) xs × Fresh seen xs)
Fresh-cons v seen [] = (λ _. (tt, tt), λ _. tt)
Fresh-cons v seen (x ∷ xs) = ground (arith, Fresh-cons v seen xs)

pub Fresh-nil : {A : Type 0} (xs : List A) → Fresh [] xs
Fresh-nil [] = tt
Fresh-nil (x ∷ xs) = (tt, Fresh-nil xs)
