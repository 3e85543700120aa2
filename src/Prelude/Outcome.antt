-- ===== src/Prelude/Outcome.antt =====
-- What a Rust function that returns `Result<A, E>` can do: return `Ok`, return `Err`, or panic.
-- `do` is the `?` operator. A method of `&mut self` takes and returns the state (`Exec`).
use mathlib.Core.Path.{◌≡◌, refl, ap}
use mathlib.Core.Bool.{Bool, true, false}
use mathlib.Core.Option.{Option, none, some}

pub data Result {ℓ κ} (A : Type ℓ) (E : Type κ) : Type (ℓ ⊔ κ) where
  ok : A → Result A E
  err : E → Result A E
  panicked : Result A E

infixl 5 ◌>>=◌ ◌>>◌
abbrev pub ◌>>=◌ {ℓ κ μ} :
    {A : Type ℓ} {B : Type κ} {E : Type μ} → Result A E → (A → Result B E) → Result B E
ok a >>= f = f a
err e >>= f = err e
panicked >>= f = panicked

abbrev pub ◌>>◌ {ℓ κ μ} :
    {A : Type ℓ} {B : Type κ} {E : Type μ} → Result A E → Result B E → Result B E
m >> k = m >>= λ _. k

-- `Result::map_err`, and the conversion that `?` makes by `From`.
abbrev pub map_err {ℓ κ μ} :
    {A : Type ℓ} {E : Type κ} {F : Type μ} → (E → F) → Result A E → Result A F
map_err f (ok a) = ok a
map_err f (err e) = err (f e)
map_err f panicked = panicked

-- `Option::ok_or_else`
abbrev pub ok_or {ℓ κ} : {A : Type ℓ} {E : Type κ} → E → Option A → Result A E
ok_or e none = err e
ok_or e (some a) = ok a

-- `assert!`
abbrev pub assert {κ} : {E : Type κ} → Bool → Result (Unit {0}) E
assert true = ok tt
assert false = panicked

-- Runs `f` on the value of a step that also changed the state. A failure keeps the state.
abbrev pub and_then {ℓ κ μ ν} :
    {S : Type ℓ} {A : Type κ} {B : Type μ} {E : Type ν}
    → Result A E × S
    → (A → S → Result B E × S)
    → Result B E × S
and_then (ok a, s) f = f a s
and_then (err e, s) f = (err e, s)
and_then (panicked, s) f = (panicked, s)

-- `map_err` on the result of a step that also changed the state.
abbrev pub map_err_fst {ℓ κ μ ν} :
    {S : Type ℓ} {A : Type κ} {E : Type μ} {F : Type ν} → (E → F) → Result A E × S → Result A F × S
map_err_fst f (r, s) = (map_err f r, s)

-- When a chain of two steps succeeds, so did the first, and the second on the value it gave.
module _ {ℓ κ μ} {A : Type ℓ} {B : Type κ} {E : Type μ} where
  pub bind-ok :
      (first : Result A E) (next : A → Result B E) {out : B}
      → (first >>= next) ≡ ok out
      → (mid : A) × (first ≡ ok mid) × (next mid ≡ ok out)
  bind-ok panicked next passed = cc
  bind-ok (err _) next passed = cc
  bind-ok (ok mid) next passed = (mid, refl, passed)

-- `if b { return Err(e); }`
abbrev pub err_if {κ} : {E : Type κ} → Bool → E → Result (Unit {0}) E
err_if true e = err e
err_if false e = ok tt

-- `Ok(())`
abbrev pub done {κ} : {E : Type κ} → Result (Unit {0}) E
done = ok tt

pub ok-injective {ℓ κ} :
    {A : Type ℓ} {E : Type κ} {a b : A} → ◌≡◌ {A = Result A E} (ok a) (ok b) → a ≡ b
ok-injective h = cc

pub and_then-eq-ok {ℓ κ μ ν} :
    {S : Type ℓ} {A : Type κ} {B : Type μ} {E : Type ν} (x : Result A E × S)
    (f : A → S → Result B E × S) {b : B}
    → (and_then x f).0 ≡ ok b
    → (a : A) × (x.0 ≡ ok a) × (and_then x f ≡ f a x.1) × ((f a x.1).0 ≡ ok b)
and_then-eq-ok (ok a, s) f h = (a, refl, refl, h)
and_then-eq-ok (err e, s) f h = cc
and_then-eq-ok (panicked, s) f h = cc

pub map_err-eq-ok {ℓ κ μ} :
    {A : Type ℓ} {E : Type κ} {F : Type μ} (f : E → F) (r : Result A E) {a : A}
    → map_err f r ≡ ok a
    → r ≡ ok a
map_err-eq-ok f (ok a) h = ap ok (ok-injective h)
map_err-eq-ok f (err e) h = cc
map_err-eq-ok f panicked h = cc
