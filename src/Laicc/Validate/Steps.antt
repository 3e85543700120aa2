-- ===== src/Laicc/Validate/Steps.antt =====
-- Chains of checks, for the proofs about validate.rs: a chain passes exactly when each check does.
use laic.Prelude.{
  ℕ, ◌≡◌, ◌≢◌, ◌↔◌, Bool, true, false, Result, ok, err, panicked, done, err_if, ◌==◌, ◌>>◌, arith,
}
use laic.Laicc.Ast.{CompileError}

pub then_iff :
    (a b : Result (Unit {0}) CompileError) → ((a >> b) ≡ done) ↔ ((a ≡ done) × (b ≡ done))
then_iff (ok _) b = ground arith
then_iff (err e) b = ground arith
then_iff panicked b = ground arith

pub err_if_iff : (b : Bool) (e : CompileError) → (err_if b e ≡ done) ↔ (b ≡ false)
err_if_iff true e = ground arith
err_if_iff false e = ground arith

pub both :
    {P Q : Type 0} (a b : Result (Unit {0}) CompileError)
    → (a ≡ done) ↔ P
    → (b ≡ done) ↔ Q
    → ((a >> b) ≡ done) ↔ (P × Q)
both a b (p, p') (q, q') =
    let (out, back) = then_iff a b in (λ h. (p (out h).0, q (out h).1), λ (x, y). back (p' x, q' y))

pub if_absent :
    {P : Type 0} (b : Bool) (e : CompileError) → (b ≡ false) ↔ P → (err_if b e ≡ done) ↔ P
if_absent b e (p, p') = let (out, back) = err_if_iff b e in (λ h. p (out h), λ x. back (p' x))

pub non_zero : (n : ℕ) → ((n == 0) ≡ false) ↔ (n ≢ 0)
non_zero n = ground arith
