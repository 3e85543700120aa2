-- ===== src/Flow/Conservation.antt =====
-- Any sequence of sends and grants: credits are neither made nor lost, but for saturation.
use laic.Prelude.{ℕ, zero, suc, ◌+◌, ◌-◌, ◌≤◌, ◌≡◌, min, List, [], ◌∷◌, arith}
use laic.Prelude.{Result, ok, err, panicked, replicate}
use laic.Flow.{CreditController, u16_max, acquire, replenish}
use laic.Error.Flow.{FlowError}

-- What a caller does with a controller.
pub data Op : Type 0 where
  take_credit : Op
  grant : ℕ → Op

abbrev pub granted : List Op → ℕ
granted [] = 0
granted (take_credit ∷ ops) = granted ops
granted (grant n ∷ ops) = n + granted ops

abbrev succeeded : Result (Unit {0}) FlowError → ℕ
succeeded (ok _) = 1
succeeded (err _) = 0
succeeded panicked = 0

-- How many calls of `acquire` succeeded, and the controller at the end.
pub run : List Op → CreditController → ℕ × CreditController
run [] c = (0, c)
run (take_credit ∷ ops) c = let (n, c') = run ops (acquire c).1 in (succeeded (acquire c).0 + n, c')
run (grant n ∷ ops) c = run ops (replenish n c)

acquire_balance :
    (c : CreditController) → succeeded (acquire c).0 + (acquire c).1.available ≡ c.available
unfolding acquire
acquire_balance c = ground arith

acquire_takes : (c : CreditController) → (acquire c).1.available ≡ c.available - 1
unfolding acquire
acquire_takes c = ground arith

replenish-le : (n : ℕ) (c : CreditController) → (replenish n c).available ≤ c.available + n
unfolding replenish
replenish-le n c = omega arith

replenish_fits :
    (n : ℕ) (c : CreditController)
    → c.available + n ≤ u16_max
    → (replenish n c).available ≡ c.available + n
unfolding replenish
replenish_fits n c h = omega arith

replenish-le-u16_max : (n : ℕ) (c : CreditController) → (replenish n c).available ≤ u16_max
unfolding replenish
replenish-le-u16_max n c = omega arith

-- The credits taken and those left never exceed the initial ones and the grants together.
pub run-le :
    (ops : List Op) (c : CreditController)
    → (run ops c).0 + (run ops c).1.available ≤ c.available + granted ops
unfolding run
run-le [] c = omega arith
run-le (take_credit ∷ ops) c = omega (arith, run-le ops (acquire c).1, acquire_balance c)
run-le (grant n ∷ ops) c = omega (arith, run-le ops (replenish n c), replenish-le n c)

-- For any sequence of `acquire` and `replenish` whose grants and initial credits stay within a
-- `u16` together, the successful acquisitions and the credits left add up to the initial credits
-- and the grants.
pub run_balance :
    (ops : List Op) (c : CreditController)
    → c.available + granted ops ≤ u16_max
    → (run ops c).0 + (run ops c).1.available ≡ c.available + granted ops
unfolding run
run_balance [] c h = omega arith
run_balance (take_credit ∷ ops) c h =
    omega
      (arith, acquire_balance c, run_balance ops (acquire c).1 (omega (arith, acquire_balance c)))
run_balance (grant n ∷ ops) c h = omega (
  arith,
  replenish_fits n c (omega arith),
  run_balance ops (replenish n c) (omega (arith, replenish-le n c)),
)

-- A controller stays within a `u16` from a start within it, whatever is granted.
pub run-le-u16_max :
    (ops : List Op) (c : CreditController)
    → c.available ≤ u16_max
    → (run ops c).1.available ≤ u16_max
unfolding run
run-le-u16_max [] c h = h
run-le-u16_max (take_credit ∷ ops) c h =
    run-le-u16_max ops (acquire c).1 (omega (arith, acquire_balance c))
run-le-u16_max (grant n ∷ ops) c h = run-le-u16_max ops (replenish n c) (replenish-le-u16_max n c)

-- Of `k` calls of `acquire` in a row exactly as many succeed as there are credits, up to `k`, and
-- the credits left are the rest.
pub run-replicate :
    (k : ℕ) (c : CreditController)
    → ((run (replicate k take_credit) c).0 ≡ min k c.available)
      × ((run (replicate k take_credit) c).1.available ≡ c.available - k)
unfolding run replicate
run-replicate zero c = omega arith
run-replicate (suc k) c =
    ground (arith, acquire_balance c, acquire_takes c, run-replicate k (acquire c).1)
