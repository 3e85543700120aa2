-- ===== src/Flow.antt =====
-- crates/laic/src/flow.rs: the sender's credits, a `u16`. `acquire` and `replenish` return the
-- controller that `&mut self` leaves behind.
pub mod Conservation
use laic.Prelude.{ℕ, ◌+◌, ◌-◌, ◌^◌, min, Result, ok, err, done, ◌==◌, if◌then◌else◌}
use laic.Error.Flow.{FlowError, credit_exhausted}

pub record CreditController : Type 0 where
  pub available : ℕ

-- `u16::MAX`
abbrev pub u16_max : ℕ
u16_max = 65535

abbrev pub new : ℕ → CreditController
new initial_credits = record { available = initial_credits }

unfoldable pub acquire : CreditController → Result (Unit {0}) FlowError × CreditController
acquire self =
    if self.available == 0
    then (err credit_exhausted, self)
    else (done, record self { available = self.available - 1 })

-- `saturating_add` on `u16`
unfoldable pub replenish : ℕ → CreditController → CreditController
replenish credits self = record self { available = min u16_max (self.available + credits) }
