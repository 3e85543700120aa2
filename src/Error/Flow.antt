-- ===== src/Error/Flow.antt =====
-- crates/laic/src/error.rs: flow control errors, codes 0x04xx.
use laic.Prelude.{ℕ, Bool, true}
use laic.Prelude.Detail.{Detail, plain}

pub data FlowError : Type 0 where
  credit_exhausted : FlowError

unfoldable pub code : FlowError → ℕ
code credit_exhausted = 0x0401

unfoldable pub is_retryable : FlowError → Bool
is_retryable credit_exhausted = true

-- `Display`
unfoldable pub fmt : FlowError → Detail
fmt credit_exhausted = plain "credit exhausted: no credits remaining"
