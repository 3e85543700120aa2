-- ===== src/Error/Transport.antt =====
-- crates/laic/src/error.rs: transport errors, codes 0x01xx.
use laic.Prelude.{ℕ, Bool, true, false, ◌∷◌}
use laic.Prelude.Detail.{Detail, plain, text}

pub data TransportError : Type 0 where
  connection_failed : (detail : Detail) → TransportError
  connection_lost : (detail : Detail) → TransportError
  not_connected : TransportError
  send_failed : (detail : Detail) → TransportError
  receive_failed : (detail : Detail) → TransportError
  timeout : (operation : Detail) → TransportError
  backpressure_full : TransportError
  shutting_down : TransportError
  framing_error : (detail : Detail) → TransportError

unfoldable pub code : TransportError → ℕ
code (connection_failed _) = 0x0101
code (connection_lost _) = 0x0102
code not_connected = 0x0103
code (send_failed _) = 0x0104
code (receive_failed _) = 0x0105
code (timeout _) = 0x0106
code backpressure_full = 0x0107
code shutting_down = 0x0108
code (framing_error _) = 0x0109

unfoldable pub is_retryable : TransportError → Bool
is_retryable (connection_failed _) = true
is_retryable (connection_lost _) = true
is_retryable (send_failed _) = true
is_retryable (receive_failed _) = true
is_retryable (timeout _) = true
is_retryable backpressure_full = true
is_retryable not_connected = false
is_retryable shutting_down = false
is_retryable (framing_error _) = false

-- `Display`
unfoldable pub fmt : TransportError → Detail
fmt (connection_failed detail) = text "connection failed: " ∷ detail
fmt (connection_lost detail) = text "connection lost: " ∷ detail
fmt not_connected = plain "not connected"
fmt (send_failed detail) = text "send failed: " ∷ detail
fmt (receive_failed detail) = text "receive failed: " ∷ detail
fmt (timeout operation) = text "timeout: " ∷ operation
fmt backpressure_full = plain "backpressure: send queue full"
fmt shutting_down = plain "transport shutting down"
fmt (framing_error detail) = text "framing error: " ∷ detail
