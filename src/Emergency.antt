-- ===== src/Emergency.antt =====
-- crates/laic/src/emergency.rs: raw bytes in a 172-byte slot, on a channel of their own.
pub mod Delivery
use laic.Prelude.{
  ℕ, zero, suc, ◌%◌, ◌^◌, Bool, true, false, Option, none, some, List, [], ◌∷◌, replicate, take,
  length, write_at, Result, ok, err, done, ltb, if◌then◌else◌,
}
use laic.Prelude
use laic.Prelude.Detail.{text, dec}
use laic.Prelude.Exec.{Exec, ◌>>=◌, ◌>>◌, lift, map_error}
use mathlib.Core.Option
use laic.Transport.Shm.{
  ShmPort, Poll, sample, empty, failed, sleep, LoanError, exceeds_max_loans, other,
}
use laic.Error.{LaicError, transport}
use laic.Error.Transport.{
  send_failed, receive_failed, framing_error, shutting_down, backpressure_full,
}

abbrev pub max_emergency_payload_len : ℕ
max_emergency_payload_len = 168

-- In microseconds.
abbrev pub emergency_poll_interval : ℕ
emergency_poll_interval = 50

pub record EmergencyFrame : Type 0 where
  pub len : ℕ
  pub data_bytes : List ℕ

pub record EmergencyChannel (b : ShmPort EmergencyFrame) : Type 0 where
  pub publisher : b.Publisher
  pub subscriber : b.Subscriber
  pub closed : Bool

abbrev pub loan_failed : LoanError → LaicError
loan_failed exceeds_max_loans = transport backpressure_full
loan_failed (other e) = transport (send_failed (text "emergency loan failed: " ∷ text e ∷ []))

abbrev pub make_frame : List ℕ → EmergencyFrame
make_frame payload = record {
  len = length payload % 2 ^ 32;
  data_bytes = write_at 0 payload (replicate max_emergency_payload_len 0);
}

unfoldable pub open_frame : EmergencyFrame → Result (List ℕ) LaicError
open_frame frame =
    if ltb max_emergency_payload_len frame.len
    then err (
        transport (
          framing_error (
            text "emergency frame len "
            ∷ dec frame.len
            ∷ text " exceeds capacity "
            ∷ dec max_emergency_payload_len
            ∷ [])))
    else ok (take frame.len frame.data_bytes)

-- What the loop makes of one poll, given how it goes on after an empty one. `none`: still waiting.
abbrev pub next :
    {S : Type 0}
    → Poll EmergencyFrame × S
    → Option (Result (List ℕ) LaicError × S)
    → Option (Result (List ℕ) LaicError × S)
next (sample frame, s) later = some (open_frame frame, s)
next (empty, s) later = later
next (failed e, s) later =
    some (err (transport (receive_failed (text "emergency receive failed: " ∷ text e ∷ []))), s)

module _ (b : ShmPort EmergencyFrame) where
  open b use {Subscriber, Publisher}

  abbrev pub publish : List ℕ → Exec Publisher LaicError (Unit {0})
  publish payload = do
    map_error loan_failed b.loan_uninit
    map_error (λ e. transport (send_failed (text "emergency send failed: " ∷ text e ∷ [])))
        (b.send (make_frame payload))

  unfoldable pub send : List ℕ → Exec (EmergencyChannel b) LaicError (Unit {0})
  send payload self =
      if self.closed
      then (err (transport shutting_down), self)
      else if ltb max_emergency_payload_len (length payload)
      then (
        err (
            transport (
              framing_error (
                text "emergency payload length "
                ∷ dec (length payload)
                ∷ text " exceeds maximum "
                ∷ dec max_emergency_payload_len
                ∷ []))),
        self,
      )
      else (
        (publish payload self.publisher).0,
        record self { publisher = (publish payload self.publisher).1 },
      )

  -- The loop of `receive`, which sleeps after each empty poll, with at most `fuel` polls.
  unfoldable pub receive_loop : ℕ → Subscriber → Option (Result (List ℕ) LaicError × Subscriber)
  receive_loop zero s = none
  receive_loop (suc fuel) s =
      next (b.receive s)
        (receive_loop fuel (b.wait (sleep emergency_poll_interval) (b.receive s).1))

  unfoldable pub receive :
      ℕ → EmergencyChannel b → Option (Result (List ℕ) LaicError × EmergencyChannel b)
  receive fuel self =
      if self.closed
      then some (err (transport shutting_down), self)
      else Option.map (λ (r, s). (r, record self { subscriber = s }))
          (receive_loop fuel self.subscriber)

  unfoldable pub close : Exec (EmergencyChannel b) LaicError (Unit {0})
  close self = (done, record self { closed = true })
