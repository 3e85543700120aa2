-- ===== src/Transport/Ipc.antt =====
-- crates/laic/src/transport/ipc.rs: a message in one fixed-size shared-memory slot.
pub mod Frame
pub mod Polling
pub mod Delivery
use laic.Prelude.{
  ℕ, zero, suc, ◌+◌, ◌-◌, ◌*◌, Bool, true, false, Option, none, some, List, [], ◌∷◌, replicate,
  take, length, write_at, Result, ok, err, done, err_if, ltb, if◌then◌else◌,
}
use laic.Prelude.Detail.{text, dec}
use laic.Prelude.Exec.{Exec, ◌>>=◌, ◌>>◌, lift, map_error, gets}
use laic.Prelude
use mathlib.Core.Option
use laic.Protocol.Constants
use laic.Protocol.Header.{MessageHeader, encode, decode}
use laic.Protocol.Message.{Message, from_parts}
use laic.Transport.Shm.{
  ShmPort, Poll, sample, empty, failed, Wait, yield_now, sleep, LoanError, exceeds_max_loans, other,
}
use laic.Error.{LaicError, transport}
use laic.Error.Transport.{
  TransportError, send_failed, receive_failed, framing_error, shutting_down, backpressure_full,
}

abbrev pub max_ipc_payload_len : ℕ
max_ipc_payload_len = 65536

-- In microseconds.
abbrev pub poll_interval : ℕ
poll_interval = 100

pub record IpcFrame : Type 0 where
  pub header : List ℕ
  pub payload : List ℕ

pub record IpcConnection (b : ShmPort IpcFrame) : Type 0 where
  pub publisher : b.Publisher
  pub subscriber : b.Subscriber
  pub closed : Bool

abbrev pub loan_failed : LoanError → LaicError
loan_failed exceeds_max_loans = transport backpressure_full
loan_failed (other e) = transport (send_failed (text "loan failed: " ∷ text e ∷ []))

-- The frame that `send` fills: the encoded header, and the payload over a zeroed buffer.
unfoldable pub make_frame : Message → Result IpcFrame LaicError
make_frame msg = Prelude.◌>>=◌ (encode msg.header (replicate Constants.header_size 0)) (λ header.
    ok (record {
      header = header;
      payload = write_at 0 msg.payload (replicate max_ipc_payload_len 0);
    }))

-- What `receive` makes of a sample.
unfoldable pub open_frame : IpcFrame → Result Message LaicError
open_frame frame = Prelude.◌>>=◌ (decode frame.header) λ header.
    Prelude.◌>>◌
      (err_if (ltb max_ipc_payload_len header.payload_len) (
        transport (
          framing_error (
            text "received payload_len "
            ∷ dec header.payload_len
            ∷ text " exceeds IPC frame capacity "
            ∷ dec max_ipc_payload_len
            ∷ []))))
      (from_parts header (take header.payload_len frame.payload))

-- The counters of a receive loop, which it prints; lengths of time in microseconds.
pub record PollStats : Type 0 where
  pub empty_polls : ℕ
  pub active_yields : ℕ
  pub requested_sleep : ℕ
  pub actual_sleep : ℕ

-- The budget of the environment variable, if it is set to a positive number of milliseconds.
abbrev pub active_poll_budget : Option ℕ → Option ℕ
active_poll_budget none = none
active_poll_budget (some millis) = if ltb 0 millis then some millis else none

-- `active_poll_until.is_some_and(|deadline| Instant::now() < deadline)`
abbrev pub before : Option ℕ → ℕ → Bool
before none now = false
before (some deadline) now = ltb now deadline

-- An empty poll: yield while the active budget lasts, and sleep afterwards. Each empty poll has
-- three readings of the clock: against the deadline, and before and after a sleep.
abbrev pub idle : (ℕ → ℕ) → Option ℕ → PollStats → Wait × PollStats
idle now until s =
    if before until (now (3 * s.empty_polls))
    then (
      yield_now,
      record s { empty_polls = s.empty_polls + 1; active_yields = s.active_yields + 1 },
    )
    else (
      sleep poll_interval,
      record s {
        empty_polls = s.empty_polls + 1;
        requested_sleep = s.requested_sleep + poll_interval;
        actual_sleep = s.actual_sleep + (now (3 * s.empty_polls + 2) - now (3 * s.empty_polls + 1));
      },
    )

-- What the loop makes of one poll, given how it goes on after an empty one. `none`: still waiting.
abbrev pub next :
    {S : Type 0}
    → Poll IpcFrame × S
    → Option (Result Message LaicError × S)
    → Option (Result Message LaicError × S)
next (sample frame, s) later = some (open_frame frame, s)
next (empty, s) later = later
next (failed e, s) later =
    some (err (transport (receive_failed (text "receive failed: " ∷ text e ∷ []))), s)

module _ (b : ShmPort IpcFrame) where
  open b use {Subscriber, Publisher}

  abbrev pub publish : Message → Exec Publisher LaicError (Unit {0})
  publish msg = do
    frame ← lift (make_frame msg)
    map_error loan_failed b.loan_uninit
    map_error (λ e. transport (send_failed (text "send failed: " ∷ text e ∷ []))) (b.send frame)

  unfoldable pub send : Message → Exec (IpcConnection b) LaicError (Unit {0})
  send msg self =
      if self.closed
      then (err (transport shutting_down), self)
      else if ltb max_ipc_payload_len (length msg.payload)
      then (
        err (
            transport (
              framing_error (
                text "payload length "
                ∷ dec (length msg.payload)
                ∷ text " exceeds IPC maximum "
                ∷ dec max_ipc_payload_len
                ∷ []))),
        self,
      )
      else (
        (publish msg self.publisher).0,
        record self { publisher = (publish msg self.publisher).1 },
      )

  -- The loop of `receive`: `now` is the clock, read at empty polls; `fuel` bounds the polls.
  unfoldable pub receive_loop :
      (ℕ → ℕ)
      → Option ℕ
      → ℕ
      → PollStats
      → Subscriber
      → Option (Result Message LaicError × Subscriber)
  receive_loop now until zero stats s = none
  receive_loop now until (suc fuel) stats s =
      let (wait, stats') = idle now until stats in
      next (b.receive s) (receive_loop now until fuel stats' (b.wait wait (b.receive s).1))

  -- The deadline, if a budget is set: the clock is read once, before the first poll.
  abbrev pub deadline : ℕ → Option ℕ → Option ℕ
  deadline start none = none
  deadline start (some millis) = some (start + millis * 1000)

  unfoldable pub receive :
      (ℕ → ℕ) → Option ℕ → ℕ → IpcConnection b → Option (Result Message LaicError × IpcConnection b)
  receive now env fuel self =
      if self.closed
      then some (err (transport shutting_down), self)
      else Option.map (λ (r, s). (r, record self { subscriber = s }))
          (receive_loop (λ n. now (suc n)) (deadline (now 0) (active_poll_budget env)) fuel
            (record { empty_polls = 0; active_yields = 0; requested_sleep = 0; actual_sleep = 0 })
            self.subscriber)

  unfoldable pub close : Exec (IpcConnection b) LaicError (Unit {0})
  close self = (done, record self { closed = true })
