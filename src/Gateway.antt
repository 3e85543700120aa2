-- ===== src/Gateway.antt =====
-- crates/laic/src/gateway.rs: one message at a time between a local and a remote connection.
pub mod Forward
use laic.Prelude.{ℕ, Bool, Option, some, Result, ok, err, panicked}
use laic.Prelude.Exec.{Exec}
use mathlib.Core.Option
use laic.Protocol.Message.{Message}
use laic.Transport.Ipc
use laic.Transport.Ipc.{IpcFrame, IpcConnection}
use laic.Transport.Quic
use laic.Transport.Quic.{Quinn, QuicConnection}
use laic.Transport.Shm.{ShmPort}
use laic.Error.{LaicError}

pub record Gateway (b : ShmPort IpcFrame) (q : Quinn) : Type 0 where
  pub ipc : IpcConnection b
  pub quic : QuicConnection q

-- `Result::and`
abbrev pub and_result :
    Result (Unit {0}) LaicError → Result (Unit {0}) LaicError → Result (Unit {0}) LaicError
and_result (ok _) s = s
and_result (err e) s = err e
and_result panicked s = panicked

module _ (b : ShmPort IpcFrame) (q : Quinn) where
  abbrev pub new : IpcConnection b → QuicConnection q → Gateway b q
  new ipc quic = record { ipc = ipc; quic = quic }

  abbrev pub quic_send : Result Message LaicError → Exec (Gateway b q) LaicError (Unit {0})
  quic_send (ok msg) self =
      ((Quic.send q msg self.quic).0, record self { quic = (Quic.send q msg self.quic).1 })
  quic_send (err e) self = (err e, self)
  quic_send panicked self = (panicked, self)

  abbrev pub ipc_send : Result Message LaicError → Exec (Gateway b q) LaicError (Unit {0})
  ipc_send (ok msg) self =
      ((Ipc.send b msg self.ipc).0, record self { ipc = (Ipc.send b msg self.ipc).1 })
  ipc_send (err e) self = (err e, self)
  ipc_send panicked self = (panicked, self)

  -- `none`: the receive still waits.
  unfoldable pub forward_ipc_to_quic :
      (ℕ → ℕ) → Option ℕ → ℕ → Gateway b q → Option (Result (Unit {0}) LaicError × Gateway b q)
  forward_ipc_to_quic now env fuel self =
      Option.map (λ (r, c). quic_send r (record self { ipc = c }))
        (Ipc.receive b now env fuel self.ipc)

  unfoldable pub forward_quic_to_ipc : Exec (Gateway b q) LaicError (Unit {0})
  forward_quic_to_ipc self =
      ipc_send (Quic.receive q self.quic).0 (record self { quic = (Quic.receive q self.quic).1 })

  unfoldable pub close : Exec (Gateway b q) LaicError (Unit {0})
  close self = (
    and_result (Ipc.close b self.ipc).0 (Quic.close q self.quic).0,
    record self { ipc = (Ipc.close b self.ipc).1; quic = (Quic.close q self.quic).1 },
  )

  abbrev pub into_parts : Gateway b q → IpcConnection b × QuicConnection q
  into_parts self = (self.ipc, self.quic)
