-- ===== src/Transport.antt =====
-- crates/laic/src/transport/mod.rs: one interface over the two kinds of connection.
pub mod Framing
pub mod Shm
pub mod Ipc
pub mod Quic
pub mod Lifecycle
use laic.Prelude.{ℕ, Bool, Option, some, Result}
use laic.Prelude.Exec.{Exec}
use mathlib.Core.Option
use laic.Protocol.Message.{Message}
use laic.Transport.Ipc.{IpcFrame, IpcConnection}
use laic.Transport.Quic.{Quinn, QuicConnection}
use laic.Transport.Shm.{ShmPort}
use laic.Error.{LaicError}

pub data Transport (b : ShmPort IpcFrame) (q : Quinn) : Type 0 where
  ipc : IpcConnection b → Transport b q
  quic : QuicConnection q → Transport b q

module _ (b : ShmPort IpcFrame) (q : Quinn) where
  unfoldable pub send : Message → Exec (Transport b q) LaicError (Unit {0})
  send msg (ipc c) = ((Ipc.send b msg c).0, ipc (Ipc.send b msg c).1)
  send msg (quic c) = ((Quic.send q msg c).0, quic (Quic.send q msg c).1)

  -- The clock, the budget and the fuel are those of the receive loop of IPC.
  unfoldable pub receive :
      (ℕ → ℕ) → Option ℕ → ℕ → Transport b q → Option (Result Message LaicError × Transport b q)
  receive now env fuel (ipc c) = Option.map (λ (r, c'). (r, ipc c')) (Ipc.receive b now env fuel c)
  receive now env fuel (quic c) = some ((Quic.receive q c).0, quic (Quic.receive q c).1)

  unfoldable pub close : Exec (Transport b q) LaicError (Unit {0})
  close (ipc c) = ((Ipc.close b c).0, ipc (Ipc.close b c).1)
  close (quic c) = ((Quic.close q c).0, quic (Quic.close q c).1)
