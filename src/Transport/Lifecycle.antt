-- ===== src/Transport/Lifecycle.antt =====
-- What every connection does after `close`, of either kind.
use laic.Prelude.{ℕ, ◌≡◌, refl, ap, Option, some, err, done}
use laic.Protocol.Message.{Message}
use laic.Transport.{Transport, ipc, quic, send, receive, close}
use laic.Transport.Ipc
use laic.Transport.Ipc.{IpcFrame, IpcConnection}
use laic.Transport.Quic
use laic.Transport.Quic.{Quinn, QuicConnection}
use laic.Transport.Quic.Lifecycle.{close-closed, close-close, closed_refuses}
use laic.Transport.Shm.{ShmPort}
use laic.Error.{transport}
use laic.Error.Transport.{shutting_down}

module _ (b : ShmPort IpcFrame) (q : Quinn) where
  -- After a `close`, which may itself have failed, every `send` and `receive` gives the
  -- non-retryable `ShuttingDown` and leaves the connection alone, a receive without waiting; and a
  -- second `close` succeeds and changes nothing.
  pub close_final :
      (t : Transport b q) (m : Message) (now : ℕ → ℕ) (env : Option ℕ) (fuel : ℕ)
      → (send b q m (close b q t).1 ≡ (err (transport shutting_down), (close b q t).1))
        × (receive b q now env fuel (close b q t).1
            ≡ some (err (transport shutting_down), (close b q t).1))
        × (close b q (close b q t).1 ≡ (done, (close b q t).1))
  unfolding send receive close Ipc.send Ipc.receive Ipc.close
  close_final (ipc c) m now env fuel = (refl, refl, refl)
  close_final (quic c) m now env fuel =
      let (no_send, no_receive) = closed_refuses q (Quic.close q c).1 m (close-closed q c) in
      (
        ap (λ (r, c'). (r, quic c')) no_send,
        ap (λ (r, c'). some (r, quic c')) no_receive,
        ap (λ (r, c'). (r, quic c')) (close-close q c),
      )
