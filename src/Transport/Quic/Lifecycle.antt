-- ===== src/Transport/Quic/Lifecycle.antt =====
-- The life of a QUIC connection: open, and then closed for good.
use laic.Prelude.{◌≡◌, refl, true, inl, inr, Bool-cases, err, done}
use laic.Protocol.Message.{Message}
use laic.Transport.Quic.{Quinn, QuicConnection, send, receive, close}
use laic.Error.{transport}
use laic.Error.Transport.{shutting_down}

module _ (q : Quinn) where
  -- Whether or not the stream could be finished, a connection is closed after `close`.
  pub close-closed : (c : QuicConnection q) → (close q c).1.closed ≡ true
  unfolding close
  close-closed c = elim (Bool-cases c.closed) [
    | inl closed ↦ rw closed refl
    | inr is_open ↦ rw is_open refl
  ]

  -- Closing a connection a second time succeeds and changes nothing.
  pub close-close : (c : QuicConnection q) → close q (close q c).1 ≡ (done, (close q c).1)
  close-close c = unfold close in (rw (close-closed c) refl)

  -- On a closed connection `send` and `receive` give `ShuttingDown` and touch no stream.
  pub closed_refuses :
      (c : QuicConnection q) (m : Message)
      → c.closed ≡ true
      → (send q m c ≡ (err (transport shutting_down), c))
        × (receive q c ≡ (err (transport shutting_down), c))
  unfolding send receive
  closed_refuses c m closed = rw closed (refl, refl)
