-- ===== src/Transport/Quic.antt =====
-- crates/laic/src/transport/quic.rs: messages as frames on one bidirectional QUIC stream.
pub mod Lifecycle
use laic.Prelude.{
  Bool, true, false, String, List, ◌∷◌, [], Result, ok, err, done, map_err_fst, map_err, and_then,
  if◌then◌else◌,
}
use laic.Prelude.Detail.{text}
use laic.Prelude.Exec.{Exec}
use laic.Protocol.Message.{Message}
use laic.Transport.Framing.{write_frame, read_frame}
use laic.Transport.Framing.Stream.{AsyncWrite, AsyncRead}
use laic.Error.{LaicError, transport}
use laic.Error.Transport.{shutting_down, connection_failed}

-- What quic.rs uses of quinn besides the streams' reads and writes.
pub record Quinn : Type 1 where
  pub send_stream : AsyncWrite
  pub recv_stream : AsyncRead
  pub Connection : Type 0
  pub finish : Exec send_stream.Writer String (Unit {0})
  pub close : Connection → Connection

pub record QuicConnection (q : Quinn) : Type 0 where
  pub send : q.send_stream.Writer
  pub recv : q.recv_stream.Reader
  pub conn : q.Connection
  pub closed : Bool

module _ (q : Quinn) where
  -- Frames a message on the send stream, in either case with the writer that the call leaves.
  unfoldable pub send : Message → Exec (QuicConnection q) LaicError (Unit {0})
  send msg self = if self.closed then (err (transport shutting_down), self) else (
    (write_frame q.send_stream msg self.send).0,
    record self { send = (write_frame q.send_stream msg self.send).1 },
  )

  unfoldable pub receive : Exec (QuicConnection q) LaicError Message
  receive self = if self.closed then (err (transport shutting_down), self) else (
    (read_frame q.recv_stream self.recv).0,
    record self { recv = (read_frame q.recv_stream self.recv).1 },
  )

  -- The connection is closed even where the stream cannot be finished.
  unfoldable pub close : Exec (QuicConnection q) LaicError (Unit {0})
  close self = if self.closed then (done, self) else (
    map_err
        (λ e. transport (connection_failed (text "failed to finish send stream: " ∷ text e ∷ [])))
        (q.finish self.send).0,
    record self { closed = true; send = (q.finish self.send).1; conn = q.close self.conn },
  )
