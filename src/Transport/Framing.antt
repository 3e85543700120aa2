-- ===== src/Transport/Framing.antt =====
-- crates/laic/src/transport/framing.rs: frames `[40-byte header][payload]` on a byte stream.
pub mod Stream
pub mod RoundTrip
pub mod Reject
pub mod Delivery
pub mod Sound
pub mod Failing
pub mod Queue
use laic.Prelude.{
  ℕ, ◌*◌, String, List, [], ◌∷◌, replicate, Result, ok, err, done, err_if, ltb, if◌then◌else◌,
}
use laic.Prelude.Detail.{Detail, text, dec, plain}
use laic.Prelude.Exec.{Exec, ◌>>=◌, ◌>>◌, lift, map_error}
use laic.Protocol.Constants
use laic.Protocol.Header.{MessageHeader, encode, decode}
use laic.Protocol.Message.{Message, from_parts}
use laic.Error.{LaicError, transport}
use laic.Error.Transport.{send_failed, receive_failed, framing_error}
use Stream.{AsyncWrite, AsyncRead}

abbrev pub max_payload_len : ℕ
max_payload_len = 64 * 1024 * 1024

abbrev pub exceeds_maximum : ℕ → LaicError
exceeds_maximum n = transport (
    framing_error
      (text "payload length " ∷ dec n ∷ text " exceeds maximum " ∷ dec max_payload_len ∷ []))

module _ (w : AsyncWrite) where
  open w use {Writer, write_all}

  unfoldable pub write_frame : Message → Exec Writer LaicError (Unit {0})
  write_frame msg = do
    lift (
        err_if (ltb max_payload_len msg.header.payload_len)
          (exceeds_maximum msg.header.payload_len))
    header_buf ← lift (encode msg.header (replicate Constants.header_size 0))
    map_error (λ e. transport (send_failed (plain e))) (write_all header_buf)
    map_error (λ e. transport (send_failed (plain e))) (write_all msg.payload)
    lift done

module _ (r : AsyncRead) where
  open r use {Reader, read_exact}

  unfoldable pub read_frame : Exec Reader LaicError Message
  read_frame = do
    header_buf ←
        map_error (λ e. transport (receive_failed (plain e))) (read_exact Constants.header_size)
    header ← lift (decode header_buf)
    lift (err_if (ltb max_payload_len header.payload_len) (exceeds_maximum header.payload_len))
    let payload_len = header.payload_len
    payload ←
        if ltb 0 payload_len
        then map_error (λ e. transport (receive_failed (plain e))) (read_exact payload_len)
        else lift (ok (replicate payload_len 0))
    lift (from_parts header payload)
