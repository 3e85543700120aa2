-- ===== src/Transport/Framing/Reject.antt =====
-- What framing.rs refuses, and what an accepted frame must have been.
use laic.Prelude.{ℕ, ◌≤◌, ◌<◌, ◌≡◌, refl, sym, String, List, ◌++◌, arith}
use laic.Prelude.{err, done, length, le→ltb, lt→ltb}
use laic.Prelude.Detail.{plain}
use laic.Protocol.Header.{MessageHeader, InRange}
use laic.Protocol.Header.Layout.{layout, length-layout, check}
use laic.Protocol.Message.{Message}
use laic.Protocol.Message.Valid.{IsValid}
use laic.Transport.Framing.{max_payload_len, exceeds_maximum, write_frame, read_frame}
use laic.Transport.Framing.Stream.{AsyncWrite, AsyncRead, ReadLaws}
use laic.Transport.Framing.RoundTrip.{read_prefix, decode_layout_nil}
use laic.Error.{transport}
use laic.Error.Transport.{receive_failed}

-- A message above the limit is refused before a byte is written.
pub write_frame_oversized :
    (w : AsyncWrite) (m : Message) (s : w.Writer)
    → max_payload_len < m.header.payload_len
    → write_frame w m s ≡ (err (exceeds_maximum m.header.payload_len), s)
unfolding write_frame
write_frame_oversized w m s h = rw (lt→ltb max_payload_len m.header.payload_len h)

module _ (r : AsyncRead) (laws : ReadLaws r) where
  open r use {Reader, read_exact}
  open laws use {queued, read_enough, read_short}

  -- A valid header that announces more than the limit makes `read_frame` fail with the error for
  -- an oversized payload, with nothing after the header taken off the stream.
  pub read_frame_oversized :
      (h : MessageHeader) (rest : List ℕ) (s : Reader)
      → InRange h
      → check h ≡ done
      → max_payload_len < h.payload_len
      → queued s ≡ layout h ++ rest
      → ((read_frame r s).0 ≡ err (exceeds_maximum h.payload_len))
        × (queued (read_frame r s).1 ≡ rest)
  unfolding read_frame
  read_frame_oversized h rest s range valid large hq =
      let (got, left) = read_prefix r laws (layout h) rest s 40 (sym (length-layout h)) hq in
      rw (got, decode_layout_nil h range valid, lt→ltb max_payload_len h.payload_len large)
        (refl, left)

  -- A stream that ends inside the header gives a `ReceiveFailed`.
  pub read_frame_truncated_header :
      (s : Reader)
      → length (queued s) < 40
      → (e : String) × ((read_frame r s).0 ≡ err (transport (receive_failed (plain e))))
  unfolding read_frame
  read_frame_truncated_header s h = let (e, failed) = read_short 40 s h in (e, rw failed)

  -- A stream that holds the header of a valid message within the limit and ends before its whole
  -- payload makes `read_frame` fail with `ReceiveFailed`.
  pub read_frame_truncated_payload :
      (m : Message) (front : List ℕ) (s : Reader)
      → IsValid m
      → m.header.payload_len ≤ max_payload_len
      → length front < length m.payload
      → queued s ≡ layout m.header ++ front
      → (e : String) × ((read_frame r s).0 ≡ err (transport (receive_failed (plain e))))
  unfolding read_frame
  read_frame_truncated_payload m front s v small short hq =
      let (got, left) =
        read_prefix r laws (layout m.header) front s 40 (sym (length-layout m.header)) hq in
      let (e, failed) =
        read_short m.header.payload_len (read_exact 40 s).1
          (rw left (omega (arith, v.payload_len))) in
      (
        e,
        rw (
          got,
          decode_layout_nil m.header v.in_range v.checked,
          le→ltb max_payload_len m.header.payload_len small,
          lt→ltb 0 m.header.payload_len (omega (arith, v.payload_len)),
          failed,
        ),
      )
