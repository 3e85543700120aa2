-- ===== src/Transport/Framing/Delivery.antt =====
-- Both ends of a stream: what `write_frame` sends, `read_frame` delivers, in order.
use mathlib.Core.List.{flatten}
use laic.Prelude.{◌≡◌, ◌∙◌, sym, ap, List, [], ◌++◌, map, append-nil, length, All, ok, done}
use laic.Protocol.Message.{Message}
use laic.Transport.Framing.Stream.{AsyncWrite, AsyncRead, WriteLaws, ReadLaws}
use laic.Transport.Framing.RoundTrip.{
  frame_bytes, write_frames, write_frames_lem, read_frames, read_frames_lem, WithinLimit,
  IsValid-within,
}

module _ (w : AsyncWrite) (wl : WriteLaws w) (r : AsyncRead) (rl : ReadLaws r) where
  -- For valid messages within the limit: if the writer had sent nothing before, all calls of
  -- `write_frame` succeed, and the reader's stream holds just the bytes sent, then as many calls
  -- of `read_frame` give these messages in this order and leave nothing.
  pub read_frames-write_frames :
      (ms : List Message) (s : w.Writer) (t : r.Reader)
      → All WithinLimit ms
      → wl.sent s ≡ []
      → (write_frames w ms s).0 ≡ done
      → rl.queued t ≡ wl.sent (write_frames w ms s).1
      → ((read_frames r (length ms) t).0 ≡ ok ms) × (rl.queued (read_frames r (length ms) t).1 ≡ [])
  read_frames-write_frames ms s t v fresh wrote same = read_frames_lem r rl ms [] t v (
      same
      ∙ write_frames_lem w wl ms s (IsValid-within ms v) wrote
      ∙ ap (λ bs. bs ++ flatten (map frame_bytes ms)) fresh
      ∙ sym (append-nil (flatten (map frame_bytes ms))))
