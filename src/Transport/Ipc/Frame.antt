-- ===== src/Transport/Ipc/Frame.antt =====
-- A message survives its frame in shared memory.
use laic.Prelude.{
  ℕ, ◌+◌, ◌≤◌, ◌≡◌, refl, sym, ap, ◌∙◌, List, ◌++◌, replicate, take, length, write_at, Result, ok,
  err, done, ltb, le→ltb, take-append, length-replicate, arith,
}
use laic.Prelude
use laic.Protocol.Message.{Message}
use laic.Protocol.Message.Valid.{IsValid, from_parts-into_parts}
use laic.Protocol.Header.Layout.{layout}
use laic.Transport.Framing.RoundTrip.{encode-IsValid, decode_layout_nil}
use laic.Transport.Ipc.{IpcFrame, max_ipc_payload_len, make_frame, open_frame}

-- The frame of a valid message: its layout, and its payload over zeros.
abbrev pub frame_of : Message → IpcFrame
frame_of m = record {
  header = layout m.header;
  payload = write_at 0 m.payload (replicate max_ipc_payload_len 0);
}

pub make_frame_lem : (m : Message) → IsValid m → make_frame m ≡ ok (frame_of m)
unfolding make_frame
make_frame_lem m v = rw (encode-IsValid m v) refl

take-slot : (p rest : List ℕ) → take (length p) (write_at 0 p rest) ≡ p
take-slot p rest = take-append p (Prelude.drop (0 + length p) rest)

-- A valid message that fits the slot is read back from its frame: what is left of the slot's
-- 64 KiB is not part of the payload.
pub open_frame-make_frame :
    (m : Message) (f : IpcFrame)
    → IsValid m
    → length m.payload ≤ max_ipc_payload_len
    → make_frame m ≡ ok f
    → open_frame f ≡ ok m
unfolding open_frame
open_frame-make_frame m f v fits made =
    let same : f ≡ frame_of m = Prelude.ok-injective (sym made ∙ make_frame_lem m v) in
    ap open_frame same
    ∙ rw
        (
          decode_layout_nil m.header v.in_range v.checked,
          le→ltb max_ipc_payload_len m.header.payload_len (omega (arith, v.payload_len)),
          ap (λ n. take n (frame_of m).payload) v.payload_len
              ∙ take-slot m.payload (replicate max_ipc_payload_len 0),
        )
        (from_parts-into_parts m v)
