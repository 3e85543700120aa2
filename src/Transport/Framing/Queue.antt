-- ===== src/Transport/Framing/Queue.antt =====
-- A stream between two ends as a queue of messages: the frames behind it forgotten.
use laic.Prelude.{
  ℕ, ◌≡◌, refl, sym, ap, ◌∙◌, List, [], ◌∷◌, ◌++◌, append_assoc, append-nil, All, Result, ok, done,
  le→ltb,
}
use laic.Error.{LaicError}
use laic.Protocol.Header.Layout.{layout}
use laic.Protocol.Message.{Message}
use laic.Transport.Framing.{max_payload_len, write_frame, read_frame}
use laic.Transport.Framing.Stream.{buffer_write, buffer_read, buffer_read_laws}
use laic.Transport.Framing.RoundTrip.{frame_bytes, encode-IsValid, WithinLimit, read_frame_lem}

-- What the two ends do, and what they see of it.
pub data Event : Type 0 where
  send : Message → Event
  poll : Event

pub data Observation : Type 0 where
  accepted refused nothing : Observation
  received : Message → Observation

abbrev pub observe_write : Result (Unit {0}) LaicError → Observation
observe_write (ok _) = accepted
observe_write _ = refused

abbrev pub observe_read : Result Message LaicError → Observation
observe_read (ok m) = received m
observe_read _ = nothing

-- The implementation: frames on a buffer of bytes.
abbrev pub step_stream : Event → List ℕ → Observation × List ℕ
step_stream (send m) s = let (r, t) = write_frame buffer_write m s in (observe_write r, t)
step_stream poll s = let (r, t) = read_frame buffer_read s in (observe_read r, t)

-- The specification: a queue of messages.
abbrev pub step_queue : Event → List Message → Observation × List Message
step_queue (send m) q = (accepted, q ++ m ∷ [])
step_queue poll [] = (nothing, [])
step_queue poll (m ∷ q) = (received m, q)

-- A sequence of events, in whatever order the two ends come.
abbrev pub run {ℓ} :
    {S : Type ℓ} → (Event → S → Observation × S) → List Event → S → List Observation × S
run step [] s = ([], s)
run step (e ∷ es) s = let (o, t) = step e s in let (os, u) = run step es t in (o ∷ os, u)

-- The bytes that stand for a queue.
abbrev pub wire : List Message → List ℕ
wire [] = []
wire (m ∷ q) = frame_bytes m ++ wire q

abbrev pub IsSendable : Event → Type 0
IsSendable (send m) = WithinLimit m
IsSendable poll = Unit

wire-snoc : (q : List Message) (m : Message) → wire (q ++ m ∷ []) ≡ wire q ++ frame_bytes m
wire-snoc [] m = append-nil (frame_bytes m)
wire-snoc (n ∷ q) m =
    ap (λ bs. frame_bytes n ++ bs) (wire-snoc q m)
    ∙ sym (append_assoc (frame_bytes n) (wire q) (frame_bytes m))

All-snoc :
    (q : List Message) (m : Message)
    → All WithinLimit q
    → WithinLimit m
    → All WithinLimit (q ++ m ∷ [])
All-snoc [] m h w = (w, tt)
All-snoc (n ∷ q) m (hn, h) w = (hn, All-snoc q m h w)

write_lem :
    (m : Message) (s : List ℕ)
    → WithinLimit m
    → write_frame buffer_write m s ≡ (done, s ++ frame_bytes m)
unfolding write_frame
write_lem m s (v, small) =
    rw (encode-IsValid m v, le→ltb max_payload_len m.header.payload_len small)
      (ap (λ bs. (done, bs)) (append_assoc s (layout m.header) m.payload))

read_empty : step_stream poll [] ≡ (nothing, [])
unfolding read_frame
read_empty = refl

-- One event keeps the bytes those of the queue, and shows the same on both.
step_lem :
    (e : Event) (q : List Message)
    → IsSendable e
    → All WithinLimit q
    → (step_stream e (wire q) ≡ ((step_queue e q).0, wire (step_queue e q).1))
      × All WithinLimit (step_queue e q).1
step_lem (send m) q h hq = (rw (write_lem m (wire q) h, wire-snoc q m), All-snoc q m hq h)
step_lem poll [] h hq = (read_empty, tt)
step_lem poll (m ∷ q) h ((v, small), hq) =
    let (got, left) =
      read_frame_lem buffer_read buffer_read_laws m (wire q) (wire (m ∷ q)) v small refl in
    (rw (got, left), hq)

-- Valid messages within the limit, sent and read over a buffer in any order, behave as a queue of
-- messages: from the bytes of a queue, every event shows what it shows on the queue, and leaves the
-- bytes of the queue that it leaves.
pub run-queue :
    (es : List Event) (q : List Message)
    → All IsSendable es
    → All WithinLimit q
    → run step_stream es (wire q) ≡ ((run step_queue es q).0, wire (run step_queue es q).1)
run-queue [] q hs hq = refl
run-queue (e ∷ es) q (h, hs) hq =
    let (same, kept) = step_lem e q h hq in rw (same, run-queue es (step_queue e q).1 hs kept)
