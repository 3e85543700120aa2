-- ===== src/Examples/Streams.antt =====
-- The framing theorems on buffers in memory.
use laic.Prelude.{ℕ, ◌≡◌, refl, List, [], ◌∷◌, ◌++◌, All, String, ok, err, done, arith}
use laic.Prelude.Bytes.{IsByte}
use laic.Prelude.Detail.{plain}
use laic.Protocol.Header.{MessageHeader}
use laic.Protocol.Header.Layout.{layout, check}
use laic.Protocol.PayloadFormat
use laic.Protocol.Qos
use laic.Protocol.Message.{Message}
use laic.Transport.Framing.{exceeds_maximum, write_frame, read_frame}
use laic.Transport.Framing.Stream.{buffer_write, buffer_write_laws, buffer_read, buffer_read_laws}
use laic.Transport.Framing.RoundTrip.{
  frame_bytes, WithinLimit, encode-IsValid, write_frames, read_frames, read_frame_lem,
}
use laic.Prelude.{
  ◌≢◌, leb, take, drop, take-append-drop, Result, panicked, if◌then◌else◌, length, ◌-◌,
}
use laic.Transport.Framing.Stream.{AsyncWrite, WriteLaws}
use laic.Transport.Framing.Queue.{
  Event, send, poll, accepted, received, nothing, run, step_stream, run-queue,
}
use laic.Transport.Framing.Failing.{FailsAfterPrefix, SentPrefix, write_frame_prefix}
use laic.Transport.Framing.Delivery.{read_frames-write_frames}
use laic.Transport.Framing.Sound.{read_frame_sound}
use laic.Transport.Framing.Reject.{read_frame_oversized, read_frame_truncated_payload}
use laic.Error.{transport}
use laic.Error.Transport.{receive_failed}
use laic.Examples.Sample.{sample, sample-IsValid, request, request-IsValid}

abbrev both : List Message
both = sample ∷ request ∷ []

both-WithinLimit : All WithinLimit both
both-WithinLimit = ((sample-IsValid, omega arith), ((request-IsValid, omega arith), tt))

both_written : (write_frames buffer_write both []).0 ≡ done
unfolding write_frames write_frame
both_written =
    rw (encode-IsValid sample sample-IsValid, encode-IsValid request request-IsValid) refl

abbrev sent : List ℕ
sent = (write_frames buffer_write both []).1

read_frames-write_frames_example :
    ((read_frames buffer_read 2 sent).0 ≡ ok both) × ((read_frames buffer_read 2 sent).1 ≡ [])
read_frames-write_frames_example =
    read_frames-write_frames buffer_write buffer_write_laws buffer_read buffer_read_laws both []
      sent both-WithinLimit refl both_written refl

abbrev arrived : List ℕ
arrived = frame_bytes sample ++ 9 ∷ []

arrived-IsByte : All IsByte arrived
unfolding layout
arrived-IsByte = ground arith

arrived_read : (read_frame buffer_read arrived).0 ≡ ok sample
arrived_read =
    (read_frame_lem buffer_read buffer_read_laws sample (9 ∷ []) arrived sample-IsValid
      (omega arith) refl).0

read_frame_sound_example :
    WithinLimit sample × (arrived ≡ frame_bytes sample ++ (read_frame buffer_read arrived).1)
read_frame_sound_example =
    read_frame_sound buffer_read buffer_read_laws sample arrived arrived-IsByte arrived_read

-- A header that announces 64 MiB and one byte.
abbrev huge : MessageHeader
huge = record (sample.header) { payload_len = 67108865 }

huge-check : check huge ≡ done
unfolding check PayloadFormat.from_u8 Qos.from_u8
huge-check = refl

read_frame_oversized_example :
    ((read_frame buffer_read (layout huge ++ 1 ∷ [])).0 ≡ err (exceeds_maximum 67108865))
    × ((read_frame buffer_read (layout huge ++ 1 ∷ [])).1 ≡ 1 ∷ [])
read_frame_oversized_example =
    read_frame_oversized buffer_read buffer_read_laws huge (1 ∷ []) (layout huge ++ 1 ∷ [])
      (omega arith) huge-check (omega arith) refl

read_frame_truncated_payload_example :
    (e : String) × ((read_frame buffer_read (layout sample.header ++ 7 ∷ [])).0
      ≡ err (transport (receive_failed (plain e))))
read_frame_truncated_payload_example =
    read_frame_truncated_payload buffer_read buffer_read_laws sample (7 ∷ [])
      (layout sample.header ++ 7 ∷ []) sample-IsValid (omega arith) (omega arith) refl

-- A buffer with room for 41 bytes, the header of a frame and one byte of its payload.
abbrev small_write_all : List ℕ → List ℕ → Result (Unit {0}) String × List ℕ
small_write_all bs s =
    if leb (length (s ++ bs)) 41
    then (done, s ++ bs)
    else (err "buffer full", s ++ take (41 - length s) bs)

abbrev small_write : AsyncWrite
small_write = record { Writer = List ℕ; write_all = small_write_all }

small_write_ok :
    (bs s : List ℕ) → (small_write_all bs s).0 ≡ done → (small_write_all bs s).1 ≡ s ++ bs
small_write_ok bs s h = ground arith

abbrev small_write_laws : WriteLaws small_write
small_write_laws = record { sent = λ s. s; write_ok = small_write_ok }

small_write-FailsAfterPrefix : FailsAfterPrefix small_write small_write_laws
small_write-FailsAfterPrefix bs s e h = (
  take (41 - length s) bs,
  drop (41 - length s) bs,
  take-append-drop (41 - length s) bs,
  ground arith,
)

small_write-no_panic : (bs s : List ℕ) → (small_write_all bs s).0 ≢ panicked
small_write-no_panic bs s h = ground arith

write_frame_prefix_example :
    SentPrefix small_write small_write_laws
      (frame_bytes sample)
      []
      (write_frame small_write sample []).1
write_frame_prefix_example =
    write_frame_prefix small_write small_write_laws small_write-FailsAfterPrefix sample []
      sample-IsValid small_write-no_panic

-- Two messages sent, three reads, the last on an empty stream.
abbrev events : List Event
events = send sample ∷ poll ∷ send request ∷ poll ∷ poll ∷ []

run-queue_example :
    run step_stream events []
    ≡ (accepted ∷ received sample ∷ accepted ∷ received request ∷ nothing ∷ [], [])
run-queue_example =
    run-queue events []
      ((sample-IsValid, omega arith), (tt, ((request-IsValid, omega arith), (tt, (tt, tt))))) tt
