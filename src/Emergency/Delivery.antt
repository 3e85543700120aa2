-- ===== src/Emergency/Delivery.antt =====
-- From one end of the emergency channel to the other.
use laic.Prelude.{
  ℕ, zero, suc, ◌+◌, ◌%◌, ◌^◌, ◌≤◌, ◌<◌, ◌≡◌, refl, ap, ◌∙◌, false, Option, some, List, [], ◌∷◌,
  ◌++◌, replicate, length, drop, Result, ok, err, done, le→ltb, lt→ltb, take-append, arith,
}
use laic.Prelude.Detail.{text, dec}
use laic.Transport.Shm.{ShmPort, ShmLaws, Poll, sample, empty, failed, sleep}
use laic.Emergency.{
  EmergencyFrame, EmergencyChannel, max_emergency_payload_len, make_frame, open_frame, next, send,
  receive, receive_loop, close,
}
use laic.Error.{LaicError, transport}
use laic.Error.Transport.{framing_error, shutting_down}

-- Bytes that fit the slot are read back from their frame, without the slot's zeros after them.
pub open_frame-make_frame :
    (payload : List ℕ)
    → length payload ≤ max_emergency_payload_len
    → open_frame (make_frame payload) ≡ ok payload
unfolding open_frame
open_frame-make_frame payload fits =
    let len : length payload % 2 ^ 32 ≡ length payload = omega arith in
    rw (len, le→ltb max_emergency_payload_len (length payload) fits)
      (ap ok
        (take-append payload (drop (0 + length payload) (replicate max_emergency_payload_len 0))))

-- A frame whose length field is too large, whoever wrote it, is refused; no byte is read.
pub open_frame_corrupt :
    (f : EmergencyFrame)
    → max_emergency_payload_len < f.len
    → open_frame f
      ≡ err (
          transport (
            framing_error (
              text "emergency frame len "
              ∷ dec f.len
              ∷ text " exceeds capacity "
              ∷ dec max_emergency_payload_len
              ∷ [])))
unfolding open_frame
open_frame_corrupt f large = rw (lt→ltb max_emergency_payload_len f.len large) refl

module _ (b : ShmPort EmergencyFrame) where
  open b use {Subscriber}

  -- The subscriber after `k` polls with a sleep of 50 microseconds after each.
  abbrev pub polls : ℕ → Subscriber → Subscriber
  polls zero s = s
  polls (suc k) s = polls k (b.wait (sleep 50) (b.receive s).1)

  -- The first `k` polls are empty.
  abbrev pub Quiet : ℕ → Subscriber → Type 0
  Quiet zero s = Unit
  Quiet (suc k) s = ((b.receive s).0 ≡ empty) × Quiet k (b.wait (sleep 50) (b.receive s).1)

  next-empty :
      (p : Poll EmergencyFrame × Subscriber)
      (later : Option (Result (List ℕ) LaicError × Subscriber))
      → p.0 ≡ empty
      → next p later ≡ later
  next-empty (sample f, s) later h = cc
  next-empty (empty, s) later h = refl
  next-empty (failed e, s) later h = cc

  next-sample :
      (p : Poll EmergencyFrame × Subscriber)
      (later : Option (Result (List ℕ) LaicError × Subscriber)) (f : EmergencyFrame)
      → p.0 ≡ sample f
      → next p later ≡ some (open_frame f, p.1)
  next-sample (sample g, s) later f h = cc
  next-sample (empty, s) later f h = cc
  next-sample (failed e, s) later f h = cc

  -- After `k` empty polls and the sleep after each a poll with a frame ends the loop with what that frame holds, given fuel
  -- for `k + 1` polls.
  pub receive_loop_lem :
      (k fuel : ℕ) (s : Subscriber) (f : EmergencyFrame)
      → k < fuel
      → Quiet k s
      → (b.receive (polls k s)).0 ≡ sample f
      → receive_loop b fuel s ≡ some (open_frame f, (b.receive (polls k s)).1)
  unfolding receive_loop
  receive_loop_lem k zero s f enough quiet got = ground arith
  receive_loop_lem zero (suc fuel) s f enough quiet got = next-sample (b.receive s) _ f got
  receive_loop_lem (suc k) (suc fuel) s f enough (first, quiet) got =
      next-empty (b.receive s) _ first
      ∙ receive_loop_lem k fuel (b.wait (sleep 50) (b.receive s).1) f (omega arith) quiet got

  -- A closed channel sends and receives nothing more.
  pub close_final :
      (payload : List ℕ) (fuel : ℕ) (c : EmergencyChannel b)
      → (send b payload (close b c).1 ≡ (err (transport shutting_down), (close b c).1))
        × (receive b fuel (close b c).1 ≡ some (err (transport shutting_down), (close b c).1))
  unfolding send receive close
  close_final payload fuel c = (refl, refl)

module _ (b : ShmPort EmergencyFrame) (laws : ShmLaws b) where
  open laws use {published, pending, loan_keeps, send_ok, receive_next}

  -- A send that succeeds has published one frame, and where that frame is the oldest in the buffer
  -- of an open receiver, one poll gets the same bytes from it, whatever their number up to 168.
  pub receive-send :
      (payload : List ℕ) (rest : List EmergencyFrame) (fuel : ℕ)
      (sender receiver : EmergencyChannel b)
      → length payload ≤ max_emergency_payload_len
      → 0 < fuel
      → receiver.closed ≡ false
      → (send b payload sender).0 ≡ done
      → pending receiver.subscriber ≡ make_frame payload ∷ rest
      → (published (send b payload sender).1.publisher
          ≡ published sender.publisher ++ make_frame payload ∷ [])
        × (receiver' : EmergencyChannel b) × (receive b fuel receiver
            ≡ some (ok payload, receiver'))
        × (pending receiver'.subscriber ≡ rest)
  unfolding send receive
  receive-send payload rest fuel sender receiver fits some_fuel is_open sent holds =
      let (got, left) = receive_next receiver.subscriber (make_frame payload) rest holds in
      (
        ground (
          arith,
          loan_keeps sender.publisher,
          send_ok (make_frame payload) (b.loan_uninit sender.publisher).1,
        ),
        record receiver { subscriber = (b.receive receiver.subscriber).1 },
        rw
            (
              is_open,
              receive_loop_lem b zero fuel receiver.subscriber (make_frame payload) some_fuel tt
                  got,
              open_frame-make_frame payload fits,
            )
            refl,
        left,
      )
