-- ===== src/Transport/Ipc/Polling.antt =====
-- The receive loop.
use laic.Prelude.{
  ℕ, zero, suc, ◌+◌, ◌*◌, ◌<◌, ◌≡◌, refl, ap, ◌∙◌, Option, none, some, inl, inr, Result, ltb,
  if◌then◌else◌, Bool-cases, arith,
}
use laic.Protocol.Message.{Message}
use laic.Transport.Shm.{ShmPort, Poll, sample, empty, failed, Wait, yield_now, sleep}
use laic.Transport.Ipc.{IpcFrame, PollStats, idle, next, open_frame, receive_loop}
use laic.Error.{LaicError}

-- The wait after an empty poll: a yield before the deadline, and a sleep of 100 microseconds from
-- then on, or always without a deadline.
abbrev pub pause : Option ℕ → ℕ → Wait
pause none now = sleep 100
pause (some deadline) now = if ltb now deadline then yield_now else sleep 100

idle-pause :
    (now : ℕ → ℕ) (until : Option ℕ) (s : PollStats)
    → ((idle now until s).0 ≡ pause until (now (3 * s.empty_polls)))
      × ((idle now until s).1.empty_polls ≡ s.empty_polls + 1)
idle-pause now none s = (refl, refl)
idle-pause now (some deadline) s = elim (Bool-cases (ltb (now (3 * s.empty_polls)) deadline)) [
  | inl early ↦ rw early (refl, refl)
  | inr late ↦ rw late (refl, refl)
]

module _ (b : ShmPort IpcFrame) where
  open b use {Subscriber}

  -- The subscriber after the empty poll that `n` empty polls precede, and after the wait.
  abbrev pub waited : (ℕ → ℕ) → Option ℕ → ℕ → Subscriber → Subscriber
  waited now until n s = b.wait (pause until (now (3 * n))) (b.receive s).1

  -- The subscriber after `k` polls and waits, where `n` empty polls precede them.
  abbrev pub polls : (ℕ → ℕ) → Option ℕ → ℕ → ℕ → Subscriber → Subscriber
  polls now until n zero s = s
  polls now until n (suc k) s = polls now until (n + 1) k (waited now until n s)

  -- Those `k` polls are empty.
  abbrev pub Quiet : (ℕ → ℕ) → Option ℕ → ℕ → ℕ → Subscriber → Type 0
  Quiet now until n zero s = Unit
  Quiet now until n (suc k) s =
      ((b.receive s).0 ≡ empty) × Quiet now until (n + 1) k (waited now until n s)

  next-empty :
      (p : Poll IpcFrame × Subscriber) (later : Option (Result Message LaicError × Subscriber))
      → p.0 ≡ empty
      → next p later ≡ later
  next-empty (sample f, s) later h = cc
  next-empty (empty, s) later h = refl
  next-empty (failed e, s) later h = cc

  next-sample :
      (p : Poll IpcFrame × Subscriber) (later : Option (Result Message LaicError × Subscriber))
      (f : IpcFrame)
      → p.0 ≡ sample f
      → next p later ≡ some (open_frame f, p.1)
  next-sample (sample g, s) later f h = cc
  next-sample (empty, s) later f h = cc
  next-sample (failed e, s) later f h = cc

  receive_loop_from :
      (k fuel n : ℕ) (now : ℕ → ℕ) (until : Option ℕ) (stats : PollStats) (s : Subscriber)
      (f : IpcFrame)
      → stats.empty_polls ≡ n
      → k < fuel
      → Quiet now until n k s
      → (b.receive (polls now until n k s)).0 ≡ sample f
      → receive_loop b now until fuel stats s
        ≡ some (open_frame f, (b.receive (polls now until n k s)).1)
  unfolding receive_loop
  receive_loop_from k zero n now until stats s f counted enough quiet got = ground arith
  receive_loop_from zero (suc fuel) n now until stats s f counted enough quiet got =
      next-sample (b.receive s) _ f got
  receive_loop_from (suc k) (suc fuel) n now until stats s f counted enough (first, quiet) got =
      let (paused, next_count) = idle-pause now until stats in
      next-empty (b.receive s) _ first
      ∙ ap (λ w. receive_loop b now until fuel (idle now until stats).1 (b.wait w (b.receive s).1))
          (paused ∙ ap (λ i. pause until (now (3 * i))) counted)
      ∙ receive_loop_from k fuel (n + 1) now until (idle now until stats).1 (waited now until n s) f
          (next_count ∙ ap (λ i. i + 1) counted) (omega arith) quiet got

  -- After `k` empty polls, each followed by a yield while the clock is before the deadline and by a
  -- sleep of the poll interval otherwise, a poll with a frame ends the loop, whatever the clock, the
  -- deadline and the counters, as soon as there is fuel for `k + 1` polls: the result is that frame's
  -- message.
  pub receive_loop_lem :
      (k fuel : ℕ) (now : ℕ → ℕ) (until : Option ℕ) (stats : PollStats) (s : Subscriber)
      (f : IpcFrame)
      → k < fuel
      → Quiet now until stats.empty_polls k s
      → (b.receive (polls now until stats.empty_polls k s)).0 ≡ sample f
      → receive_loop b now until fuel stats s
        ≡ some (open_frame f, (b.receive (polls now until stats.empty_polls k s)).1)
  receive_loop_lem k fuel now until stats s f =
      receive_loop_from k fuel stats.empty_polls now until stats s f refl
