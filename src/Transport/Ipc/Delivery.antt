-- ===== src/Transport/Ipc/Delivery.antt =====
-- What arrives of what was sent, through a buffer that keeps the newest frames.
use laic.Prelude.{
  ℕ, zero, suc, ◌+◌, ◌-◌, ◌≤◌, ◌<◌, ◌≡◌, refl, sym, ap, ◌∙◌, Option, none, some, Bool, true, false,
  List, [], ◌∷◌, ◌++◌, map, append_assoc, append-nil, Result, ok, err, panicked, done, length, drop,
  All, All-drop, ltb, and_then-eq-ok, arith, if◌then◌else◌,
}
use laic.Prelude
use mathlib.Core.Option
use laic.Prelude.Exec.{Exec, lift, ◌>>◌}
use laic.Protocol.Message.{Message}
use laic.Protocol.Message.Valid.{IsValid}
use laic.Transport.Shm.{ShmPort, ShmLaws, last}
use laic.Transport.Ipc.{IpcFrame, IpcConnection, max_ipc_payload_len, send, receive}
use laic.Transport.Ipc.Frame.{frame_of, make_frame_lem, open_frame-make_frame}
use laic.Transport.Ipc.Polling.{receive_loop_lem}
use laic.Error.{LaicError}

-- A valid message that fits a slot.
abbrev pub FitsSlot : Message → Type 0
FitsSlot m = IsValid m × (length m.payload ≤ max_ipc_payload_len)

pub fits-IsValid : (ms : List Message) → All FitsSlot ms → All IsValid ms
fits-IsValid [] h = tt
fits-IsValid (m ∷ ms) ((v, _), hs) = (v, fits-IsValid ms hs)

length-map : {A B : Type 0} (f : A → B) (xs : List A) → length (map f xs) ≡ length xs
length-map f [] = refl
length-map f (x ∷ xs) = ap suc (length-map f xs)

drop-map : {A B : Type 0} (f : A → B) (n : ℕ) (xs : List A) → drop n (map f xs) ≡ map f (drop n xs)
drop-map f zero xs = refl
drop-map f (suc n) [] = refl
drop-map f (suc n) (x ∷ xs) = drop-map f n xs

last-map : {A B : Type 0} (f : A → B) (n : ℕ) (xs : List A) → last n (map f xs) ≡ map f (last n xs)
last-map f n xs =
    ap (λ k. drop (k - n) (map f xs)) (length-map f xs) ∙ drop-map f (length xs - n) xs

module _ (b : ShmPort IpcFrame) (laws : ShmLaws b) where
  open b use {Publisher, Subscriber}
  open laws use {published, pending, loan_keeps, send_ok, receive_next}

  -- `send` on each message of a list, in order.
  unfoldable pub send_all : List Message → Exec (IpcConnection b) LaicError (Unit {0})
  send_all [] = lift done
  send_all (m ∷ ms) = send b m >> send_all ms

  -- A `send` that succeeds has published the frame of its message, and nothing else.
  pub send_lem :
      (m : Message) (c : IpcConnection b)
      → IsValid m
      → (send b m c).0 ≡ done
      → published (send b m c).1.publisher ≡ published c.publisher ++ frame_of m ∷ []
  unfolding send
  send_lem m c v e = ground (
    arith,
    make_frame_lem m v,
    loan_keeps c.publisher,
    send_ok (frame_of m) (b.loan_uninit c.publisher).1,
  )

  pub send_all_lem :
      (ms : List Message) (c : IpcConnection b)
      → All IsValid ms
      → (send_all ms c).0 ≡ done
      → published (send_all ms c).1.publisher ≡ published c.publisher ++ map frame_of ms
  unfolding send_all
  send_all_lem [] c v e = sym (append-nil (published c.publisher))
  send_all_lem (m ∷ ms) c (vm, vms) e =
      let (_, first, whole, rest) = and_then-eq-ok (send b m c) (λ _. send_all ms) e in
      ap (λ x. published (x.1).publisher) whole
      ∙ send_all_lem ms (send b m c).1 vms rest
      ∙ ap (λ fs. fs ++ map frame_of ms) (send_lem m c vm first)
      ∙ append_assoc (published c.publisher) (frame_of m ∷ []) (map frame_of ms)

  -- An open connection whose subscriber holds the frame of a message receives that message with
  -- one poll.
  pub receive_lem :
      (now : ℕ → ℕ) (env : Option ℕ) (fuel : ℕ) (m : Message) (rest : List IpcFrame)
      (c : IpcConnection b)
      → FitsSlot m
      → 0 < fuel
      → c.closed ≡ false
      → pending c.subscriber ≡ frame_of m ∷ rest
      → (c' : IpcConnection b) × (receive b now env fuel c ≡ some (ok m, c'))
        × (c'.closed ≡ false)
        × (pending c'.subscriber ≡ rest)
  unfolding receive
  receive_lem now env fuel m rest c (v, fits) some_fuel is_open holds =
      let (got, left) = receive_next c.subscriber (frame_of m) rest holds in
      (
        record c { subscriber = (b.receive c.subscriber).1 },
        rw
            (
              is_open,
              receive_loop_lem b zero fuel _ _ _ c.subscriber (frame_of m) some_fuel tt got,
              open_frame-make_frame m (frame_of m) v fits (make_frame_lem m v),
            )
            refl,
        is_open,
        left,
      )

  -- Puts the message of one `receive` before those of the next ones.
  abbrev pub collect :
      Option (Result Message LaicError × IpcConnection b)
      → (IpcConnection b → Option (Result (List Message) LaicError))
      → Option (Result (List Message) LaicError)
  collect none more = none
  collect (some (ok m, c)) more = Option.map (λ r. Prelude.◌>>=◌ r (λ ms. ok (m ∷ ms))) (more c)
  collect (some (err e, c)) more = some (err e)
  collect (some (panicked, c)) more = some panicked

  -- `receive` as often as told, each time with that many polls; `none` where one still waits.
  unfoldable pub receive_all :
      (ℕ → ℕ) → Option ℕ → ℕ → ℕ → IpcConnection b → Option (Result (List Message) LaicError)
  receive_all now env fuel zero c = some (ok [])
  receive_all now env fuel (suc n) c =
      collect (receive b now env fuel c) (receive_all now env fuel n)

  pub receive_all_lem :
      (now : ℕ → ℕ) (env : Option ℕ) (fuel : ℕ) (ms : List Message) (rest : List IpcFrame)
      (c : IpcConnection b)
      → All FitsSlot ms
      → 0 < fuel
      → c.closed ≡ false
      → pending c.subscriber ≡ map frame_of ms ++ rest
      → receive_all now env fuel (length ms) c ≡ some (ok ms)
  unfolding receive_all
  receive_all_lem now env fuel [] rest c v some_fuel is_open holds = refl
  receive_all_lem now env fuel (m ∷ ms) rest c (vm, vms) some_fuel is_open holds =
      let (c', got, is_open', left) =
        receive_lem now env fuel m (map frame_of ms ++ rest) c vm some_fuel is_open holds in
      ap (λ x. collect x (receive_all now env fuel (length ms))) got
      ∙ ap (Option.map (λ r. Prelude.◌>>=◌ r (λ ms'. ok (m ∷ ms'))))
          (receive_all_lem now env fuel ms rest c' vms some_fuel is_open' left)

  -- The publisher and the subscriber of one service that keeps the newest `depth` frames, and
  -- valid messages that fit a slot: when all sends on a new channel succeed before the first
  -- receive, an open receiver that polls at least once for each message gets exactly the last
  -- `depth` messages, in order, whatever its clock and its polling budget.
  pub receive_all-send_all :
      (depth : ℕ) (now : ℕ → ℕ) (env : Option ℕ) (fuel : ℕ) (ms : List Message)
      (sender receiver : IpcConnection b)
      → All FitsSlot ms
      → 0 < fuel
      → receiver.closed ≡ false
      → published sender.publisher ≡ []
      → (send_all ms sender).0 ≡ done
      → pending receiver.subscriber ≡ last depth (published (send_all ms sender).1.publisher)
      → receive_all now env fuel (length (last depth ms)) receiver ≡ some (ok (last depth ms))
  receive_all-send_all depth now env fuel ms sender receiver v some_fuel is_open new sent holds =
      receive_all_lem now env fuel (last depth ms) [] receiver (All-drop FitsSlot _ ms v) some_fuel
        is_open
        (holds
          ∙ ap (last depth) (
              send_all_lem ms sender (fits-IsValid ms v) sent
              ∙ ap (λ fs. fs ++ map frame_of ms) new)
          ∙ last-map frame_of depth ms
          ∙ sym (append-nil (map frame_of (last depth ms))))
