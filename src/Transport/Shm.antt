-- ===== src/Transport/Shm.antt =====
-- What ipc.rs and emergency.rs use of iceoryx2: a publisher that lends a slot and sends it, and a
-- subscriber that is polled. `ShmLaws` is the documented behaviour that the proofs rely on.
use laic.Prelude.{ℕ, ◌-◌, ◌≡◌, refl, String, List, [], ◌∷◌, ◌++◌, done, length, drop}
use laic.Prelude.Exec.{Exec}

pub data LoanError : Type 0 where
  exceeds_max_loans : LoanError
  other : String → LoanError

-- `Result<Option<Sample>, ReceiveError>` of a non-blocking `receive`.
pub data Poll (Frame : Type 0) : Type 0 where
  sample : Frame → Poll Frame
  empty : Poll Frame
  failed : String → Poll Frame

-- How a receive loop waits between two polls: it yields to other threads and tasks, or sleeps for a
-- number of microseconds.
pub data Wait : Type 0 where
  yield_now : Wait
  sleep : ℕ → Wait

-- `wait` is what becomes of a subscriber during a wait, in which other processes may publish.
pub record ShmPort (Frame : Type 0) : Type 1 where
  pub Publisher : Type 0
  pub Subscriber : Type 0
  pub loan_uninit : Exec Publisher LoanError (Unit {0})
  pub send : Frame → Exec Publisher String (Unit {0})
  pub receive : Subscriber → Poll Frame × Subscriber
  pub wait : Wait → Subscriber → Subscriber

-- The last `n` elements of a list.
abbrev pub last {ℓ} : {A : Type ℓ} → ℕ → List A → List A
last n xs = drop (length xs - n) xs

-- A subscriber hands out what it holds, the oldest first. A successful send adds the frame to what
-- the publisher has published; a loan publishes nothing.
pub record ShmLaws {Frame : Type 0} (b : ShmPort Frame) : Type 1 where
  pub published : b.Publisher → List Frame
  pub pending : b.Subscriber → List Frame
  pub loan_keeps : (p : b.Publisher) → published (b.loan_uninit p).1 ≡ published p
  pub send_ok :
      (f : Frame) (p : b.Publisher)
      → (b.send f p).0 ≡ done
      → published (b.send f p).1 ≡ published p ++ f ∷ []
  pub receive_next :
      (s : b.Subscriber) (f : Frame) (rest : List Frame)
      → pending s ≡ f ∷ rest
      → ((b.receive s).0 ≡ sample f) × (pending (b.receive s).1 ≡ rest)

-- Both sides as lists.
abbrev pub list_receive : {Frame : Type 0} → List Frame → Poll Frame × List Frame
list_receive [] = (empty, [])
list_receive (f ∷ rest) = (sample f, rest)

abbrev pub list_shm : (Frame : Type 0) → ShmPort Frame
list_shm Frame = record {
  Publisher = List Frame;
  Subscriber = List Frame;
  loan_uninit = λ p. (done, p);
  send = λ f p. (done, p ++ f ∷ []);
  receive = list_receive;
  wait = λ _ s. s;
}

pub list_receive_next :
    {Frame : Type 0} (s : List Frame) (f : Frame) (rest : List Frame)
    → s ≡ f ∷ rest
    → ((list_receive s).0 ≡ sample f) × ((list_receive s).1 ≡ rest)
list_receive_next s f rest e = rw e (refl, refl)

abbrev pub list_shm_laws : (Frame : Type 0) → ShmLaws (list_shm Frame)
list_shm_laws Frame = record {
  published = λ p. p;
  pending = λ s. s;
  loan_keeps = λ p. refl;
  send_ok = λ f p h. refl;
  receive_next = list_receive_next;
}
