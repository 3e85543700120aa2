-- ===== src/Transport/Framing/Failing.antt =====
-- What is on the stream after a write that failed.
use laic.Prelude.{
  ℕ, ◌≡◌, ◌≢◌, refl, sym, ap, ◌∙◌, Bool-cases, inl, inr, ◌⊎◌, String, List, [], ◌++◌, append_assoc,
  append-nil, Result, ok, err, panicked, ltb,
}
use laic.Protocol.Header.Layout.{layout}
use laic.Protocol.Message.{Message}
use laic.Protocol.Message.Valid.{IsValid}
use laic.Transport.Framing.{max_payload_len, write_frame}
use laic.Transport.Framing.Stream.{AsyncWrite, WriteLaws}
use laic.Transport.Framing.RoundTrip.{frame_bytes, encode-IsValid}

-- A `write_all` that fails has written a prefix of its buffer.
abbrev pub FailsAfterPrefix : (w : AsyncWrite) → WriteLaws w → Type 0
FailsAfterPrefix w laws =
    (bs : List ℕ) (s : w.Writer) (e : String)
    → (w.write_all bs s).0 ≡ err e
    → (front : List ℕ) × (back : List ℕ) × (front ++ back ≡ bs)
      × (laws.sent (w.write_all bs s).1 ≡ laws.sent s ++ front)

-- What was sent between two states: the front of a list of bytes.
abbrev pub SentPrefix : (w : AsyncWrite) → WriteLaws w → List ℕ → w.Writer → w.Writer → Type 0
SentPrefix w laws bs s t =
    (front : List ℕ) × (back : List ℕ) × (front ++ back ≡ bs) × (laws.sent t ≡ laws.sent s ++ front)

Result-cases :
    {A E : Type 0} (r : Result A E)
    → ((a : A) × (r ≡ ok a)) ⊎ (((e : E) × (r ≡ err e)) ⊎ (r ≡ panicked))
Result-cases (ok a) = inl (a, refl)
Result-cases (err e) = inr (inl (e, refl))
Result-cases panicked = inr (inr refl)

module _ (w : AsyncWrite) (laws : WriteLaws w) (fails : FailsAfterPrefix w laws) where
  open w use {Writer, write_all}
  open laws use {sent, write_ok}

  -- Whatever becomes of a `write_frame` of a valid message, short of a panic of the writer, the
  -- stream holds what it held and a prefix of the message's frame: nothing else is ever sent.
  pub write_frame_prefix :
      (m : Message) (s : Writer)
      → IsValid m
      → ((bs : List ℕ) (t : Writer) → (write_all bs t).0 ≢ panicked)
      → SentPrefix w laws (frame_bytes m) s (write_frame w m s).1
  unfolding write_frame
  write_frame_prefix m s v no_panic = elim (Bool-cases (ltb max_payload_len m.header.payload_len)) [
    | inl large ↦ rw large ([], frame_bytes m, refl, sym (append-nil (sent s)))
    | inr small ↦ elim (Result-cases (write_all (layout m.header) s).0) [
      | inr (inr bad) ↦ absurd (no_panic (layout m.header) s bad)
      | inr (inl (e, failed)) ↦
          let (front, back, whole, got) = fails (layout m.header) s e failed in
          rw (small, encode-IsValid m v, failed)
            (
              front,
              back ++ m.payload,
              sym (append_assoc front back m.payload) ∙ ap (λ t. t ++ m.payload) whole,
              got,
            )
      | inl (u, first) ↦
          elim (Result-cases (write_all m.payload (write_all (layout m.header) s).1).0) [
            | inr (inr bad) ↦ absurd (no_panic m.payload (write_all (layout m.header) s).1 bad)
            | inr (inl (e, failed)) ↦
                let (front, back, whole, got) =
                  fails m.payload (write_all (layout m.header) s).1 e failed in
                rw (small, encode-IsValid m v, first, failed)
                  (
                    layout m.header ++ front,
                    back,
                    append_assoc (layout m.header) front back
                        ∙ ap (λ t. layout m.header ++ t) whole,
                    got
                        ∙ ap (λ t. t ++ front) (write_ok (layout m.header) s first)
                        ∙ append_assoc (sent s) (layout m.header) front,
                  )
            | inl (u', second) ↦
                rw (small, encode-IsValid m v, first, second)
                  (
                    frame_bytes m,
                    [],
                    append-nil (frame_bytes m),
                    write_ok m.payload (write_all (layout m.header) s).1 second
                        ∙ ap (λ t. t ++ m.payload) (write_ok (layout m.header) s first)
                        ∙ append_assoc (sent s) (layout m.header) m.payload,
                  )
          ]
    ]
  ]
