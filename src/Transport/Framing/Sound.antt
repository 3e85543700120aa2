-- ===== src/Transport/Framing/Sound.antt =====
-- What an accepted frame must have been, whatever bytes arrive.
use laic.Prelude.{
  ℕ, zero, suc, ◌≤◌, ◌≡◌, refl, sym, ap, ◌∙◌, Bool, true, false, String, List, [], ◌++◌,
  append_assoc, append-nil, arith,
}
use laic.Prelude.{
  ok, err_if, and_then-eq-ok, map_err-eq-ok, ok-injective, length, length-take, length-drop, take,
  drop, take-append-drop, All, All-take, All-drop, ltb, if◌then◌else◌, replicate, length-eq-zero,
}
use laic.Prelude.Exec.{Exec, lift, map_error, ◌>>=◌, ◌>>◌}
use laic.Prelude.Bytes.{IsByte}
use laic.Prelude.Detail.{plain}
use laic.Protocol.Header.{MessageHeader, decode}
use laic.Protocol.Header.Layout.{layout}
use laic.Protocol.Header.RoundTrip.{decode-eq-ok}
use laic.Protocol.Message.{Message, from_parts}
use laic.Protocol.Message.Valid.{from_parts_iff}
use laic.Transport.Framing.{max_payload_len, exceeds_maximum, read_frame}
use laic.Transport.Framing.Stream.{AsyncRead, ReadLaws}
use laic.Transport.Framing.RoundTrip.{frame_bytes, WithinLimit}
use laic.Error.{LaicError, transport}
use laic.Error.Transport.{receive_failed}
use native.Mathlib.Decide.{dec_le}

ltb_positive : (n : ℕ) → ltb 0 (suc n) ≡ false → ⊥
ltb_positive n h = ground arith

within :
    (n : ℕ) (e : LaicError) {u : Unit {0}}
    → err_if (ltb max_payload_len n) e ≡ ok u
    → n ≤ max_payload_len
within n e h = ground arith

-- Forty bytes that are a layout, and then `n` bytes, make up what was taken from `q`.
frame_taken :
    (front hb p q q1 q2 : List ℕ) (n : ℕ)
    → 40 ≤ length q
    → hb ≡ take 40 q
    → q1 ≡ drop 40 q
    → front ++ drop 40 hb ≡ hb
    → p ≡ take n q1
    → q2 ≡ drop n q1
    → q ≡ (front ++ p) ++ q2
frame_taken front hb p q q1 q2 n fits hb_eq q1_eq same p_eq q2_eq =
    let forty : length hb ≡ 40 = rw hb_eq (length-take 40 q fits) in
    let empty : drop 40 hb ≡ [] =
      length-eq-zero (drop 40 hb) (omega (arith, forty, length-drop 40 hb)) in
    let front_eq : front ≡ hb = sym (append-nil front) ∙ ap (λ t. front ++ t) (sym empty) ∙ same in
    let rest : q1 ≡ p ++ q2 = sym (rw (p_eq, q2_eq) (take-append-drop n q1)) in
    sym (take-append-drop 40 q)
    ∙ ap (λ t. t ++ drop 40 q) (sym (front_eq ∙ hb_eq))
    ∙ ap (λ t. front ++ t) (sym q1_eq ∙ rest)
    ∙ sym (append_assoc front p q2)

module _ (r : AsyncRead) where
  open r use {Reader, read_exact}

  abbrev io_error : {A : Type 0} → Exec Reader String A → Exec Reader LaicError A
  io_error m = map_error (λ e. transport (receive_failed (plain e))) m

  -- `read_frame` in three stages: the header's bytes, the header, the payload.
  abbrev read_payload : MessageHeader → Exec Reader LaicError (List ℕ)
  read_payload h =
      if ltb 0 h.payload_len
      then io_error (read_exact h.payload_len)
      else lift (ok (replicate h.payload_len 0))

  abbrev after_header : MessageHeader → Exec Reader LaicError Message
  after_header h =
      lift (err_if (ltb max_payload_len h.payload_len) (exceeds_maximum h.payload_len))
      >> (read_payload h >>= λ payload. lift (from_parts h payload))

  abbrev after_bytes : List ℕ → Exec Reader LaicError Message
  after_bytes bs = lift (decode bs) >>= after_header

  read_frame_stages : (s : Reader) → read_frame r s ≡ (io_error (read_exact 40) >>= after_bytes) s
  unfolding read_frame
  read_frame_stages s = refl

  module _ (laws : ReadLaws r) where
    open laws use {queued, read_enough, read_short}

    -- Bytes that `read_exact` returned were the next ones.
    read_exact-eq-ok :
        (n : ℕ) (s : Reader) (bs : List ℕ)
        → (read_exact n s).0 ≡ ok bs
        → (n ≤ length (queued s))
          × (bs ≡ take n (queued s))
          × (queued (read_exact n s).1 ≡ drop n (queued s))
    read_exact-eq-ok n s bs e = elim (dec_le n (length (queued s))) [
      | yes fits ↦
          let (got, left) = read_enough n s fits in (fits, ok-injective (sym e ∙ got), left)
      | no short ↦ let (x, failed) = read_short n s (omega (arith, short)) in cc (failed, e)
    ]

    payload_at :
        (n : ℕ) (b : Bool) (s : Reader) (p : List ℕ)
        → ltb 0 n ≡ b
        → ((if b then io_error (read_exact n) else lift (ok (replicate n 0))) s).0 ≡ ok p
        → (p ≡ take n (queued s))
          × (queued ((if b then io_error (read_exact n) else lift (ok (replicate n 0))) s).1
              ≡ drop n (queued s))
    unfolding replicate
    payload_at n true s p h e =
        let (_, got, left) = read_exact-eq-ok n s p (map_err-eq-ok _ (read_exact n s).0 e) in
        (got, left)
    payload_at zero false s p h e = (sym (ok-injective e), refl)
    payload_at (suc n) false s p h e = absurd (ltb_positive n h)

    -- The payload is the next `payload_len` bytes, also if there are none to read.
    read_payload-eq-ok :
        (h : MessageHeader) (s : Reader) (p : List ℕ)
        → (read_payload h s).0 ≡ ok p
        → (p ≡ take h.payload_len (queued s))
          × (queued (read_payload h s).1 ≡ drop h.payload_len (queued s))
    read_payload-eq-ok h s p e = payload_at h.payload_len (ltb 0 h.payload_len) s p refl e

    -- Whatever bytes a stream holds, a message that `read_frame` accepts is valid and within the
    -- limit, and its frame is exactly what was taken off the stream.
    pub read_frame_sound :
        (m : Message) (s : Reader)
        → All IsByte (queued s)
        → (read_frame r s).0 ≡ ok m
        → WithinLimit m × (queued s ≡ frame_bytes m ++ queued (read_frame r s).1)
    read_frame_sound m s bytes e =
        let (hb, got, whole, e1) =
          and_then-eq-ok (io_error (read_exact 40) s) after_bytes
            (ap (λ x. x.0) (sym (read_frame_stages s)) ∙ e) in
        let s1 : Reader = (read_exact 40 s).1 in
        let (h, decoded, whole1, e2) = and_then-eq-ok (lift (decode hb) s1) after_header e1 in
        let (_, small, whole2, e3) =
          and_then-eq-ok
            (lift (err_if (ltb max_payload_len h.payload_len) (exceeds_maximum h.payload_len)) s1)
            (λ _. read_payload h >>= λ payload. lift (from_parts h payload)) e2 in
        let (p, got_payload, whole3, e4) =
          and_then-eq-ok (read_payload h s1) (λ payload. lift (from_parts h payload)) e3 in
        let (fits, hb_eq, left) =
          read_exact-eq-ok 40 s hb (map_err-eq-ok _ (read_exact 40 s).0 got) in
        let hb_bytes : All IsByte hb = rw hb_eq (All-take IsByte 40 (queued s) bytes) in
        let (range, checked, same) = decode-eq-ok h hb hb_bytes decoded in
        let (p_eq, left') = read_payload-eq-ok h s1 p got_payload in
        let p_bytes : All IsByte p =
          rw (p_eq, left) (All-take IsByte h.payload_len _ (All-drop IsByte 40 (queued s) bytes)) in
        let (m_eq, valid) = (from_parts_iff h p m range p_bytes).0 e4 in
        let small_h : h.payload_len ≤ max_payload_len = within h.payload_len _ small in
        let taken : queued s ≡ (layout h ++ p) ++ queued (read_payload h s1).1 =
          frame_taken (layout h) hb p (queued s) (queued s1) _ h.payload_len fits hb_eq left same
            p_eq left' in
        let ended : (read_frame r s).1 ≡ (read_payload h s1).1 =
          ap (λ x. x.1) (read_frame_stages s ∙ whole ∙ whole1 ∙ whole2 ∙ whole3) in
        (
          (valid, rw m_eq small_h),
          taken
              ∙ ap (λ bs. bs ++ queued (read_payload h s1).1) (ap frame_bytes (sym m_eq))
              ∙ ap (λ x. frame_bytes m ++ queued x) (sym ended),
        )
