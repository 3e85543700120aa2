-- ===== src/Transport/Framing/RoundTrip.antt =====
-- Frames that are written are read back, one after the other.
use laic.Prelude.{
  ℕ, zero, suc, ◌+◌, ◌^◌, ◌≤◌, ◌<◌, ◌≡◌, refl, sym, ap, ◌∙◌, Bool, List, [], ◌∷◌, ◌++◌, map,
  append_assoc, append-nil, arith,
}
use mathlib.Core.List.{flatten}
use laic.Prelude
use laic.Prelude.Exec.{Exec, lift, ◌>>=◌, ◌>>◌}
use laic.Prelude.{
  and_then-eq-ok, Result, ok, err, panicked, done, length, length-append, replicate,
  length-replicate, take, drop, take-append, drop-append, All, ltb, le→ltb, ltb→le, Bool-cases, inl,
  inr, length-eq-zero,
}
use laic.Protocol.Header.{MessageHeader, InRange, encode, decode}
use laic.Protocol.Header.Layout.{layout, length-layout, check, encode_lem}
use laic.Protocol.Header.RoundTrip.{decode_layout}
use laic.Protocol.Message.{Message}
use laic.Protocol.Message.Valid.{IsValid, from_parts-into_parts}
use laic.Transport.Framing.{max_payload_len, write_frame, read_frame}
use laic.Transport.Framing.Stream.{AsyncWrite, AsyncRead, WriteLaws, ReadLaws}
use laic.Error.{LaicError}

-- What a message looks like on the wire: there is no length prefix.
abbrev pub frame_bytes : Message → List ℕ
frame_bytes m = layout m.header ++ m.payload

-- A valid header goes into a fresh buffer of 40 bytes as its layout.
pub encode-IsValid :
    (m : Message) → IsValid m → encode m.header (replicate 40 0) ≡ ok (layout m.header)
unfolding replicate
encode-IsValid m v =
    encode_lem m.header (replicate 40 0) (omega arith)
    ∙ ap (λ c. Prelude.◌>>◌ c (ok (layout m.header ++ []))) v.checked
    ∙ ap ok (append-nil (layout m.header))

-- A header that passes the checks is read back from its layout.
pub decode_layout_nil : (h : MessageHeader) → InRange h → check h ≡ done → decode (layout h) ≡ ok h
decode_layout_nil h range valid =
    ap decode (sym (append-nil (layout h)))
    ∙ decode_layout h [] range
    ∙ ap (λ c. Prelude.◌>>◌ c (ok h)) valid

-- A valid message that the framing layer accepts.
abbrev pub WithinLimit : Message → Type 0
WithinLimit m = IsValid m × (m.header.payload_len ≤ max_payload_len)

pub IsValid-within : (ms : List Message) → All WithinLimit ms → All IsValid ms
IsValid-within [] h = tt
IsValid-within (m ∷ ms) ((v, _), hs) = (v, IsValid-within ms hs)

module _ (w : AsyncWrite) where
  open w use {Writer}

  -- `write_frame` on each message of a list, in order.
  unfoldable pub write_frames : List Message → Exec Writer LaicError (Unit {0})
  write_frames [] = lift done
  write_frames (m ∷ ms) = write_frame w m >> write_frames ms

module _ (r : AsyncRead) where
  open r use {Reader}

  -- `read_frame` as often as told.
  unfoldable pub read_frames : ℕ → Exec Reader LaicError (List Message)
  read_frames zero = lift (ok [])
  read_frames (suc n) = do m ← read_frame r; ms ← read_frames n; lift (ok (m ∷ ms))

module _ (w : AsyncWrite) (laws : WriteLaws w) where
  open w use {Writer, write_all}
  open laws use {sent, write_ok}

  -- A call of `write_frame` that succeeds has appended the frame of its message.
  pub write_frame_lem :
      (m : Message) (s : Writer)
      → IsValid m
      → (write_frame w m s).0 ≡ done
      → sent (write_frame w m s).1 ≡ sent s ++ frame_bytes m
  unfolding write_frame
  write_frame_lem m s v e = ground (
    arith,
    encode-IsValid m v,
    write_ok (layout m.header) s,
    write_ok m.payload (write_all (layout m.header) s).1,
    append_assoc (sent s) (layout m.header) m.payload,
  )

  pub write_frames_lem :
      (ms : List Message) (s : Writer)
      → All IsValid ms
      → (write_frames w ms s).0 ≡ done
      → sent (write_frames w ms s).1 ≡ sent s ++ flatten (map frame_bytes ms)
  unfolding write_frames flatten
  write_frames_lem [] s v e = sym (append-nil (sent s))
  write_frames_lem (m ∷ ms) s (vm, vms) e =
      let (_, first, whole, rest) = and_then-eq-ok (write_frame w m s) (λ _. write_frames w ms) e in
      ap (λ x. sent (x.1)) whole
      ∙ write_frames_lem ms (write_frame w m s).1 vms rest
      ∙ ap (λ bs. bs ++ flatten (map frame_bytes ms)) (write_frame_lem m s vm first)
      ∙ append_assoc (sent s) (frame_bytes m) (flatten (map frame_bytes ms))

module _ (r : AsyncRead) (laws : ReadLaws r) where
  open r use {Reader, read_exact}
  open laws use {queued, read_enough}

  -- `read_exact` of as many bytes as a known prefix has.
  pub read_prefix :
      (pre rest : List ℕ) (s : Reader) (n : ℕ)
      → n ≡ length pre
      → queued s ≡ pre ++ rest
      → ((read_exact n s).0 ≡ ok pre) × (queued (read_exact n s).1 ≡ rest)
  read_prefix pre rest s n hn hq =
      let fits : n ≤ length (queued s) = rw (hq, length-append pre rest) (omega arith) in
      let (got, left) = read_enough n s fits in
      (got ∙ ap ok (rw (hq, hn) (take-append pre rest)), left ∙ rw (hq, hn) (drop-append pre rest))

  -- Where the stream holds the frame of a valid message within the limit, `read_frame` returns the
  -- message and leaves what follows the frame.
  pub read_frame_lem :
      (m : Message) (rest : List ℕ) (s : Reader)
      → IsValid m
      → m.header.payload_len ≤ max_payload_len
      → queued s ≡ frame_bytes m ++ rest
      → ((read_frame r s).0 ≡ ok m) × (queued (read_frame r s).1 ≡ rest)
  unfolding read_frame replicate
  read_frame_lem m rest s v small hq =
      let (h, left) =
        read_prefix (layout m.header) (m.payload ++ rest) s 40 (sym (length-layout m.header))
          (hq ∙ append_assoc (layout m.header) m.payload rest) in
      let (p, left') =
        read_prefix m.payload rest (read_exact 40 s).1 m.header.payload_len v.payload_len left in
      elim (Bool-cases (ltb 0 m.header.payload_len)) [
        | inl some_payload ↦
            rw
              (
                h,
                decode_layout_nil m.header v.in_range v.checked,
                le→ltb max_payload_len m.header.payload_len small,
                some_payload,
                p,
                from_parts-into_parts m v,
              )
              (refl, left')
        | inr no_payload ↦
            let none_left : m.header.payload_len ≡ 0 =
              omega (arith, ltb→le 0 m.header.payload_len no_payload) in
            let empty : m.payload ≡ [] = length-eq-zero m.payload (omega (arith, v.payload_len)) in
            rw
              (
                h,
                decode_layout_nil m.header v.in_range v.checked,
                le→ltb max_payload_len m.header.payload_len small,
                no_payload,
                ap (λ (n : ℕ). replicate n (zero)) none_left ∙ sym empty,
                from_parts-into_parts m v,
              )
              (refl, left ∙ ap (λ (bs : List ℕ). bs ++ rest) empty)
      ]

  pub read_frames_lem :
      (ms : List Message) (rest : List ℕ) (s : Reader)
      → All WithinLimit ms
      → queued s ≡ flatten (map frame_bytes ms) ++ rest
      → ((read_frames r (length ms) s).0 ≡ ok ms) × (queued (read_frames r (length ms) s).1 ≡ rest)
  unfolding read_frames flatten
  read_frames_lem [] rest s v hq = (refl, hq)
  read_frames_lem (m ∷ ms) rest s ((vm, small), vms) hq =
      let (got, left) =
        read_frame_lem m (flatten (map frame_bytes ms) ++ rest) s vm small
          (hq ∙ append_assoc (frame_bytes m) (flatten (map frame_bytes ms)) rest) in
      let (gots, lefts) = read_frames_lem ms rest (read_frame r s).1 vms left in
      rw (got, gots) (refl, lefts)
