-- ===== src/Protocol/Header/RoundTrip.antt =====
-- `decode` against the layout, in both directions.
use laic.Prelude.{ℕ, ◌≤◌, ◌≡◌, refl, sym, ap, ◌∙◌, List, ◌++◌, arith}
use laic.Prelude.{
  Result, ok, err, panicked, done, ok-injective, bind-ok, ◌>>◌, length, length-append, length-drop,
  drop,
}
use mathlib.Core.Path.{subst}
use laic.Prelude.{◌↔◌, All, inl, inr, Bool-cases, ltb→le, ltb}
use laic.Prelude.Bytes.{IsByte, to_le_bytes, from_le_bytes, from_le_bytes-to_le_bytes}
use laic.Protocol.Header.{MessageHeader, InRange, encode, decode}
use laic.Protocol.Header.Layout.{layout, length-layout, check, encode_lem}
use laic.Protocol.Header.Decode.{decoded, decode_lem, layout-decoded, decoded-InRange}
use laic.Error.{LaicError}

-- Each word written and read again.
abbrev reread : MessageHeader → MessageHeader
reread h = record h {
  magic = from_le_bytes (to_le_bytes 4 h.magic);
  version = from_le_bytes (to_le_bytes 2 h.version);
  msg_type = from_le_bytes (to_le_bytes 2 h.msg_type);
  msg_id = from_le_bytes (to_le_bytes 8 h.msg_id);
  correlation_id = from_le_bytes (to_le_bytes 8 h.correlation_id);
  payload_len = from_le_bytes (to_le_bytes 4 h.payload_len);
  credit_grant = from_le_bytes (to_le_bytes 2 h.credit_grant);
  flags = from_le_bytes (to_le_bytes 4 h.flags);
}

reread_lem : (h : MessageHeader) → InRange h → reread h ≡ h
reread_lem h r = rw (
  from_le_bytes-to_le_bytes 4 h.magic r.magic,
  from_le_bytes-to_le_bytes 2 h.version r.version,
  from_le_bytes-to_le_bytes 2 h.msg_type r.msg_type,
  from_le_bytes-to_le_bytes 8 h.msg_id r.msg_id,
  from_le_bytes-to_le_bytes 8 h.correlation_id r.correlation_id,
  from_le_bytes-to_le_bytes 4 h.payload_len r.payload_len,
  from_le_bytes-to_le_bytes 2 h.credit_grant r.credit_grant,
  from_le_bytes-to_le_bytes 4 h.flags r.flags,
)

long_enough : (h : MessageHeader) (rest : List ℕ) → 40 ≤ length (layout h ++ rest)
long_enough h rest = rw length-append (omega (arith, length-layout h))

same_errors {ℓ κ μ} :
    {A : Type ℓ} {B : Type κ} {E : Type μ} (c : Result (Unit {0}) E) (a : A) (b : B) {e : E}
    → ((c >> ok a) ≡ err e) ↔ ((c >> ok b) ≡ err e)
same_errors (ok _) a b = (λ h. cc, λ h. cc)
same_errors (err _) a b = (λ h. cc, λ h. cc)
same_errors panicked a b = (λ h. cc, λ h. cc)

-- On a header's layout, whatever follows it, `decode` makes the checks of `encode` and gives the
-- header back.
pub decode_layout :
    (h : MessageHeader) (rest : List ℕ) → InRange h → decode (layout h ++ rest) ≡ (check h >> ok h)
unfolding layout
decode_layout h rest r =
    subst (λ x. decode (layout h ++ rest) ≡ (check x >> ok x)) (reread_lem h r)
      (decode_lem (layout h ++ rest) (long_enough h rest))

-- Neither direction succeeds on a buffer that is too short.
encode-fits : (h : MessageHeader) (buf out : List ℕ) → encode h buf ≡ ok out → 40 ≤ length buf
unfolding encode
encode-fits h buf out e = elim (Bool-cases (ltb (length buf) 40)) [
  | inl short ↦ cc (rw short at e)
  | inr fits ↦ ltb→le (length buf) 40 fits
]

decode-fits : (h : MessageHeader) (buf : List ℕ) → decode buf ≡ ok h → 40 ≤ length buf
unfolding decode
decode-fits h buf e = elim (Bool-cases (ltb (length buf) 40)) [
  | inl short ↦ cc (rw short at e)
  | inr fits ↦ ltb→le (length buf) 40 fits
]

-- For a header whose fields fit their types: when `encode` accepts it, `decode` reads the header
-- back from the buffer, and the buffer's length and what follows its first 40 bytes are as before.
pub decode-encode :
    (h : MessageHeader) (buf out : List ℕ)
    → InRange h
    → encode h buf ≡ ok out
    → (decode out ≡ ok h) × (length out ≡ length buf) × (drop 40 out ≡ drop 40 buf)
decode-encode h buf out r e =
    let fits : 40 ≤ length buf = encode-fits h buf out e in
    let (passed, checked, written) =
      bind-ok (check h) (λ _. ok (layout h ++ drop 40 buf)) (sym (encode_lem h buf fits) ∙ e) in
    subst (λ x. (decode x ≡ ok h) × (length x ≡ length buf) × (drop 40 x ≡ drop 40 buf))
      (ok-injective written)
      (
        decode_layout h (drop 40 buf) r ∙ ap (λ c. c >> ok h) checked,
        rw length-append (omega (arith, length-layout h, length-drop 40 buf)),
        unfold layout in refl,
      )

-- For a header whose fields fit their types, `encode` into a buffer of 40 bytes or more fails with
-- an error exactly when `decode` of the header's layout, whatever follows it, fails with that
-- error.
pub encode_decode_agree :
    (h : MessageHeader) (buf rest : List ℕ) (e : LaicError)
    → InRange h
    → 40 ≤ length buf
    → (encode h buf ≡ err e) ↔ (decode (layout h ++ rest) ≡ err e)
encode_decode_agree h buf rest e r fits =
    rw (encode_lem h buf fits, decode_layout h rest r) (same_errors (check h) _ _)

-- Bytes that decode are a layout: of a header in range that passes the checks.
pub decode-eq-ok :
    (h : MessageHeader) (buf : List ℕ)
    → All IsByte buf
    → decode buf ≡ ok h
    → InRange h × (check h ≡ done) × (layout h ++ drop 40 buf ≡ buf)
decode-eq-ok h buf bytes e =
    let fits : 40 ≤ length buf = decode-fits h buf e in
    let (passed, checked, read) =
      bind-ok (check (decoded buf)) (λ _. ok (decoded buf)) (sym (decode_lem buf fits) ∙ e) in
    subst (λ x. InRange x × (check x ≡ done) × (layout x ++ drop 40 buf ≡ buf)) (ok-injective read)
      (decoded-InRange buf bytes fits, checked, layout-decoded buf bytes fits)

-- Bytes that `decode` accepts are canonical: `encode` of the header over them changes nothing, and
-- the header's fields fit their types.
pub encode-decode :
    (h : MessageHeader) (buf : List ℕ)
    → All IsByte buf
    → decode buf ≡ ok h
    → (encode h buf ≡ ok buf) × InRange h
encode-decode h buf bytes e =
    let (range, checked, same) = decode-eq-ok h buf bytes e in
    (
      encode_lem h buf (decode-fits h buf e)
          ∙ ap (λ c. c >> ok (layout h ++ drop 40 buf)) checked
          ∙ ap ok same,
      range,
    )
