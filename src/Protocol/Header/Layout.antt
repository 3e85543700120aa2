-- ===== src/Protocol/Header/Layout.antt =====
-- The wire layout of header.rs: the table at `MessageHeader`, and the fields that both directions
-- check before anything else is looked at.
use mathlib.Core.List.{flatten}
use laic.Prelude.{ℕ, ◌≤◌, ◌≡◌, refl, not, List, [], ◌∷◌, ◌++◌}
use laic.Prelude.{
  Result, ok, err, panicked, done, ◌>>◌, map_err, err_if, ◌==◌, length, drop, le→ltb,
}
use laic.Prelude.Bytes.{to_le_bytes}
use laic.Protocol.Constants
use laic.Protocol.PayloadFormat
use laic.Protocol.Qos
use laic.Protocol.Header.{MessageHeader, reserved_bytes, encode}
use laic.Protocol.Header.Writes.{write_all, write_all-append}
use laic.Error.{LaicError, protocol}
use laic.Error.Protocol.{invalid_magic, unsupported_version}

abbrev pub fields : MessageHeader → List (List ℕ)
fields h =
    to_le_bytes 4 h.magic
    ∷ to_le_bytes 2 h.version
    ∷ to_le_bytes 2 h.msg_type
    ∷ to_le_bytes 8 h.msg_id
    ∷ to_le_bytes 8 h.correlation_id
    ∷ to_le_bytes 4 h.payload_len
    ∷ (h.payload_format ∷ [])
    ∷ (h.qos ∷ [])
    ∷ to_le_bytes 2 h.credit_grant
    ∷ to_le_bytes 4 h.flags
    ∷ reserved_bytes h.reserved
    ∷ []

-- The 40 bytes of a header.
unfoldable pub layout : MessageHeader → List ℕ
unfolding flatten
layout h = flatten (fields h)

-- The checks on the closed-set fields, in the order of the source.
unfoldable pub check : MessageHeader → Result (Unit {0}) LaicError
check h = do
  err_if (not (h.magic == Constants.magic)) (protocol (invalid_magic h.magic))
  err_if (not (h.version == Constants.version)) (protocol (unsupported_version h.version))
  map_err protocol (PayloadFormat.from_u8 h.payload_format)
  map_err protocol (Qos.from_u8 h.qos)
  done

pub length-layout : (h : MessageHeader) → length (layout h) ≡ 40
unfolding layout
length-layout h = refl

written : (h : MessageHeader) (buf : List ℕ) → write_all 0 (fields h) buf ≡ layout h ++ drop 40 buf
unfolding layout
written h buf = write_all-append (fields h) [] buf

-- Four checks in a row, and then a result.
pub after_checks {ℓ κ μ ν} :
    {U : Type ℓ} {V : Type κ} {A : Type μ} {E : Type ν} (a b : Result (Unit {0}) E) (c : Result U E)
    (d : Result V E) (r : Result A E)
    → (a >> (b >> (c >> (d >> r)))) ≡ ((a >> (b >> (c >> (d >> done)))) >> r)
after_checks (ok _) (ok _) (ok _) (ok _) r = refl
after_checks (ok _) (ok _) (ok _) (err _) r = refl
after_checks (ok _) (ok _) (ok _) panicked r = refl
after_checks (ok _) (ok _) (err _) d r = refl
after_checks (ok _) (ok _) panicked d r = refl
after_checks (ok _) (err _) c d r = refl
after_checks (ok _) panicked c d r = refl
after_checks (err _) b c d r = refl
after_checks panicked b c d r = refl

-- Into any buffer of 40 bytes or more, `encode` writes the layout over the first 40 bytes and
-- keeps the rest, exactly when the checks pass; otherwise it returns the first failing check.
pub encode_lem :
    (h : MessageHeader) (buf : List ℕ)
    → 40 ≤ length buf
    → encode h buf ≡ (check h >> ok (layout h ++ drop 40 buf))
unfolding encode check layout
encode_lem h buf fits =
    rw (le→ltb (length buf) 40 fits, ← written h buf)
      (after_checks (err_if (not (h.magic == Constants.magic)) (protocol (invalid_magic h.magic)))
        (err_if (not (h.version == Constants.version)) (protocol (unsupported_version h.version)))
        (map_err protocol (PayloadFormat.from_u8 h.payload_format))
        (map_err protocol (Qos.from_u8 h.qos)) (ok (write_all 0 (fields h) buf)))
