-- ===== src/Protocol/Header/Decode.antt =====
-- What `decode` reads from a buffer: each field from its own slice, and the slices make up the
-- first 40 bytes.
use mathlib.Core.List.{flatten}
use laic.Prelude.{ℕ, suc, ◌+◌, ◌^◌, ◌≤◌, ◌<◌, ◌≡◌, ap, ◌∙◌, sym, not, List, [], ◌∷◌, ◌++◌, arith}
use laic.Prelude.{ok, ◌>>◌, map_err, err_if, ◌==◌, length, length-append, drop}
use laic.Prelude.{le→ltb, slice, All}
use laic.Prelude.{
  append_assoc, All-take, All-drop, slice-suc, length-slice, slice-append-drop, get_or-All,
}
use mathlib.Core.Path.{subst}
use laic.Prelude.Bytes.{
  IsByte, to_le_bytes, from_le_bytes, to_le_bytes-from_le_bytes, from_le_bytes-lt,
}
use laic.Protocol.Constants
use laic.Protocol.PayloadFormat
use laic.Protocol.Qos
use laic.Protocol.Header.{MessageHeader, InRange, at, decode}
use laic.Protocol.Header.Layout.{fields, layout, check, after_checks}
use laic.Error.{protocol}
use laic.Error.Protocol.{invalid_magic, unsupported_version}

abbrev pub decoded : List ℕ → MessageHeader
decoded buf = record {
  magic = from_le_bytes (slice 0 4 buf);
  version = from_le_bytes (slice 4 2 buf);
  msg_type = from_le_bytes (slice 6 2 buf);
  msg_id = from_le_bytes (slice 8 8 buf);
  correlation_id = from_le_bytes (slice 16 8 buf);
  payload_len = from_le_bytes (slice 24 4 buf);
  payload_format = at buf 28;
  qos = at buf 29;
  credit_grant = from_le_bytes (slice 30 2 buf);
  flags = from_le_bytes (slice 32 4 buf);
  reserved = (at buf 36, at buf 37, at buf 38, at buf 39);
}

pub decode_lem :
    (buf : List ℕ) → 40 ≤ length buf → decode buf ≡ (check (decoded buf) >> ok (decoded buf))
unfolding decode check
decode_lem buf fits =
    let h : MessageHeader = decoded buf in
    rw (le→ltb (length buf) 40 fits) (
      after_checks (err_if (not (h.magic == Constants.magic)) (protocol (invalid_magic h.magic)))
        (err_if (not (h.version == Constants.version)) (protocol (unsupported_version h.version)))
        (map_err protocol (PayloadFormat.from_u8 h.payload_format))
        (map_err protocol (Qos.from_u8 h.qos)) (ok h))

module _ (buf : List ℕ) where
  -- Consecutive pieces of `buf` from `off` on.
  abbrev Pieces : ℕ → List (List ℕ) → Type 0
  Pieces off [] = Unit
  Pieces off (f ∷ fs) = (f ≡ slice off (length f) buf) × Pieces (off + length f) fs

  flatten-Pieces :
      (off : ℕ) (fs : List (List ℕ))
      → Pieces off fs
      → flatten fs ++ drop (off + length (flatten fs)) buf ≡ drop off buf
  unfolding flatten
  flatten-Pieces off [] h = ap (λ (k : ℕ). drop k buf) (omega arith)
  flatten-Pieces off (f ∷ fs) (hf, hfs) =
      append_assoc f (flatten fs) (drop (off + length (f ++ flatten fs)) buf)
      ∙ ap (λ (k : ℕ). f ++ (flatten fs ++ drop k buf))
          (omega (arith, length-append f (flatten fs)))
      ∙ ap (λ (t : List ℕ). f ++ t) (flatten-Pieces (off + length f) fs hfs)
      ∙ ap (λ (t : List ℕ). t ++ drop (off + length f) buf) hf
      ∙ slice-append-drop off (length f) buf

  word :
      (off n : ℕ)
      → All IsByte buf
      → off + n ≤ length buf
      → to_le_bytes n (from_le_bytes (slice off n buf)) ≡ slice off n buf
  word off n bytes fits =
      subst (λ k. to_le_bytes k (from_le_bytes (slice off n buf)) ≡ slice off n buf)
        (length-slice off n buf fits)
        (to_le_bytes-from_le_bytes (slice off n buf)
          (All-take IsByte n _ (All-drop IsByte off buf bytes)))

  word_lt :
      (off n : ℕ)
      → All IsByte buf
      → off + n ≤ length buf
      → from_le_bytes (slice off n buf) < 256 ^ n
  word_lt off n bytes fits =
      subst (λ k. from_le_bytes (slice off n buf) < 256 ^ k) (length-slice off n buf fits)
        (from_le_bytes-lt (slice off n buf) (All-take IsByte n _ (All-drop IsByte off buf bytes)))

  byte : (i : ℕ) → i < length buf → at buf i ∷ [] ≡ slice i 1 buf
  byte i h = sym (slice-suc i 0 buf 0 h)

  four_bytes :
      (i : ℕ)
      → i + 4 ≤ length buf
      → at buf i ∷ at buf (suc i) ∷ at buf (suc (suc i)) ∷ at buf (suc (suc (suc i))) ∷ []
        ≡ slice i 4 buf
  four_bytes i h = rw (
    slice-suc i 3 buf 0 (omega arith),
    slice-suc (suc i) 2 buf 0 (omega arith),
    slice-suc (suc (suc i)) 1 buf 0 (omega arith),
    slice-suc (suc (suc (suc i))) 0 buf 0 (omega arith),
  )

  module _ (bytes : All IsByte buf) (fits : 40 ≤ length buf) where
    decoded-Pieces : Pieces 0 (fields (decoded buf))
    decoded-Pieces = (
      word 0 4 bytes (omega arith),
      (
        word 4 2 bytes (omega arith),
        (
          word 6 2 bytes (omega arith),
          (
            word 8 8 bytes (omega arith),
            (
              word 16 8 bytes (omega arith),
              (
                word 24 4 bytes (omega arith),
                (
                  byte 28 (omega arith),
                  (
                    byte 29 (omega arith),
                    (
                      word 30 2 bytes (omega arith),
                      (word 32 4 bytes (omega arith), (four_bytes 36 (omega arith), tt)),
                    ),
                  ),
                ),
              ),
            ),
          ),
        ),
      ),
    )

    -- The layout of what was read, in front of the rest, is the buffer.
    pub layout-decoded : layout (decoded buf) ++ drop 40 buf ≡ buf
    unfolding layout
    layout-decoded = flatten-Pieces 0 (fields (decoded buf)) decoded-Pieces

    pub decoded-InRange : InRange (decoded buf)
    decoded-InRange = record {
      magic = word_lt 0 4 bytes (omega arith);
      version = word_lt 4 2 bytes (omega arith);
      msg_type = word_lt 6 2 bytes (omega arith);
      msg_id = word_lt 8 8 bytes (omega arith);
      correlation_id = word_lt 16 8 bytes (omega arith);
      payload_len = word_lt 24 4 bytes (omega arith);
      payload_format = get_or-All IsByte buf 28 0 (omega arith) bytes;
      qos = get_or-All IsByte buf 29 0 (omega arith) bytes;
      credit_grant = word_lt 30 2 bytes (omega arith);
      flags = word_lt 32 4 bytes (omega arith);
    }
