-- ===== src/Handshake/Tokens.antt =====
-- The tokens of one process are all different.
use mathlib.Core.List.{reverse, reverse-reverse}
use laic.Prelude.{
  ℕ, zero, suc, ◌+◌, ◌*◌, ◌%◌, ◌^◌, ◌≡◌, ◌≢◌, ◌<◌, sym, ap, ◌∙◌, bit_xor, ok-injective, arith,
}
use laic.Prelude.Bytes.{to_le_bytes, from_le_bytes, from_le_bytes-to_le_bytes}
use laic.Prelude.Bits.{bit_xor_fields}
use laic.Transport.Quic.{Quinn}
use laic.Handshake.Run.{Peer, next_handshake_token}
use laic.Handshake.Session.{token}

to_le_bytes-injective :
    (n x y : ℕ) → x < 256 ^ n → y < 256 ^ n → to_le_bytes n x ≡ to_le_bytes n y → x ≡ y
to_le_bytes-injective n x y hx hy e =
    sym (from_le_bytes-to_le_bytes n x hx) ∙ ap from_le_bytes e ∙ from_le_bytes-to_le_bytes n y hy

-- Tokens are equal only when both the clock's readings and the counters are, if these fit 64 bits.
pub token-injective :
    (a b c d : ℕ)
    → a < 2 ^ 64
    → b < 2 ^ 64
    → c < 2 ^ 64
    → d < 2 ^ 64
    → token a c ≡ token b d
    → (a ≡ b) × (c ≡ d)
unfolding token
token-injective a b c d ha hb hc hd e =
    let xor_ac = bit_xor_fields 64 a c ha in
    let xor_bd = bit_xor_fields 64 b d hb in
    let bytes : to_le_bytes 16 (bit_xor a (c * 2 ^ 64)) ≡ to_le_bytes 16 (bit_xor b (d * 2 ^ 64)) =
      sym (reverse-reverse _) ∙ ap reverse e ∙ reverse-reverse _ in
    let words : bit_xor a (c * 2 ^ 64) ≡ bit_xor b (d * 2 ^ 64) =
      to_le_bytes-injective 16 _ _ (omega (arith, xor_ac)) (omega (arith, xor_bd)) bytes in
    omega (arith, xor_ac, xor_bd, words)

module _ (q : Quinn) (nanos : ℕ → ℕ) where
  -- The process after `k` more tokens.
  abbrev pub after : ℕ → Peer q → Peer q
  after zero p = p
  after (suc k) p = (next_handshake_token q nanos (after k p)).1

  after-counter :
      (k : ℕ) (p : Peer q)
      → p.handshake_counter < 2 ^ 64
      → (after k p).handshake_counter ≡ (p.handshake_counter + k) % 2 ^ 64
  after-counter zero p h = omega arith
  after-counter (suc k) p h = omega (arith, after-counter k p h)

  -- As long as the clock's nanoseconds fit 64 bits, no two of 2 ^ 64 tokens drawn one after the
  -- other by a process are the same, whatever the clock shows.
  pub next_handshake_token-fresh :
      (i j : ℕ) (p : Peer q)
      → ((c : ℕ) → nanos c < 2 ^ 64)
      → p.handshake_counter < 2 ^ 64
      → i < j
      → j < i + 2 ^ 64
      → (next_handshake_token q nanos (after i p)).0 ≢ (next_handshake_token q nanos (after j p)).0
  next_handshake_token-fresh i j p clock h lower upper same =
      let ci = after-counter i p h in
      let cj = after-counter j p h in
      let (_, counters) =
        token-injective _ _ (after i p).handshake_counter (after j p).handshake_counter
          (clock (after i p).handshake_counter) (clock (after j p).handshake_counter)
          (omega (arith, ci)) (omega (arith, cj)) (ok-injective same) in
      omega (arith, ci, cj, counters)
