-- ===== src/Prelude/Bits.antt =====
-- Bitwise operations on words as arithmetic: the libraries give only the recursion on binary digits
-- that `bit_and`, `bit_or` and `bit_xor` stand for. Single-bit flags, low masks, disjoint fields.
use Prim.Native.Nat.{ℕ, zero, suc, ◌+◌, ◌-◌, ◌*◌, ◌/◌, ◌%◌, ◌^◌, ◌≤◌, ◌<◌, min, max, differ}
use Prim.Native.Nat.{bit_and, bit_or, bit_xor, digits, bitwise}
use Prim.Native.Nat.{bit_and-bitwise, bit_or-bitwise, bit_xor-bitwise}
use mathlib.Core.Path.{◌≡◌, refl, ap}
use native.Mathlib.Omega.{arith}
use native.Mathlib.Nat.{le_refl, pow-suc}

-- The recursion on digits with its fuel dropped: one equation for the lowest digit.
module _ (z : ℕ → ℕ) (f : ℕ → ℕ → ℕ) where
  digits-eq_of_le : (k l x y : ℕ) → x ≤ k → x ≤ l → digits z f k x y ≡ digits z f l x y
  digits-eq_of_le zero zero x y hk hl = refl
  digits-eq_of_le zero (suc l) zero y hk hl = refl
  digits-eq_of_le zero (suc l) (suc x) y hk hl = absurd (omega arith)
  digits-eq_of_le (suc k) zero zero y hk hl = refl
  digits-eq_of_le (suc k) zero (suc x) y hk hl = absurd (omega arith)
  digits-eq_of_le (suc k) (suc l) zero y hk hl = refl
  digits-eq_of_le (suc k) (suc l) (suc x) y hk hl =
      omega (arith, digits-eq_of_le k l (suc x / 2) (y / 2) (omega arith) (omega arith))

  lowest_digit :
      (x y : ℕ)
      → bitwise z f (suc x) y ≡ bitwise z f (suc x / 2) (y / 2) * 2 + f (suc x % 2) (y % 2)
  lowest_digit x y =
      omega (arith, digits-eq_of_le x (suc x / 2) (suc x / 2) (y / 2) (omega arith) (le_refl _))

pub bit_and_step : (x y : ℕ) → bit_and x y ≡ bit_and (x / 2) (y / 2) * 2 + min (x % 2) (y % 2)
bit_and_step zero y = simp bit_and-bitwise (omega arith)
bit_and_step (suc x) y = simp bit_and-bitwise (lowest_digit (λ _. 0) min x y)

pub bit_or_step : (x y : ℕ) → bit_or x y ≡ bit_or (x / 2) (y / 2) * 2 + max (x % 2) (y % 2)
bit_or_step zero y = simp bit_or-bitwise (omega arith)
bit_or_step (suc x) y = simp bit_or-bitwise (lowest_digit (λ d. d) max x y)

pub bit_xor_step : (x y : ℕ) → bit_xor x y ≡ bit_xor (x / 2) (y / 2) * 2 + differ (x % 2) (y % 2)
bit_xor_step zero y = simp bit_xor-bitwise (omega arith)
bit_xor_step (suc x) y = simp bit_xor-bitwise (lowest_digit (λ d. d) differ x y)

-- The bound `n` on the word is the fuel of the induction from `x / 2` to `x`.
bit_and-zero_below : (n x : ℕ) → x ≤ n → bit_and x 0 ≡ 0
bit_and-zero_below n zero h = refl
bit_and-zero_below zero (suc x) h = absurd (omega arith)
bit_and-zero_below (suc n) (suc x) h =
    omega (arith, bit_and_step (suc x) 0, bit_and-zero_below n (suc x / 2) (omega arith))

bit_or-zero_below : (n x : ℕ) → x ≤ n → bit_or x 0 ≡ x
bit_or-zero_below n zero h = refl
bit_or-zero_below zero (suc x) h = absurd (omega arith)
bit_or-zero_below (suc n) (suc x) h =
    omega (arith, bit_or_step (suc x) 0, bit_or-zero_below n (suc x / 2) (omega arith))

pub bit_and-zero : (x : ℕ) → bit_and x 0 ≡ 0
bit_and-zero x = bit_and-zero_below x x (le_refl x)

pub bit_or-zero : (x : ℕ) → bit_or x 0 ≡ x
bit_or-zero x = bit_or-zero_below x x (le_refl x)

zero-bit_xor : (y : ℕ) → bit_xor 0 y ≡ y
zero-bit_xor y = bit_xor-bitwise 0 y

-- The mask of `k` low bits keeps a word that fits them.
pub bit_and_mask : (k x : ℕ) → x < 2 ^ k → bit_and x (2 ^ k - 1) ≡ x
bit_and_mask zero zero h = bit_and-zero 0
bit_and_mask zero (suc x) h = absurd (omega arith)
bit_and_mask (suc k) x h = omega (
  arith,
  bit_and_step x (2 ^ suc k - 1),
  pow-suc 2 k,
  bit_and_mask k (x / 2) (omega (arith, pow-suc 2 k)),
  ap (λ (t : ℕ). bit_and (x / 2) t) half,
)
  where
    half : (2 ^ suc k - 1) / 2 ≡ 2 ^ k - 1
    half = omega (arith, pow-suc 2 k)

-- The exclusive or of a word below `2 ^ k` with a multiple of `2 ^ k` is their sum.
pub bit_xor_fields : (k r q : ℕ) → r < 2 ^ k → bit_xor r (q * 2 ^ k) ≡ r + q * 2 ^ k
bit_xor_fields zero zero q h = omega (arith, zero-bit_xor (q * 2 ^ 0))
bit_xor_fields zero (suc r) q h = absurd (omega arith)
bit_xor_fields (suc k) r q h = omega (
  arith,
  bit_xor_step r (q * 2 ^ suc k),
  pow-suc 2 k,
  ap (λ (t : ℕ). q * t) (pow-suc 2 k),
  bit_xor_fields k (r / 2) q (omega (arith, pow-suc 2 k)),
  ap (λ (d : ℕ). differ (r % 2) d) even,
  differ-zero (r % 2),
  ap (λ (t : ℕ). bit_xor (r / 2) t) half,
)
  where
    even : q * 2 ^ suc k % 2 ≡ 0
    even = omega (arith, ap (λ (t : ℕ). q * t) (pow-suc 2 k))

    half : q * 2 ^ suc k / 2 ≡ q * 2 ^ k
    half = omega (arith, ap (λ (t : ℕ). q * t) (pow-suc 2 k))

    differ-zero : (d : ℕ) → differ d 0 ≡ d
    differ-zero zero = refl
    differ-zero (suc d) = refl

-- Bits 3 and 4: tested, set, and cleared in a 32-bit word.
pub bit_and_eight : (x : ℕ) → bit_and x 8 ≡ 8 * (x / 8 % 2)
bit_and_eight x = omega (
  arith,
  bit_and_step x 8,
  bit_and_step (x / 2) 4,
  bit_and_step (x / 2 / 2) 2,
  bit_and_step (x / 2 / 2 / 2) 1,
  bit_and-zero (x / 2 / 2 / 2 / 2),
)

pub bit_or_eight : (x : ℕ) → bit_or x 8 ≡ x + 8 * (1 - x / 8 % 2)
bit_or_eight x = omega (
  arith,
  bit_or_step x 8,
  bit_or_step (x / 2) 4,
  bit_or_step (x / 2 / 2) 2,
  bit_or_step (x / 2 / 2 / 2) 1,
  bit_or-zero (x / 2 / 2 / 2 / 2),
)

pub bit_and_clear_eight : (x : ℕ) → x < 2 ^ 32 → bit_and x (2 ^ 32 - 1 - 8) ≡ x - 8 * (x / 8 % 2)
bit_and_clear_eight x h = omega (
  arith,
  bit_and_step x (2 ^ 32 - 1 - 8),
  bit_and_step (x / 2) (2 ^ 31 - 1 - 4),
  bit_and_step (x / 2 / 2) (2 ^ 30 - 1 - 2),
  bit_and_step (x / 2 / 2 / 2) (2 ^ 29 - 1 - 1),
  bit_and_mask 28 (x / 2 / 2 / 2 / 2) (omega arith),
)

pub bit_and_sixteen : (x : ℕ) → bit_and x 16 ≡ 16 * (x / 16 % 2)
bit_and_sixteen x = omega (arith, bit_and_step x 16, bit_and_eight (x / 2))

pub bit_or_sixteen : (x : ℕ) → bit_or x 16 ≡ x + 16 * (1 - x / 16 % 2)
bit_or_sixteen x = omega (arith, bit_or_step x 16, bit_or_eight (x / 2))

pub bit_and_clear_sixteen :
    (x : ℕ) → x < 2 ^ 32 → bit_and x (2 ^ 32 - 1 - 16) ≡ x - 16 * (x / 16 % 2)
bit_and_clear_sixteen x h = omega (
  arith,
  bit_and_step x (2 ^ 32 - 1 - 16),
  bit_and_step (x / 2) (2 ^ 31 - 1 - 8),
  bit_and_step (x / 2 / 2) (2 ^ 30 - 1 - 4),
  bit_and_step (x / 2 / 2 / 2) (2 ^ 29 - 1 - 2),
  bit_and_step (x / 2 / 2 / 2 / 2) (2 ^ 28 - 1 - 1),
  bit_and_mask 27 (x / 2 / 2 / 2 / 2 / 2) (omega arith),
)
