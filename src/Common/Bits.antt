-- ===== src/Common/Bits.antt =====
-- `&`, `|` and `^` at variables, in plain arithmetic.
use Prim.Native.Nat.{ℕ, zero, suc, ◌+◌, ◌*◌, ◌/◌, ◌%◌, ◌^◌, ◌≤◌, ◌<◌, ◌-◌, min, max}
use Prim.Native.Nat.{bit_and, bit_or, digits, bitwise, bit_and-bitwise, bit_or-bitwise}
use mathlib.Core.Path.{◌≡◌, refl, sym, ap, ◌∙◌}
use native.Mathlib.Decide.{dec_le}
use native.Mathlib.Nat.{pow-suc, one-le-pow}
use native.Mathlib.Omega.{arith}

-- The native operations count down from their first number. The count does not matter, once it
-- is large enough.
module _ (z : ℕ → ℕ) (f : ℕ → ℕ → ℕ) where
  digits_one_more : (n a b : ℕ) → a ≤ n → digits z f (suc n) a b ≡ digits z f n a b
  digits_one_more zero zero b h = refl
  digits_one_more zero (suc a) b h = absurd (omega arith)
  digits_one_more (suc n) zero b h = refl
  digits_one_more (suc n) (suc a) b h =
      omega (arith, digits_one_more n (suc a / 2) (b / 2) (omega arith))

  digits_enough : (n a b : ℕ) → a ≤ n → digits z f n a b ≡ bitwise z f a b
  digits_enough zero zero b h = refl
  digits_enough zero (suc a) b h = absurd (omega arith)
  digits_enough (suc n) a b h = elim (dec_le a n) [
    | yes le ↦ digits_one_more n a b le ∙ digits_enough n a b le
    | no gt ↦ let e : a ≡ suc n = omega arith in ap (λ k. digits z f k a b) (sym e)
  ]

  pub bitwise_halves :
      (a b : ℕ)
      → bitwise z f (suc a) b ≡ bitwise z f (suc a / 2) (b / 2) * 2 + f (suc a % 2) (b % 2)
  bitwise_halves a b = omega (arith, digits_enough a (suc a / 2) (b / 2) (omega arith))

-- One binary digit at a time, for every pair of numbers.
bit_or_halves : (a b : ℕ) → bit_or a b ≡ bit_or (a / 2) (b / 2) * 2 + max (a % 2) (b % 2)
bit_or_halves zero b = omega (arith, bit_or-bitwise 0 b, bit_or-bitwise 0 (b / 2))
bit_or_halves (suc a) b = omega (
  arith,
  bit_or-bitwise (suc a) b,
  bit_or-bitwise (suc a / 2) (b / 2),
  bitwise_halves (λ y. y) max a b,
)

bit_and_halves : (a b : ℕ) → bit_and a b ≡ bit_and (a / 2) (b / 2) * 2 + min (a % 2) (b % 2)
bit_and_halves zero b = omega (arith, bit_and-bitwise 0 b, bit_and-bitwise 0 (b / 2))
bit_and_halves (suc a) b = omega (
  arith,
  bit_and-bitwise (suc a) b,
  bit_and-bitwise (suc a / 2) (b / 2),
  bitwise_halves (λ y. 0) min a b,
)

-- The lowest digit of the second number known.
or_even : (a m : ℕ) → bit_or a (m * 2) ≡ bit_or (a / 2) m * 2 + a % 2
or_even a m = ground (arith, bit_or_halves a (m * 2), same)
  where
    same : m * 2 / 2 ≡ m
    same = omega arith

or_odd : (a m : ℕ) → bit_or a (m * 2 + 1) % 2 ≡ 1
or_odd a m = omega (arith, bit_or_halves a (m * 2 + 1))

and_even : (a m : ℕ) → bit_and a (m * 2) ≡ bit_and (a / 2) m * 2
and_even a m = ground (arith, bit_and_halves a (m * 2), same)
  where
    same : m * 2 / 2 ≡ m
    same = omega arith

and_odd : (a m : ℕ) → bit_and a (m * 2 + 1) ≡ bit_and (a / 2) m * 2 + a % 2
and_odd a m = ground (arith, bit_and_halves a (m * 2 + 1), same)
  where
    same : (m * 2 + 1) / 2 ≡ m
    same = omega arith

and_zero_fuel : (n a : ℕ) → a ≤ n → bit_and a 0 ≡ 0
and_zero_fuel zero a h = let e : a ≡ 0 = omega arith in ap (λ k. bit_and k 0) e
and_zero_fuel (suc n) zero h = refl
and_zero_fuel (suc n) (suc a) h =
    omega (arith, and_even (suc a) 0, and_zero_fuel n (suc a / 2) (omega arith))

and_zero : (a : ℕ) → bit_and a 0 ≡ 0
and_zero a = and_zero_fuel a a (omega arith)

pub double_pow : (q k : ℕ) → q * 2 ^ suc k ≡ q * 2 ^ k * 2
double_pow q k = rw pow-suc (omega arith)

-- `r | (q << k)` is a sum when `r` fits below bit `k`.
pub or_shifted : (k q r : ℕ) → r < 2 ^ k → bit_or r (q * 2 ^ k) ≡ r + q * 2 ^ k
or_shifted zero q r h =
    let e : r ≡ 0 = omega arith in rw e (omega (arith, bit_or-bitwise 0 (q * 1)))
or_shifted (suc k) q r h = rw (double_pow q k) (
    omega (
      arith,
      or_even r (q * 2 ^ k),
      pow-suc 2 k,
      or_shifted k q (r / 2) (omega (arith, pow-suc 2 k)),
    ))

and_low : (k q r : ℕ) → r < 2 ^ k → bit_and (r + q * 2 ^ k) (2 ^ k - 1) ≡ r
and_low zero q r h = rw and_zero (omega arith)
and_low (suc k) q r h =
    rw (double_pow q k, ones)
      (omega (
        arith,
        and_odd (r + q * 2 ^ k * 2) (2 ^ k - 1),
        ap (λ t. bit_and t (2 ^ k - 1)) halved,
        and_low k q (r / 2) (omega (arith, pow-suc 2 k)),
      ))
  where
    ones : 2 ^ suc k - 1 ≡ (2 ^ k - 1) * 2 + 1
    ones = omega (arith, pow-suc 2 k, one-le-pow k 2)

    halved : (r + q * 2 ^ k * 2) / 2 ≡ r / 2 + q * 2 ^ k
    halved = omega arith

-- A mask of `k` low ones is the remainder by `2 ^ k`.
pub and_mask : (k a : ℕ) → bit_and a (2 ^ k - 1) ≡ a % 2 ^ k
and_mask k a = ground (arith, one-le-pow k 2, and_low k (a / 2 ^ k) (a % 2 ^ k))

or_zero_fuel : (n a : ℕ) → a ≤ n → bit_or a 0 ≡ a
or_zero_fuel zero a h = let e : a ≡ 0 = omega arith in rw e
or_zero_fuel (suc n) zero h = refl
or_zero_fuel (suc n) (suc a) h =
    omega (arith, or_even (suc a) 0, or_zero_fuel n (suc a / 2) (omega arith))

or_comm_fuel : (n a b : ℕ) → a ≤ n → bit_or a b ≡ bit_or b a
or_comm_fuel n zero b h = omega (arith, bit_or-bitwise 0 b, or_zero_fuel b b (omega arith))
or_comm_fuel zero (suc a) b h = absurd (omega arith)
or_comm_fuel (suc n) (suc a) b h = omega (
  arith,
  bit_or_halves (suc a) b,
  bit_or_halves b (suc a),
  or_comm_fuel n (suc a / 2) (b / 2) (omega arith),
)

-- `(q << k) | r`, the field on the left.
pub shifted_or : (k q r : ℕ) → r < 2 ^ k → bit_or (q * 2 ^ k) r ≡ q * 2 ^ k + r
shifted_or k q r h =
    omega (arith, or_comm_fuel (q * 2 ^ k) (q * 2 ^ k) r (omega arith), or_shifted k q r h)

-- Setting bit 7 and keeping a byte.
pub set_flag : (v : ℕ) → bit_or v 128 % 2 ^ 8 ≡ v % 128 + 128
set_flag v = omega (
  arith,
  or_even v 64,
  or_even (v / 2) 32,
  or_even (v / 2 / 2) 16,
  or_even (v / 2 / 2 / 2) 8,
  or_even (v / 2 / 2 / 2 / 2) 4,
  or_even (v / 2 / 2 / 2 / 2 / 2) 2,
  or_even (v / 2 / 2 / 2 / 2 / 2 / 2) 1,
  or_odd (v / 2 / 2 / 2 / 2 / 2 / 2 / 2) 0,
)

-- Bit 7 on its own.
pub and_flag : (b : ℕ) → b < 256 → bit_and b 128 ≡ b / 128 * 128
and_flag b h = omega (
  arith,
  and_even b 64,
  and_even (b / 2) 32,
  and_even (b / 2 / 2) 16,
  and_even (b / 2 / 2 / 2) 8,
  and_even (b / 2 / 2 / 2 / 2) 4,
  and_even (b / 2 / 2 / 2 / 2 / 2) 2,
  and_even (b / 2 / 2 / 2 / 2 / 2 / 2) 1,
  and_odd (b / 2 / 2 / 2 / 2 / 2 / 2 / 2) 0,
  and_zero (b / 2 / 2 / 2 / 2 / 2 / 2 / 2 / 2),
)
