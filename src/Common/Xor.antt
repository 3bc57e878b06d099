-- ===== src/Common/Xor.antt =====
-- `^` at variables: the fields of its result, and what it does not lose.
use Prim.Native.Nat.{ℕ, zero, suc, ◌+◌, ◌*◌, ◌/◌, ◌%◌, ◌^◌, ◌≤◌, ◌<◌}
use Prim.Native.Nat.{bit_xor, differ, bit_xor-bitwise}
use mathlib.Core.Path.{◌≡◌, refl, sym, ap, ◌∙◌}
use native.Mathlib.Nat.{
  pow-suc, one-le-pow, mod-lt, div-add-mod', add-mul-mod_self_right, add-mul-div_right,
  mod-eq_of_lt, div-eq_of_lt, zero-add,
}
use native.Mathlib.Omega.{arith}
use distributed_kvstorage.Common.Bits.{bitwise_halves, double_pow}

-- On binary digits.
differ_digits : (x y : ℕ) → x < 2 → y < 2 → differ x y ≡ (x + y) % 2
differ_digits zero y h k = omega arith
differ_digits (suc zero) zero h k = refl
differ_digits (suc zero) (suc zero) h k = refl
differ_digits (suc zero) (suc (suc y)) h k = absurd (omega arith)
differ_digits (suc (suc x)) y h k = absurd (omega arith)

xor_halves : (a b : ℕ) → bit_xor a b ≡ bit_xor (a / 2) (b / 2) * 2 + (a + b) % 2
xor_halves zero b = omega (arith, bit_xor-bitwise 0 b, bit_xor-bitwise 0 (b / 2))
xor_halves (suc a) b = omega (
  arith,
  bit_xor-bitwise (suc a) b,
  bit_xor-bitwise (suc a / 2) (b / 2),
  bitwise_halves (λ y. y) differ a b,
  differ_digits (suc a % 2) (b % 2) (omega arith) (omega arith),
)

zero_xor : (a : ℕ) → bit_xor 0 a ≡ a
zero_xor a = bit_xor-bitwise 0 a

xor_zero_fuel : (n a : ℕ) → a ≤ n → bit_xor a 0 ≡ a
xor_zero_fuel zero a h = let e : a ≡ 0 = omega arith in rw e
xor_zero_fuel (suc n) zero h = refl
xor_zero_fuel (suc n) (suc a) h =
    omega (arith, xor_halves (suc a) 0, xor_zero_fuel n (suc a / 2) (omega arith))

xor_zero : (a : ℕ) → bit_xor a 0 ≡ a
xor_zero a = xor_zero_fuel a a (omega arith)

-- The bits below `k` and those above are computed apart.
xor_fields :
    (k q r p s : ℕ)
    → r < 2 ^ k
    → s < 2 ^ k
    → bit_xor (r + q * 2 ^ k) (s + p * 2 ^ k) ≡ bit_xor r s + bit_xor q p * 2 ^ k
xor_fields zero q r p s hr hs =
    let e : r ≡ 0 = omega arith in
    let f : s ≡ 0 = omega arith in
    rw (e, f)
      (ap (λ t. bit_xor t (0 + p * 2 ^ 0)) (one q)
        ∙ ap (bit_xor q) (one p)
        ∙ sym (one (bit_xor q p)))
  where
    one : (u : ℕ) → 0 + u * 2 ^ 0 ≡ u
    one u = omega arith
xor_fields (suc k) q r p s hr hs =
    rw (double_pow q k, double_pow p k, double_pow (bit_xor q p) k)
      (omega (
        arith,
        xor_halves (r + q * 2 ^ k * 2) (s + p * 2 ^ k * 2),
        xor_halves r s,
        ap (λ t. bit_xor t ((s + p * 2 ^ k * 2) / 2)) (halved q r),
        ap (λ t. bit_xor (r / 2 + q * 2 ^ k) t) (halved p s),
        xor_fields k q (r / 2) p (s / 2) (omega (arith, pow-suc 2 k)) (omega (arith, pow-suc 2 k)),
      ))
  where
    halved : (u v : ℕ) → (v + u * 2 ^ k * 2) / 2 ≡ v / 2 + u * 2 ^ k
    halved u v = omega arith

pub xor-lt : (k a b : ℕ) → a < 2 ^ k → b < 2 ^ k → bit_xor a b < 2 ^ k
xor-lt zero a b ha hb =
    let e : a ≡ 0 = omega arith in let f : b ≡ 0 = omega arith in rw (e, f) (omega arith)
xor-lt (suc k) a b ha hb = omega (
  arith,
  xor_halves a b,
  pow-suc 2 k,
  xor-lt k (a / 2) (b / 2) (omega (arith, pow-suc 2 k)) (omega (arith, pow-suc 2 k)),
)

-- The second number known, the first one can be read off.
xor_cancel_fuel : (n a b c : ℕ) → a ≤ n → b ≤ n → bit_xor a c ≡ bit_xor b c → a ≡ b
xor_cancel_fuel zero a b c ha hb e = omega arith
xor_cancel_fuel (suc n) a b c ha hb e =
    let high : bit_xor (a / 2) (c / 2) ≡ bit_xor (b / 2) (c / 2) =
      omega (arith, xor_halves a c, xor_halves b c) in
    omega (
      arith,
      xor_halves a c,
      xor_halves b c,
      xor_cancel_fuel n (a / 2) (b / 2) (c / 2) (omega arith) (omega arith) high,
    )

pub xor_cancel : (a b c : ℕ) → bit_xor a c ≡ bit_xor b c → a ≡ b
xor_cancel a b c e = xor_cancel_fuel (a + b) a b c (omega arith) (omega arith) e

module _ (k a b : ℕ) where
  pos : 0 < 2 ^ k
  pos = one-le-pow k 2 (omega arith)

  split : (x : ℕ) → x ≡ x % 2 ^ k + x / 2 ^ k * 2 ^ k
  split x = omega (arith, div-add-mod' x (2 ^ k))

  low-lt : bit_xor (a % 2 ^ k) (b % 2 ^ k) < 2 ^ k
  low-lt = xor-lt k (a % 2 ^ k) (b % 2 ^ k) (mod-lt a pos) (mod-lt b pos)

  by_fields :
      bit_xor a b ≡ bit_xor (a % 2 ^ k) (b % 2 ^ k) + bit_xor (a / 2 ^ k) (b / 2 ^ k) * 2 ^ k
  by_fields =
      ap (λ t. bit_xor t b) (split a)
      ∙ ap (bit_xor (a % 2 ^ k + a / 2 ^ k * 2 ^ k)) (split b)
      ∙ xor_fields k (a / 2 ^ k) (a % 2 ^ k) (b / 2 ^ k) (b % 2 ^ k) (mod-lt a pos) (mod-lt b pos)

  pub xor-mod : bit_xor a b % 2 ^ k ≡ bit_xor (a % 2 ^ k) (b % 2 ^ k)
  xor-mod =
      ap (λ t. t % 2 ^ k) by_fields
      ∙ add-mul-mod_self_right (bit_xor (a % 2 ^ k) (b % 2 ^ k)) (bit_xor (a / 2 ^ k) (b / 2 ^ k))
          (2 ^ k)
      ∙ mod-eq_of_lt low-lt

  xor-div : bit_xor a b / 2 ^ k ≡ bit_xor (a / 2 ^ k) (b / 2 ^ k)
  xor-div =
      ap (λ t. t / 2 ^ k) by_fields
      ∙ add-mul-div_right (bit_xor (a % 2 ^ k) (b % 2 ^ k)) (bit_xor (a / 2 ^ k) (b / 2 ^ k)) pos
      ∙ ap (λ t. t + bit_xor (a / 2 ^ k) (b / 2 ^ k)) (div-eq_of_lt low-lt)
      ∙ zero-add (bit_xor (a / 2 ^ k) (b / 2 ^ k))

-- `a ^ (a >> k)` keeps the upper half of `a`, and with it all of `a`.
shift_high : (k a : ℕ) → a / 2 ^ k < 2 ^ k → bit_xor a (a / 2 ^ k) / 2 ^ k ≡ a / 2 ^ k
shift_high k a h =
    xor-div k a (a / 2 ^ k) ∙ ap (bit_xor (a / 2 ^ k)) (div-eq_of_lt h) ∙ xor_zero (a / 2 ^ k)

pub shift_injective :
    (k a b : ℕ)
    → a / 2 ^ k < 2 ^ k
    → b / 2 ^ k < 2 ^ k
    → bit_xor a (a / 2 ^ k) ≡ bit_xor b (b / 2 ^ k)
    → a ≡ b
shift_injective k a b ha hb e =
    let high : a / 2 ^ k ≡ b / 2 ^ k =
      sym (shift_high k a ha) ∙ ap (λ t. t / 2 ^ k) e ∙ shift_high k b hb in
    xor_cancel a b (b / 2 ^ k) (rw high at e)
