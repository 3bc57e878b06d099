-- ===== src/Common/Fields.antt =====
-- `|` of a field that is shifted past the ones before it, in a word of any width.
use Prim.Native.Nat.{ℕ, zero, suc, ◌+◌, ◌-◌, ◌*◌, ◌/◌, ◌%◌, ◌^◌, ◌≤◌, ◌<◌, bit_or}
use mathlib.Core.Path.{◌≡◌, sym, ap, ◌∙◌}
use native.Mathlib.Nat.{
  pow-suc, one-le-pow, suc-add, zero-add, div-add-mod', mul-add-mod_self_right,
}
use native.Mathlib.Nat.{mod-eq_of_lt, mod-lt, add-mod-mod}
use native.Mathlib.Omega.{arith}
use distributed_kvstorage.Common.Bits.{or_shifted}

pub pow-add : (k s : ℕ) → 2 ^ (k + s) ≡ 2 ^ k * 2 ^ s
pow-add zero s = rw zero-add (omega arith)
pow-add (suc k) s =
    rw suc-add
      (omega (arith, pow-suc 2 (k + s), ap (λ (t : ℕ). t * 2 ^ s) (pow-suc 2 k), pow-add k s))

pub pow_pos : (k : ℕ) → 0 < 2 ^ k
pow_pos k = one-le-pow k 2 (omega arith)

field-lt : (y p q r : ℕ) → y < q → r < p → r + y * p < q * p
field-lt y p q r hy hr = grind arith

shifted-mod : (x p q : ℕ) → 0 < p → 0 < q → x * p % (q * p) ≡ x % q * p
shifted-mod x p q hp hq =
    ap (λ t. t % (q * p)) split
    ∙ mul-add-mod_self_right (x / q) (q * p) (x % q * p)
    ∙ mod-eq_of_lt (rw zero-add at (field-lt (x % q) p q 0 (mod-lt x hq) hp))
  where
    split : x * p ≡ x / q * (q * p) + x % q * p
    split = omega (arith, ap (λ (t : ℕ). t * p) (div-add-mod' x q))

module _ (p q r x : ℕ) (hp : 0 < p) (hq : 0 < q) (small : r < p) where
  -- Adding below the field does not carry into it.
  field-mod : (r + x * p) % (q * p) ≡ r + x % q * p
  field-mod =
      sym (add-mod-mod r (x * p) (q * p))
      ∙ ap (λ t. (r + t) % (q * p)) (shifted-mod x p q hp hq)
      ∙ mod-eq_of_lt (field-lt (x % q) p q r (mod-lt x hq) small)

-- `r | (x << s)` cut to `w` bits, where `r` fits below bit `s`.
pub or_field :
    (w s r x : ℕ) → s ≤ w → r < 2 ^ s → bit_or r (x * 2 ^ s % 2 ^ w) ≡ (r + x * 2 ^ s) % 2 ^ w
or_field w s r x h small = rw width (
    ap (bit_or r) (shifted-mod x (2 ^ s) (2 ^ (w - s)) (pow_pos s) (pow_pos (w - s)))
    ∙ or_shifted s (x % 2 ^ (w - s)) r small
    ∙ sym (field-mod (2 ^ s) (2 ^ (w - s)) r x (pow_pos s) (pow_pos (w - s)) small))
  where
    width : 2 ^ w ≡ 2 ^ (w - s) * 2 ^ s
    width = let e : w ≡ w - s + s = omega arith in ap (λ t. 2 ^ t) e ∙ pow-add (w - s) s
