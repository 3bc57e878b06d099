-- ===== src/Hash/Groups.antt =====
-- One group of bytes that src/util/hash.cc mixes in is settled by the hash.
use distributed_kvstorage.Common.{
  ℕ, ◌+◌, ◌/◌, ◌^◌, ◌≤◌, ◌<◌, ◌≡◌, refl, ◌∙◌, sym, ap, List, [], ◌∷◌, ◌++◌, append-nil, length, All,
  IsByte, IsU32, arith, min,
}
use distributed_kvstorage.Coding.Bytes.{little_endian}
use distributed_kvstorage.Coding.Fixed.{
  from_little_endian, from_little_endian-lt, little_endian-from,
}
use distributed_kvstorage.Hash.Mix.{
  mix, mix_all, wide_word, wide_rest, mix-IsU32, mix_number, mix_all_injective,
}
use native.Mathlib.Nat.{pow-le-pow_right}
use native.Mathlib.Decide.{dec_le}

from_little_endian_injective :
    (p q : List ℕ)
    → All IsByte p
    → All IsByte q
    → length p ≡ length q
    → from_little_endian p ≡ from_little_endian q
    → p ≡ q
from_little_endian_injective p q hp hq len e =
    sym (little_endian-from p hp)
    ∙ ap (λ t. little_endian t (from_little_endian p)) len
    ∙ ap (little_endian (length q)) e
    ∙ little_endian-from q hq

from_little_endian-IsU32 : (p : List ℕ) → All IsByte p → length p ≤ 4 → IsU32 (from_little_endian p)
from_little_endian-IsU32 p h short =
    omega (arith, from_little_endian-lt p h, pow-le-pow_right {n = 256} (omega arith) short)

full_group :
    (p back : List ℕ) (h : ℕ)
    → length p ≡ 4
    → mix_all h (p ++ back) ≡ mix_all (mix 16 h (from_little_endian p)) back
full_group [] back h len = absurd (omega arith)
full_group (a ∷ []) back h len = absurd (omega arith)
full_group (a ∷ b ∷ []) back h len = absurd (omega arith)
full_group (a ∷ b ∷ c ∷ []) back h len = absurd (omega arith)
full_group (a ∷ b ∷ c ∷ d ∷ []) back h len = refl
full_group (a ∷ b ∷ c ∷ d ∷ x ∷ p) back h len = absurd (omega arith)

short_group :
    (p : List ℕ) (h : ℕ)
    → 0 < length p
    → length p < 4
    → mix_all h p ≡ mix 24 h (from_little_endian p)
short_group [] h some_byte short = absurd (omega arith)
short_group (a ∷ []) h some_byte short = refl
short_group (a ∷ b ∷ []) h some_byte short = refl
short_group (a ∷ b ∷ c ∷ []) h some_byte short = refl
short_group (a ∷ b ∷ c ∷ d ∷ p) h some_byte short = absurd (omega arith)

empty_same : (p q : List ℕ) → length p ≡ length q → length p ≡ 0 → p ≡ q
empty_same [] [] len e = refl
empty_same [] (b ∷ q) len e = absurd (omega arith)
empty_same (a ∷ p) q len e = absurd (omega arith)

module _ (p q : List ℕ) (h : ℕ) (hp : All IsByte p) (hq : All IsByte q)
    (len : length p ≡ length q) where
  same_group :
      (r : ℕ)
      → ((t : ℕ) → t < 2 ^ 32 → t / 2 ^ r < 2 ^ r)
      → length p ≤ 4
      → mix r h (from_little_endian p) ≡ mix r h (from_little_endian q)
      → p ≡ q
  same_group r wide short e = from_little_endian_injective p q hp hq len (
      mix_number r wide h _ _ (from_little_endian-IsU32 p hp short)
        (from_little_endian-IsU32 q hq (omega arith)) e)

  full_injective :
      (back : List ℕ) → length p ≡ 4 → mix_all h (p ++ back) ≡ mix_all h (q ++ back) → p ≡ q
  full_injective back four e = same_group 16 wide_word (omega arith) (
      mix_all_injective back _ _ (mix-IsU32 16 wide_word h (from_little_endian p))
        (mix-IsU32 16 wide_word h (from_little_endian q))
        (sym (full_group p back h four) ∙ e ∙ full_group q back h (omega arith)))

  short_injective : length p < 4 → mix_all h p ≡ mix_all h q → p ≡ q
  short_injective short e = elim (dec_le 1 (length p)) [
    | yes ge ↦
        same_group 24 wide_rest (omega arith)
          (sym (short_group p h ge short) ∙ e ∙ short_group q h (omega arith) (omega arith))
    | no lt ↦ empty_same p q len (omega arith)
  ]

-- With nothing behind the group.
behind : {back : List ℕ} (h : ℕ) (p : List ℕ) → back ≡ [] → mix_all h (p ++ back) ≡ mix_all h p
behind h p none_left = rw (none_left, append-nil p)

-- Two byte strings that differ in one aligned group.
pub group_injective :
    (p q back : List ℕ) (h : ℕ)
    → All IsByte p
    → All IsByte q
    → length p ≡ length q
    → length p ≡ min 4 (length p + length back)
    → mix_all h (p ++ back) ≡ mix_all h (q ++ back)
    → p ≡ q
group_injective p q back h hp hq len group e = elim (dec_le 4 (length p)) [
  | yes ge ↦ full_injective p q h hp hq len back (omega arith) e
  | no lt ↦
      let nothing : back ≡ [] = empty_same back [] (omega arith) (omega arith) in
      short_injective p q h hp hq len (omega arith)
        (sym (behind h p nothing) ∙ e ∙ behind h q nothing)
]
