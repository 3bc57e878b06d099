-- ===== src/Hash/Mix.antt =====
-- The mixing of src/util/hash.cc in plain arithmetic, and how it is undone.
use distributed_kvstorage.Common.{
  ℕ, ◌+◌, ◌*◌, ◌/◌, ◌%◌, ◌^◌, ◌<◌, ◌≡◌, refl, List, [], ◌∷◌, ◌++◌, length, IsU32, arith,
}
use distributed_kvstorage.Common.Xor.{xor-lt, shift_injective}
use distributed_kvstorage.Coding.Fixed.{from_little_endian}
use distributed_kvstorage.Hash.{multiplier}
use Prim.Native.Nat.{bit_xor}
use native.Mathlib.Nat.{div-le_self}

-- One number mixed into the hash.
abbrev pub mix : ℕ → ℕ → ℕ → ℕ
mix r h w = let t = (h + w) * multiplier % 2 ^ 32 in bit_xor t (t / 2 ^ r)

-- The numbers of 4 bytes mixed in one after the other, and the number of the last 1 to 3.
abbrev pub mix_all : ℕ → List ℕ → ℕ
mix_all h [] = h
mix_all h (a ∷ []) = mix 24 h (from_little_endian (a ∷ []))
mix_all h (a ∷ b ∷ []) = mix 24 h (from_little_endian (a ∷ b ∷ []))
mix_all h (a ∷ b ∷ c ∷ []) = mix 24 h (from_little_endian (a ∷ b ∷ c ∷ []))
mix_all h (a ∷ b ∷ c ∷ d ∷ p) = mix_all (mix 16 h (from_little_endian (a ∷ b ∷ c ∷ d ∷ []))) p

abbrev pub start : ℕ → ℕ → ℕ
start n seed = bit_xor seed (n * multiplier % 2 ^ 32)

pub start-IsU32 : (n seed : ℕ) → IsU32 seed → IsU32 (start n seed)
start-IsU32 n seed h = xor-lt 32 seed (n * multiplier % 2 ^ 32) h (omega arith)

product_injective :
    (x y : ℕ) → x < 2 ^ 32 → y < 2 ^ 32 → x * multiplier % 2 ^ 32 ≡ y * multiplier % 2 ^ 32 → x ≡ y
product_injective x y hx hy e = omega arith

-- A step of mixing is undone for the hash where the number is known, and for the number where the
-- hash is.
module _ (r : ℕ) (wide : (t : ℕ) → t < 2 ^ 32 → t / 2 ^ r < 2 ^ r) where
  pub mix-IsU32 : (h w : ℕ) → IsU32 (mix r h w)
  mix-IsU32 h w =
      let t : ℕ = (h + w) * multiplier % 2 ^ 32 in
      xor-lt 32 t (t / 2 ^ r) (omega arith) (omega (arith, div-le_self t (2 ^ r)))

  mix_sum : (h w k v : ℕ) → mix r h w ≡ mix r k v → (h + w) % 2 ^ 32 ≡ (k + v) % 2 ^ 32
  mix_sum h w k v e =
      product_injective _ _ (omega arith) (omega arith)
        (omega (arith, shift_injective r _ _ (wide _ (omega arith)) (wide _ (omega arith)) e))

  mix_hash : (h k w : ℕ) → IsU32 h → IsU32 k → mix r h w ≡ mix r k w → h ≡ k
  mix_hash h k w hh hk e = omega (arith, mix_sum h w k w e)

  pub mix_number : (h w v : ℕ) → IsU32 w → IsU32 v → mix r h w ≡ mix r h v → w ≡ v
  mix_number h w v hw hv e = omega (arith, mix_sum h w h v e)

pub wide_word : (t : ℕ) → t < 2 ^ 32 → t / 2 ^ 16 < 2 ^ 16
wide_word t h = omega arith

pub wide_rest : (t : ℕ) → t < 2 ^ 32 → t / 2 ^ 24 < 2 ^ 24
wide_rest t h = omega arith

pub mix_all_injective :
    (p : List ℕ) (h k : ℕ) → IsU32 h → IsU32 k → mix_all h p ≡ mix_all k p → h ≡ k
mix_all_injective [] h k hh hk e = e
mix_all_injective (a ∷ []) h k hh hk e = mix_hash 24 wide_rest h k _ hh hk e
mix_all_injective (a ∷ b ∷ []) h k hh hk e = mix_hash 24 wide_rest h k _ hh hk e
mix_all_injective (a ∷ b ∷ c ∷ []) h k hh hk e = mix_hash 24 wide_rest h k _ hh hk e
mix_all_injective (a ∷ b ∷ c ∷ d ∷ p) h k hh hk e =
    let w : ℕ = from_little_endian (a ∷ b ∷ c ∷ d ∷ []) in
    mix_hash 16 wide_word h k w hh hk
      (mix_all_injective p _ _ (mix-IsU32 16 wide_word h w) (mix-IsU32 16 wide_word k w) e)

-- Whole groups in front only change the hash that the rest is mixed into.
pub mix_all-append :
    (front : List ℕ) (h : ℕ)
    → length front % 4 ≡ 0
    → IsU32 h
    → (k : ℕ) × IsU32 k × ((p : List ℕ) → mix_all h (front ++ p) ≡ mix_all k p)
mix_all-append [] h whole hh = (h, hh, λ p. refl)
mix_all-append (a ∷ []) h whole hh = absurd (omega arith)
mix_all-append (a ∷ b ∷ []) h whole hh = absurd (omega arith)
mix_all-append (a ∷ b ∷ c ∷ []) h whole hh = absurd (omega arith)
mix_all-append (a ∷ b ∷ c ∷ d ∷ front) h whole hh =
    mix_all-append front _ (omega arith)
      (mix-IsU32 16 wide_word h (from_little_endian (a ∷ b ∷ c ∷ d ∷ [])))
