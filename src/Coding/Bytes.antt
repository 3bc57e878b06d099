-- ===== src/Coding/Bytes.antt =====
-- What the encoders write, in plain arithmetic.
use distributed_kvstorage.Common.{
  ℕ, zero, suc, ◌+◌, ◌/◌, ◌%◌, ◌^◌, ◌≤◌, ◌<◌, ◌≡◌, refl, List, [], ◌∷◌, length, All, IsByte, ltb,
  if◌then◌else◌, arith,
}
use native.Mathlib.Nat.{pow-suc}

-- The groups of seven bits of `v`, lowest first, with 128 added to each but the last; at most `k`.
unfoldable pub varint : ℕ → ℕ → List ℕ
varint zero v = []
varint (suc k) v =
    let rest = varint k (v / 128) in if ltb v 128 then v ∷ [] else (v % 128 + 128) ∷ rest

-- The `k` lowest bytes of `v`, lowest first.
abbrev pub little_endian : ℕ → ℕ → List ℕ
little_endian zero v = []
little_endian (suc k) v = (v % 256) ∷ little_endian k (v / 256)

pub length-little_endian : (k v : ℕ) → length (little_endian k v) ≡ k
length-little_endian zero v = refl
length-little_endian (suc k) v = omega (arith, length-little_endian k (v / 256))

pub little_endian-IsByte : (k v : ℕ) → All IsByte (little_endian k v)
little_endian-IsByte zero v = tt
little_endian-IsByte (suc k) v = (omega arith, little_endian-IsByte k (v / 256))

-- What is left of a value above its lowest group needs one group less.
pub group-lt : (k v : ℕ) → v < 128 ^ suc k → v / 128 < 128 ^ k
group-lt k v h = omega (arith, pow-suc 128 k)

pub varint-IsByte : (k v : ℕ) → v < 128 ^ k → All IsByte (varint k v)
unfolding varint
varint-IsByte zero v h = tt
varint-IsByte (suc k) v h = ground (arith, varint-IsByte k (v / 128), group-lt k v h)

pub length-varint_bounds :
    (k v : ℕ) → (1 ≤ length (varint (suc k) v)) × (length (varint (suc k) v) ≤ suc k)
unfolding varint
length-varint_bounds zero v = ground arith
length-varint_bounds (suc k) v = ground (arith, length-varint_bounds k (v / 128))
