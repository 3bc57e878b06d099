-- ===== src/Hash.antt =====
-- src/util/hash.h and src/util/hash.cc: the hash function after murmur hash.
pub mod Mix
pub mod Groups
pub mod Laws
use distributed_kvstorage.Common.{
  ℕ, zero, suc, ◌+◌, ◌*◌, List, [], ◌∷◌, Option, none, some, ◌>>=◌, get_elem?, drop, u32, u64,
  ◌>>>◌, ◌<<<◌,
}
use distributed_kvstorage.Coding.{decode_fixed32}
use Prim.Native.Nat.{bit_xor}

-- `m` and `r`.
abbrev pub multiplier : ℕ
multiplier = 0xc6a4a793

abbrev pub shift : ℕ
shift = 24

-- The body of the loop behind the read of the word `w`.
unfoldable pub mix_word : ℕ → ℕ → ℕ
mix_word h w = let h = u32 (h + w) in let h = u32 (h * multiplier) in bit_xor h (h >>> 16)

-- The loop with `limit - data` bytes left: what is left of them and the hash.
unfoldable pub mix_words : List ℕ → ℕ → ℕ → Option (List ℕ × ℕ × ℕ)
mix_words input zero h = some (input, 0, h)
mix_words input (suc zero) h = some (input, 1, h)
mix_words input (suc (suc zero)) h = some (input, 2, h)
mix_words input (suc (suc (suc zero))) h = some (input, 3, h)
mix_words input (suc (suc (suc (suc n)))) h = do
  w ← decode_fixed32 input
  mix_words (drop 4 input) n (mix_word h w)

-- The cases of the `switch`, each with those that it falls through to.
unfoldable pub case_one : List ℕ → ℕ → Option ℕ
case_one input h = do
  b ← get_elem? input 0
  let h = u32 (h + b)
  let h = u32 (h * multiplier)
  some (bit_xor h (h >>> shift))

unfoldable pub case_two : List ℕ → ℕ → Option ℕ
case_two input h = do b ← get_elem? input 1; case_one input (u32 (h + (b <<< 8)))

unfoldable pub case_three : List ℕ → ℕ → Option ℕ
case_three input h = do b ← get_elem? input 2; case_two input (u32 (h + (b <<< 16)))

-- The `switch` on `limit - data`.
unfoldable pub mix_rest : List ℕ → ℕ → ℕ → Option ℕ
mix_rest input (suc zero) h = case_one input h
mix_rest input (suc (suc zero)) h = case_two input h
mix_rest input (suc (suc (suc zero))) h = case_three input h
mix_rest input n h = some h

-- Hash.
unfoldable pub hash : List ℕ → ℕ → ℕ → Option ℕ
hash input n seed = do
  (input, left, h) ← mix_words input n (u32 (bit_xor seed (u64 (n * multiplier))))
  mix_rest input left h
