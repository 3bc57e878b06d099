-- ===== src/Random.antt =====
-- The class Random of src/util/random.h: a linear congruential generator. Its state is `seed_`, a
-- uint32_t. `none` is undefined behaviour: a remainder by 0, or an int shifted out of its range.
pub mod Sequence
use distributed_kvstorage.Common.{
  ℕ, ◌+◌, ◌-◌, ◌*◌, ◌%◌, ◌<◌, Bool, ◌||◌, bit_and, Option, some, ltb, leb, ◌==◌, if◌then◌else◌,
  ◌>>=◌, ◌>>◌, assert, u32, u64, ◌<<<◌, ◌>>>◌,
}

abbrev pub modulus : ℕ
modulus = 2147483647

abbrev pub multiplier : ℕ
multiplier = 16807

pub record Random : Type 0 where
  pub seed : ℕ

-- Random(s)
unfoldable pub make_random : ℕ → Random
make_random s =
    let seed = bit_and s 0x7fffffff in
    if seed == 0 || seed == 2147483647 then record { seed = 1 } else record { seed = seed }

-- The number returned, and the generator after the call.
unfoldable pub next : Random → ℕ × Random
next r =
    let product = u64 (r.seed * multiplier) in
    let seed = u32 ((product >>> 31) + bit_and product modulus) in
    let seed' = if ltb modulus seed then seed - modulus else seed in
    (seed', record { seed = seed' })

-- `n` is an int above 0 by contract; the remainder is by its value as a uint32_t.
unfoldable pub uniform : Random → ℕ → Option (ℕ × Random)
uniform r n = do assert (ltb 0 n); let (value, r) = next r; some (value % n, r)

unfoldable pub one_in : Random → ℕ → Option (Bool × Random)
one_in r n = do assert (ltb 0 n); let (value, r) = next r; some (value % n == 0, r)

unfoldable pub skewed : Random → ℕ → Option (ℕ × Random)
skewed r max_log = do
  (base, r) ← uniform r (max_log + 1)
  assert (leb base 30)
  uniform r (1 <<< base)
