-- ===== src/Random/Sequence.antt =====
-- The numbers that the generator of src/util/random.h gives.
use distributed_kvstorage.Common.{
  ℕ, zero, suc, ◌+◌, ◌*◌, ◌%◌, ◌^◌, ◌<◌, ◌≤◌, ◌≡◌, sym, ap, ◌∙◌, some, arith, bit_and,
}
use distributed_kvstorage.Common.Bits.{and_mask}
use distributed_kvstorage.Common.Fields.{pow_pos}
use distributed_kvstorage.Random.{Random, modulus, multiplier, make_random, next, uniform, skewed}
use native.Mathlib.Nat.{pow-suc, pow-le-pow_right}

-- The seeds that the generator keeps: neither 0 nor the modulus.
pub record IsSeeded (r : Random) : Type 0 where
  pub positive : 0 < r.seed
  pub below : r.seed < modulus

masked : (a : ℕ) → bit_and a modulus ≡ a % 2 ^ 31
masked = and_mask 31

-- The constructor gives a valid seed for every uint32_t.
make_random-IsSeeded : (s : ℕ) → IsSeeded (make_random s)
unfolding make_random
make_random-IsSeeded s = record {
  positive = ground (arith, masked s);
  below = ground (arith, masked s);
}

-- The product reduced.
abbrev pub follow : ℕ → ℕ
follow s = (s * multiplier) % modulus

next-follow : (r : Random) → IsSeeded r → next r ≡ (follow r.seed, record { seed = follow r.seed })
unfolding next
next-follow r is = ap (λ s. (s, record { seed = s })) number
  where
    number : (next r).0 ≡ follow r.seed
    number = ground (arith, masked (r.seed * multiplier), is.below, is.positive)

follow-IsSeeded : (r : Random) → IsSeeded r → IsSeeded (record { seed = follow r.seed })
follow-IsSeeded r is = record {
  positive = omega (arith, is.positive, is.below);
  below = omega arith;
}

-- The generator after some calls of `next`.
pub after : ℕ → Random → Random
unfolding next
after zero r = r
after (suc n) r = (next (after n r)).1

follow-power :
    (s n : ℕ) → follow ((s * multiplier ^ n) % modulus) ≡ (s * multiplier ^ suc n) % modulus
follow-power s n = omega (arith, ap (λ (t : ℕ). s * t) (pow-suc multiplier n))

after_none :
    (r : Random)
    → IsSeeded r
    → IsSeeded (after zero r) × ((after zero r).seed ≡ (r.seed * multiplier ^ zero) % modulus)
unfolding after
after_none r is = (is, omega (arith, is.below))

after-follow :
    (r : Random) (n : ℕ)
    → IsSeeded (after n r)
    → after (suc n) r ≡ record { seed = follow (after n r).seed }
unfolding after
after-follow r n is = ap (λ t. t.1) (next-follow (after n r) is)

-- After every number of calls of `next` from a valid seed the seed is valid, and it is the first one
-- times that power of the multiplier, modulo 2^31 - 1: the folding of the product loses nothing.
pub after-power :
    (r : Random) (n : ℕ)
    → IsSeeded r
    → IsSeeded (after n r) × ((after n r).seed ≡ (r.seed * multiplier ^ n) % modulus)
after-power r zero is = after_none r is
after-power r (suc n) is =
    let (ok, e) = after-power r n is in
    rw (after-follow r n ok) (follow-IsSeeded (after n r) ok, ap follow e ∙ follow-power r.seed n)

-- From valid seeds `next` gives the same number only if the seeds are the same, so no two states of
-- the generator ever run together.
next_injective :
    (r s : Random) → IsSeeded r → IsSeeded s → (next r).0 ≡ (next s).0 → r.seed ≡ s.seed
next_injective r s hr hs e = omega (
  arith,
  hr.positive,
  hr.below,
  hs.positive,
  hs.below,
  sym (ap (λ t. t.0) (next-follow r hr)) ∙ e ∙ ap (λ t. t.0) (next-follow s hs),
)

-- From a valid seed `uniform` gives a number below an n above 0, and leaves a valid seed.
uniform-lt :
    (r : Random) (n : ℕ)
    → IsSeeded r
    → 0 < n
    → (v : ℕ) × (after : Random) × (uniform r n ≡ some (v, after)) × (v < n) × IsSeeded after
unfolding uniform
uniform-lt r n is pos = (
  follow r.seed % n,
  record { seed = follow r.seed },
  rw (next-follow r is) (ground arith),
  omega arith,
  follow-IsSeeded r is,
)

-- From a valid seed and for a logarithm of at most 30, `skewed` is defined, gives a number below
-- that power of 2, and leaves a valid seed.
pub skewed-lt :
    (r : Random) (max_log : ℕ)
    → IsSeeded r
    → max_log ≤ 30
    → (v : ℕ) × (after : Random) × (skewed r max_log ≡ some (v, after))
      × (v < 2 ^ max_log)
      × IsSeeded after
unfolding skewed
skewed-lt r max_log is small =
    let (base, r1, e1, h1, is1) = uniform-lt r (max_log + 1) is (omega arith) in
    let (v, r2, e2, h2, is2) = uniform-lt r1 (1 * 2 ^ base) is1 (omega (arith, pow_pos base)) in
    let bound = pow-le-pow_right {n = 2} (omega arith) {i = base} {j = max_log} (omega arith) in
    (v, r2, rw e1 (ground (arith, e2)), omega (arith, bound), is2)
