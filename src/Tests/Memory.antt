-- ===== src/Tests/Memory.antt =====
-- The arena, the generator and decimal numbers: runs, and the theorems at concrete inputs.
use distributed_kvstorage.Common.{none}
use distributed_kvstorage.Common.{
  ℕ, zero, suc, ◌+◌, ◌*◌, ◌/◌, ◌%◌, ◌^◌, ◌≡◌, ◌<◌, refl, true, false, some, List, [], ◌∷◌, ◌++◌,
  ltb, if◌then◌else◌, u64, inl, inr, arith,
}
use distributed_kvstorage.Slice.{empty}
use distributed_kvstorage.Random.{Random, modulus, multiplier, next, skewed}
use distributed_kvstorage.Random.Sequence.{IsSeeded, after, after-power, skewed-lt}
use distributed_kvstorage.Logging.{decimal_loop, consume_decimal_number, number_to_string}
use distributed_kvstorage.Logging.Decimal.{consume_decimal_number-number}
use distributed_kvstorage.Logging.RoundTrip.{IsDecimal, consume_decimal_number-number_to_string}
use distributed_kvstorage.Arena.{Block, Arena, make_arena, memory_usage, destroy, destroy_loop}
use distributed_kvstorage.Arena.Regions.{Covered, IsAllocator, Apart, total}
use distributed_kvstorage.Arena.Freed.{run-destroy}
use distributed_kvstorage.Arena.Requests.{Request, plain, aligned, run, run-Apart}
use native.Mathlib.Decide.{dec_lt}

abbrev seven : Random
seven = record { seed = 7 }

seven-IsSeeded : IsSeeded seven
seven-IsSeeded = record { positive = omega arith; below = omega arith }

-- The numbers that the generator gives from the seed 1.
first_numbers : (next (record { seed = 1 })).0 ≡ 16807
unfolding next
first_numbers = refl

last_seed : (next (record { seed = 2147483646 })).0 ≡ 2147466840
unfolding next
last_seed = refl

after-power_example :
    IsSeeded (after 3 seven) × ((after 3 seven).seed ≡ (7 * multiplier ^ 3) % modulus)
after-power_example = after-power seven 3 seven-IsSeeded

skewed-lt_example :
    (v : ℕ) × (r : Random) × (skewed seven 10 ≡ some (v, r)) × (v < 2 ^ 10) × IsSeeded r
skewed-lt_example = skewed-lt seven 10 seven-IsSeeded (omega arith)

abbrev decimal_on : ℕ → ℕ → List ℕ
decimal_on zero n = []
decimal_on (suc fuel) n =
    let front = decimal_on fuel (n / 10) in
    if ltb n 10 then (b'0' + n) ∷ [] else front ++ ((b'0' + n % 10) ∷ [])

decimal_on_enough : (f g n : ℕ) → n < f → n < g → decimal_on f n ≡ decimal_on g n
decimal_on_enough zero g n h k = elim h [ ]
decimal_on_enough (suc f) zero n h k = elim k [ ]
decimal_on_enough (suc f) (suc g) n h k = elim (dec_lt n 10) [
  | yes small ↦ ground arith
  | no large ↦ ground (arith, decimal_on_enough f g (n / 10) (omega arith) (omega arith))
]

abbrev decimal : ℕ → List ℕ
decimal n = decimal_on (suc n) n

decimal-IsDecimal : IsDecimal decimal
decimal-IsDecimal = record {
  one_digit = λ n h. ground arith;
  more_digits = λ n h fits.
      ground (arith, decimal_on_enough n (suc (n / 10)) (n / 10) (omega arith) (omega arith));
}

too_large :
    consume_decimal_number (decimal_on 30 18446744073709551616) 5
    ≡ some (false, 5, decimal_on 30 18446744073709551616)
unfolding consume_decimal_number decimal_loop
too_large = refl

consume_decimal_number-number_to_string_example :
    consume_decimal_number (number_to_string decimal 1205 ++ (b'x' ∷ [])) 3
    ≡ some (true, 1205, b'x' ∷ [])
consume_decimal_number-number_to_string_example =
    consume_decimal_number-number_to_string decimal decimal-IsDecimal 1205 3 (b'x' ∷ [])
      (omega arith) refl

-- An allocator that goes on behind everything that is live.
abbrev ends : List Block → ℕ
ends [] = 0
ends (b ∷ bs) = b.address + b.bytes + ends bs

abbrev pub next_free : List Block → ℕ → ℕ
next_free live n = 8 * (ends live + 1)

Covered-ends : (live : List Block) (x : ℕ) → Covered live x → x < ends live
Covered-ends [] x h = absurd h
Covered-ends (b ∷ bs) x (inl h) = omega arith
Covered-ends (b ∷ bs) x (inr h) = omega (arith, Covered-ends bs x h)

pub next_free-IsAllocator : IsAllocator next_free
next_free-IsAllocator = record {
  fresh = λ live n x h k. omega (arith, Covered-ends live x k);
  aligned = λ live n h. omega arith;
}

abbrev requests : List Request
requests = plain 10 ∷ aligned 16 ∷ plain 3000 ∷ plain 1 ∷ []

run-Apart_example :
    (out : List Block) × (a : Arena) × (run next_free (make_arena []) [] requests ≡ some (out, a))
    × Apart out
    × ((x : ℕ) → Covered out x → Covered a.blocks x)
    × (memory_usage a ≡ u64 (total a.blocks))
run-Apart_example =
    run-Apart next_free next_free-IsAllocator [] requests
      (omega arith, (omega arith, (omega arith, (omega arith, tt))))

consume_decimal_number-number_example :
    consume_decimal_number (decimal_on 9 77 ++ (b' ' ∷ [])) 3 ≡ some (true, 77, b' ' ∷ [])
unfolding empty
consume_decimal_number-number_example =
    consume_decimal_number-number (decimal_on 9 77 ++ (b' ' ∷ [])) 3

abbrev other : Block
other = record { address = 5000; bytes = 40 }

-- An arena with two arrays, on a heap.
abbrev two_blocks : (live : List Block) → Arena
two_blocks live = record {
  alloc_ptr = 0;
  alloc_bytes_remaining = 0;
  blocks = record { address = 8; bytes = 4096 } ∷ record { address = 9000; bytes = 3000 } ∷ [];
  memory_usage = 7112;
  live = live;
}

run-destroy_example :
    (out : List Block) × (a : Arena) × (run next_free (make_arena (other ∷ [])) [] requests
      ≡ some (out, a))
    × (destroy a ≡ some (other ∷ []))
run-destroy_example =
    run-destroy next_free next_free-IsAllocator (other ∷ []) (omega arith, tt) requests
      (omega arith, (omega arith, (omega arith, (omega arith, tt))))

-- The arrays of the arena are freed, in whatever order they lie, and no other.
blocks_freed :
    destroy (
      two_blocks (
        record { address = 9000; bytes = 3000 }
        ∷ other
        ∷ record { address = 8; bytes = 4096 }
        ∷ []))
    ≡ some (other ∷ [])
unfolding destroy destroy_loop
blocks_freed = refl

freed_twice : destroy (two_blocks (other ∷ record { address = 8; bytes = 4096 } ∷ [])) ≡ none
unfolding destroy destroy_loop
freed_twice = refl
