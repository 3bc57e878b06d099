-- ===== src/Logging/Decimal.antt =====
-- `ConsumeDecimalNumber` against the digits that a string starts with.
use distributed_kvstorage.Common.{
  ℕ, ◌+◌, ◌-◌, ◌*◌, ◌≤◌, ◌≡◌, false, not, Option, none, some, List, [], ◌∷◌, leb, length, drop,
  if◌then◌else◌, u64, arith,
}
use distributed_kvstorage.Slice.{Slice, remove_prefix, size, empty}
use distributed_kvstorage.Logging.{max_uint64, decimal_loop, consume_decimal_number}

-- The digits at the start.
abbrev pub digits : List ℕ → List ℕ
digits [] = []
digits (c ∷ cs) =
    let rest = digits cs in if leb b'0' c then (if leb c b'9' then c ∷ rest else []) else []

-- The number that digits spell behind one that was read already, of any size.
abbrev pub number : ℕ → List ℕ → ℕ
number n [] = n
number n (c ∷ cs) = number (n * 10 + (c - b'0')) cs

number_le : (n : ℕ) (cs : List ℕ) → n ≤ number n cs
number_le n [] = omega arith
number_le n (c ∷ cs) = omega (arith, number_le (n * 10 + (c - b'0')) cs)

length-digits : (cs : List ℕ) → length (digits cs) ≤ length cs
length-digits [] = omega arith
length-digits (c ∷ cs) = ground (arith, length-digits cs)

-- What the loop gives for a number and a count of bytes.
abbrev fitting : (n k : ℕ) → Option (ℕ × ℕ)
fitting n k = if leb n max_uint64 then some (n, k) else none

decimal_loop-number :
    (cs : List ℕ) (n k : ℕ)
    → n ≤ max_uint64
    → decimal_loop cs n k ≡ fitting (number n (digits cs)) (k + length (digits cs))
unfolding decimal_loop
decimal_loop-number [] n k h = ground arith
decimal_loop-number (c ∷ cs) n k h = ground (
  arith,
  decimal_loop-number cs (u64 (n * 10 + (c - b'0'))) (k + 1),
  number_le (n * 10 + (c - b'0')) (digits cs),
)

-- On every string, ConsumeDecimalNumber reads the number that the digits at its start spell, and
-- takes them off; it answers true if there is a digit. If the number is above the largest uint64_t
-- it answers false and leaves the string and the value alone.
pub consume_decimal_number-number :
    (input : Slice) (val : ℕ)
    → consume_decimal_number input val ≡ (
        if leb (number 0 (digits input)) max_uint64
        then some (
          not (empty (digits input)),
          number 0 (digits input),
          drop (length (digits input)) input,
        )
        else some (false, val, input))
unfolding consume_decimal_number remove_prefix size empty
consume_decimal_number-number input val =
    rw (consume_decimal_number, decimal_loop-number input 0 0 (omega arith))
      (ground (arith, length-digits input))
