-- ===== src/Logging.antt =====
-- src/util/logging.h and logging.cc: decimal numbers in strings. `std::to_string` is a parameter.
pub mod Decimal
pub mod RoundTrip
use distributed_kvstorage.Common.{
  ℕ, ◌+◌, ◌-◌, ◌*◌, ◌/◌, ◌%◌, Bool, true, false, not, ◌&&◌, ◌||◌, Option, none, some, List, [], ◌∷◌,
  ◌++◌, ltb, ◌==◌, if◌then◌else◌, ◌>>=◌, u64,
}
use distributed_kvstorage.Slice.{Slice, remove_prefix, to_string}

module _ (std_to_string : ℕ → List ℕ) where
  unfoldable pub append_number_to : List ℕ → ℕ → List ℕ
  append_number_to str num = str ++ std_to_string num

  unfoldable pub number_to_string : ℕ → List ℕ
  unfolding append_number_to
  number_to_string num = append_number_to [] num

-- The escaping is none: the bytes are copied.
unfoldable pub append_escaped_string_to : List ℕ → Slice → List ℕ
append_escaped_string_to str value = str ++ to_string value

unfoldable pub escape_string : Slice → List ℕ
escape_string value = append_escaped_string_to [] value

abbrev pub max_uint64 : ℕ
max_uint64 = 18446744073709551615

abbrev pub last_digit_of_max_uint64 : ℕ
last_digit_of_max_uint64 = b'0' + max_uint64 % 10

-- The loop, with the value and the number of bytes before `current`; `none` is the return of false
-- in it.
unfoldable pub decimal_loop : List ℕ → (value consumed : ℕ) → Option (ℕ × ℕ)
decimal_loop [] value consumed = some (value, consumed)
decimal_loop (ch ∷ rest) value consumed =
    let later = decimal_loop rest (u64 (value * 10 + (ch - b'0'))) (consumed + 1) in
    if ltb ch b'0' || ltb b'9' ch
    then some (value, consumed)
    else if ltb (max_uint64 / 10) value
        || (value == max_uint64 / 10 && ltb last_digit_of_max_uint64 ch)
    then none
    else later

-- The answer, then `*val` and `*in` after the call. The outer `none` would be a failed assertion of
-- `removePrefix`.
unfoldable pub consume_decimal_number : Slice → (val : ℕ) → Option (Bool × ℕ × Slice)
consume_decimal_number input val = elim (decimal_loop input 0 0) [
  | none ↦ some (false, val, input)
  | some (value, digits_consumed) ↦ (do
    rest ← remove_prefix digits_consumed input
    some (not (digits_consumed == 0), value, rest))
]
