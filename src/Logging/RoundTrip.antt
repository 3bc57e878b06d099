-- ===== src/Logging/RoundTrip.antt =====
-- `ConsumeDecimalNumber` after `NumberToString`.
use distributed_kvstorage.Common.{
  ℕ, ◌+◌, ◌-◌, ◌*◌, ◌/◌, ◌%◌, ◌≤◌, ◌<◌, ◌≡◌, refl, ap, ◌∙◌, true, some, List, [], ◌∷◌, ◌++◌, length,
  All, IsU64, arith, append-nil, All-append, length-append, drop-append, zero, suc,
}
use native.Mathlib.Decide.{dec_lt}
use distributed_kvstorage.Slice.{Slice, empty, size}
use distributed_kvstorage.Logging.{number_to_string, append_number_to, consume_decimal_number}
use distributed_kvstorage.Logging.Decimal.{digits, number, consume_decimal_number-number}

-- What `std::to_string` is documented to give for an unsigned number: its decimal digits.
pub record IsDecimal (std_to_string : ℕ → List ℕ) : Type 0 where
  pub one_digit : (n : ℕ) → n < 10 → std_to_string n ≡ (b'0' + n) ∷ []
  pub more_digits :
      (n : ℕ)
      → 10 ≤ n
      → IsU64 n
      → std_to_string n ≡ std_to_string (n / 10) ++ ((b'0' + n % 10) ∷ [])

abbrev IsDigit : ℕ → Type 0
IsDigit c = (b'0' ≤ c) × (c ≤ b'9')

-- A string of digits, one at least, that spells a number.
record Spells (s : List ℕ) (n : ℕ) : Type 0 where
  all_digits : All IsDigit s
  spelt : number 0 s ≡ n
  nonempty : 1 ≤ length s

digits-append : (s rest : List ℕ) → All IsDigit s → digits (s ++ rest) ≡ s ++ digits rest
digits-append [] rest h = refl
digits-append (c ∷ s) rest h = ground (arith, digits-append s rest h.1)

number-append : (n : ℕ) (s rest : List ℕ) → number n (s ++ rest) ≡ number (number n s) rest
number-append n [] rest = refl
number-append n (c ∷ s) rest = number-append (n * 10 + (c - b'0')) s rest

module _ (std_to_string : ℕ → List ℕ) (decimal : IsDecimal std_to_string) where
  std_to_string-Spells-below : (k n : ℕ) → n < k → IsU64 n → Spells (std_to_string n) n
  std_to_string-Spells-below zero n h fits = elim h [ ]
  std_to_string-Spells-below (suc k) n h fits = elim (dec_lt n 10) [
    | yes small ↦ rw (decimal.one_digit n small) (record {
      all_digits = ((omega arith, omega arith), tt);
      spelt = omega arith;
      nonempty = omega arith;
    })
    | no large ↦
        let front = std_to_string-Spells-below k (n / 10) (omega arith) (omega arith) in
        let last = b'0' + n % 10 in
        rw (decimal.more_digits n (omega arith) fits) (record {
          all_digits =
              All-append IsDigit (std_to_string (n / 10)) (last ∷ []) front.all_digits
                ((omega arith, omega arith), tt);
          spelt = number-append 0 (std_to_string (n / 10)) (last ∷ []) ∙ omega (arith, front.spelt);
          nonempty = omega (arith, length-append (std_to_string (n / 10)) (last ∷ []));
        })
  ]

  -- Where `std::to_string` gives the decimal digits, ConsumeDecimalNumber reads back a uint64_t that
  -- NumberToString wrote, whatever `*val` held, and leaves what follows if that starts with no digit.
  pub consume_decimal_number-number_to_string :
      (n val : ℕ) (rest : Slice)
      → IsU64 n
      → digits rest ≡ []
      → consume_decimal_number (number_to_string std_to_string n ++ rest) val ≡ some (true, n, rest)
  unfolding number_to_string append_number_to empty size
  consume_decimal_number-number_to_string n val rest fits stops =
      let s = std_to_string n in
      let is = std_to_string-Spells-below (suc n) n (omega arith) fits in
      let found : digits (s ++ rest) ≡ s =
        digits-append s rest is.all_digits ∙ ap (λ t. s ++ t) stops ∙ append-nil s in
      consume_decimal_number-number (s ++ rest) val
      ∙ rw (found, is.spelt, drop-append s rest) (ground (arith, is.nonempty))
