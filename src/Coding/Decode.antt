-- ===== src/Coding/Decode.antt =====
-- The variable length decoders, on every input.
use distributed_kvstorage.Common.{
  ℕ, zero, suc, ◌+◌, ◌-◌, ◌*◌, ◌%◌, ◌^◌, ◌≤◌, ◌<◌, ◌≡◌, refl, ◌∙◌, ap, none, some, List, [], ◌∷◌,
  bit_or, bit_and, All, IsByte, Option, ltb, true, false, ◌==◌, if◌then◌else◌, ◌>>=◌, arith,
}
use distributed_kvstorage.Common.Bits.{and_flag, and_mask}
use distributed_kvstorage.Common.Fields.{or_field, pow-add}
use distributed_kvstorage.Coding.{
  varint32_loop, get_varint32_ptr_fallback, get_varint32_ptr, varint64_loop, get_varint64_ptr,
  get_varint32, get_varint64,
}
use mathlib.Core.Option
use native.Mathlib.Decide.{dec_lt}
use native.Mathlib.Nat.{mod-add-mod, mod-le}

-- The number that the first `n` bytes of the input spell in base 128, if one of them ends it, and
-- what follows it.
unfoldable pub scan : ℕ → List ℕ → Option (ℕ × List ℕ)
scan zero p = none
scan (suc n) [] = none
scan (suc n) (b ∷ p) =
    let rest = scan n p in
    if ltb b 128 then some (b, p) else Option.map (λ (v, q). (b - 128 + v * 128, q)) rest

-- A byte that goes on, and the group that it carries.
more_flag : (b : ℕ) → b < 256 → 128 ≤ b → (bit_and b 128 == 0) ≡ false
more_flag b h k = ground (arith, and_flag b)

last_flag : (b : ℕ) → b < 128 → (bit_and b 128 == 0) ≡ true
last_flag b h = ground (arith, and_flag b)

pow_seven : (s : ℕ) → 2 ^ (s + 7) ≡ 2 ^ s * 128
pow_seven s = pow-add s 7

module _ (w s r b : ℕ) (byte : b < 256) (go_on : 128 ≤ b) (room : s ≤ w) (small : r < 2 ^ s) where
  group-or : bit_or r (bit_and b 127 * 2 ^ s % 2 ^ w) ≡ (r + (b - 128) * 2 ^ s) % 2 ^ w
  group-or =
      let e : b % 2 ^ 7 ≡ b - 128 = omega arith in
      rw (and_mask 7 b, e) (or_field w s r (b - 128) room small)

  group-small : (r + (b - 128) * 2 ^ s) % 2 ^ w < 2 ^ (s + 7)
  group-small = rw pow_seven (grind (arith, mod-le (r + (b - 128) * 2 ^ s) (2 ^ w)))

  group-value :
      (v : ℕ)
      → ((r + (b - 128) * 2 ^ s) % 2 ^ w + v * 2 ^ (s + 7)) % 2 ^ w
        ≡ (r + (b - 128 + v * 128) * 2 ^ s) % 2 ^ w
  group-value v =
      mod-add-mod (r + (b - 128) * 2 ^ s) (2 ^ w) (v * 2 ^ (s + 7))
      ∙ ap (λ t. t % 2 ^ w) (rw pow_seven (omega arith))

pairs : (o : Option (ℕ × List ℕ)) → (o >>= λ (v, q). some (v, q)) ≡ o
pairs none = refl
pairs (some (v, q)) = refl

-- The scanned number put on top of a result of `s` bits, in a word of `w` bits.
abbrev on_top : (w s r : ℕ) → Option (ℕ × List ℕ) → Option (ℕ × List ℕ)
on_top w s r none = none
on_top w s r (some (v, q)) = some ((r + v * 2 ^ s) % 2 ^ w, q)

abbrev next_group : ℕ → Option (ℕ × List ℕ) → Option (ℕ × List ℕ)
next_group b = Option.map (λ (v, q). (b - 128 + v * 128, q))

on_top-next :
    (w s r b : ℕ) (o : Option (ℕ × List ℕ))
    → b < 256
    → 128 ≤ b
    → s ≤ w
    → r < 2 ^ s
    → on_top w (s + 7) ((r + (b - 128) * 2 ^ s) % 2 ^ w) o ≡ on_top w s r (next_group b o)
on_top-next w s r b none byte go_on room small = refl
on_top-next w s r b (some (v, q)) byte go_on room small =
    ap (λ t. some (t, q)) (group-value w s r b byte go_on room small v)

varint32_loop-scan :
    (n : ℕ) (p : List ℕ) (s r : ℕ)
    → s + 7 * n ≡ 35
    → r < 2 ^ s
    → All IsByte p
    → varint32_loop p s r ≡ on_top 32 s r (scan n p)
unfolding varint32_loop scan
varint32_loop-scan zero [] s r e small bytes = refl
varint32_loop-scan zero (b ∷ p) s r e small bytes = ground arith
varint32_loop-scan (suc n) [] s r e small bytes = refl
varint32_loop-scan (suc n) (b ∷ p) s r e small bytes = elim (dec_lt b 128) [
  | yes last ↦ ground (arith, last_flag b last, or_field 32 s r b (omega arith) small)
  | no more ↦
      let go_on : 128 ≤ b = omega arith in
      let room : s ≤ 32 = omega arith in
      ground (
        arith,
        more_flag b bytes.0 go_on,
        group-or 32 s r b bytes.0 go_on room small,
        varint32_loop-scan n p (s + 7) ((r + (b - 128) * 2 ^ s) % 2 ^ 32) (omega arith)
            (group-small 32 s r b bytes.0 go_on room small) bytes.1,
        on_top-next 32 s r b (scan n p) bytes.0 go_on room small,
      )
]

varint64_loop-scan :
    (n : ℕ) (p : List ℕ) (s r : ℕ)
    → s + 7 * n ≡ 70
    → r < 2 ^ s
    → All IsByte p
    → varint64_loop p s r ≡ on_top 64 s r (scan n p)
unfolding varint64_loop scan
varint64_loop-scan zero [] s r e small bytes = refl
varint64_loop-scan zero (b ∷ p) s r e small bytes = ground arith
varint64_loop-scan (suc n) [] s r e small bytes = refl
varint64_loop-scan (suc n) (b ∷ p) s r e small bytes = elim (dec_lt b 128) [
  | yes last ↦ ground (arith, last_flag b last, or_field 64 s r b (omega arith) small)
  | no more ↦
      let go_on : 128 ≤ b = omega arith in
      let room : s ≤ 64 = omega arith in
      ground (
        arith,
        more_flag b bytes.0 go_on,
        group-or 64 s r b bytes.0 go_on room small,
        varint64_loop-scan n p (s + 7) ((r + (b - 128) * 2 ^ s) % 2 ^ 64) (omega arith)
            (group-small 64 s r b bytes.0 go_on room small) bytes.1,
        on_top-next 64 s r b (scan n p) bytes.0 go_on room small,
      )
]

-- A number cut to `w` bits, as the decoders return it.
abbrev pub cut : ℕ → Option (ℕ × List ℕ) → Option (ℕ × List ℕ)
cut w none = none
cut w (some (v, q)) = some (v % 2 ^ w, q)

on_top-zero : (w : ℕ) (o : Option (ℕ × List ℕ)) → on_top w 0 0 o ≡ cut w o
on_top-zero w none = refl
on_top-zero w (some (v, q)) = let e : 0 + v * 2 ^ 0 ≡ v = omega arith in rw e

fallback-scan : (p : List ℕ) → All IsByte p → get_varint32_ptr_fallback p ≡ cut 32 (scan 5 p)
unfolding get_varint32_ptr_fallback
fallback-scan p bytes =
    varint32_loop-scan 5 p 0 0 (omega arith) (omega arith) bytes ∙ on_top-zero 32 (scan 5 p)

-- The fast path of GetVarint32Ptr gives what the fallback alone gives, on every string of bytes.
get_varint32_ptr-eq-fallback :
    (p : List ℕ) → All IsByte p → get_varint32_ptr p ≡ get_varint32_ptr_fallback p
unfolding get_varint32_ptr scan
get_varint32_ptr-eq-fallback [] bytes = refl
get_varint32_ptr-eq-fallback (b ∷ p) bytes = elim (dec_lt b 128) [
  | yes last ↦ ground (arith, last_flag b last, fallback-scan (b ∷ p) bytes)
  | no more ↦ ground (arith, more_flag b bytes.0 (omega arith))
]

-- On every string of bytes GetVarint32 returns the number that the first 5 bytes spell in base 128,
-- cut to 32 bits, and moves the input behind its last byte. It fails exactly if none of the 5 ends a
-- number.
pub get_varint32-scan : (p : List ℕ) → All IsByte p → get_varint32 p ≡ cut 32 (scan 5 p)
unfolding get_varint32
get_varint32-scan p bytes =
    rw (get_varint32_ptr-eq-fallback p bytes, fallback-scan p bytes) (pairs (cut 32 (scan 5 p)))

-- On every string of bytes GetVarint64 returns the number that the first 10 bytes spell in base 128,
-- cut to 64 bits, and moves the input behind its last byte. It fails exactly if none of the 10 ends a
-- number.
pub get_varint64-scan : (p : List ℕ) → All IsByte p → get_varint64 p ≡ cut 64 (scan 10 p)
unfolding get_varint64 get_varint64_ptr
get_varint64-scan p bytes =
    rw (varint64_loop-scan 10 p 0 0 (omega arith) (omega arith) bytes, on_top-zero 64 (scan 10 p))
      (pairs (cut 64 (scan 10 p)))
