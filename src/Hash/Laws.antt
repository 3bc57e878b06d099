-- ===== src/Hash/Laws.antt =====
-- What Hash of src/util/hash.cc computes, and what it keeps of its input.
use distributed_kvstorage.Common.{
  ℕ, ◌+◌, ◌*◌, ◌/◌, ◌%◌, ◌^◌, ◌≡◌, refl, ◌∙◌, sym, ap, some, List, [], ◌∷◌, ◌++◌, append-nil,
  length, length-append, All, All-part, IsByte, IsU32, u32, u64, ◌>>=◌, arith, min,
}
use distributed_kvstorage.Common.Xor.{xor_cancel, xor-mod}
use distributed_kvstorage.Coding.Fixed.{decode_fixed32-from}
use distributed_kvstorage.Hash.{
  multiplier, mix_word, mix_words, case_one, case_two, case_three, mix_rest, hash,
}
use distributed_kvstorage.Hash.Mix.{mix_all, start, start-IsU32, mix_all_injective, mix_all-append}
use distributed_kvstorage.Hash.Groups.{group_injective}
use Prim.Native.Nat.{bit_xor}
use mathlib.Core.Option.{some-injective}

first_four :
    (a b c d : ℕ) (p : List ℕ) → All IsByte (a ∷ b ∷ c ∷ d ∷ p) → All IsByte (a ∷ b ∷ c ∷ d ∷ [])
first_four a b c d p (h, (i, (j, (k, rest)))) = (h, (i, (j, (k, tt))))

mix_loop-mix_all :
    (p rest : List ℕ) (h : ℕ)
    → All IsByte p
    → (mix_words (p ++ rest) (length p) h >>= λ (input, left, k). mix_rest input left k)
      ≡ some (mix_all h p)
unfolding mix_word mix_words mix_rest case_one case_two case_three
mix_loop-mix_all [] rest h ok = refl
mix_loop-mix_all (a ∷ []) rest h ok = ap (λ t. some (bit_xor t (t / 2 ^ 24))) (omega arith)
mix_loop-mix_all (a ∷ b ∷ []) rest h ok = ap (λ t. some (bit_xor t (t / 2 ^ 24))) (omega arith)
mix_loop-mix_all (a ∷ b ∷ c ∷ []) rest h ok = ap (λ t. some (bit_xor t (t / 2 ^ 24))) (omega arith)
mix_loop-mix_all (a ∷ b ∷ c ∷ d ∷ p) rest h ok =
    rw (decode_fixed32-from a b c d (p ++ rest) (first_four a b c d p ok)) (
      mix_loop-mix_all p rest _ ok.1.1.1.1
      ∙ ap (λ t. some (mix_all (bit_xor t (t / 2 ^ 16)) p)) (omega arith))

-- For every `p` of bytes and every uint32_t seed, Hash mixes the numbers of its groups of 4 bytes and
-- that of the 1 to 3 bytes behind them, lowest byte first, into the start value, and reads no byte
-- behind `p`.
pub hash-mix_all :
    (p rest : List ℕ) (seed : ℕ)
    → All IsByte p
    → IsU32 seed
    → hash (p ++ rest) (length p) seed ≡ some (mix_all (start (length p) seed) p)
unfolding hash
hash-mix_all p rest seed ok fits =
    let own : seed % 2 ^ 32 ≡ seed = omega arith in
    let cut : u64 (length p * multiplier) % 2 ^ 32 ≡ length p * multiplier % 2 ^ 32 = omega arith in
    let e : u32 (bit_xor seed (u64 (length p * multiplier))) ≡ start (length p) seed =
      xor-mod 32 seed (u64 (length p * multiplier))
      ∙ ap (λ t. bit_xor t (u64 (length p * multiplier) % 2 ^ 32)) own
      ∙ ap (bit_xor seed) cut in
    rw e (mix_loop-mix_all p rest (start (length p) seed) ok)

hash-whole :
    (p : List ℕ) (seed : ℕ)
    → All IsByte p
    → IsU32 seed
    → hash p (length p) seed ≡ some (mix_all (start (length p) seed) p)
hash-whole p seed ok fits =
    ap (λ t. hash t (length p) seed) (sym (append-nil p)) ∙ hash-mix_all p [] seed ok fits

-- Under one seed Hash gives two byte strings of one length different hashes if they differ only
-- within a group of 4 bytes that starts at a multiple of 4, or only within the bytes behind the last
-- group.
pub hash-group_injective :
    (front p q back : List ℕ) (seed : ℕ)
    → All IsByte (front ++ (p ++ back))
    → All IsByte (front ++ (q ++ back))
    → IsU32 seed
    → length front % 4 ≡ 0
    → length p ≡ length q
    → length p ≡ min 4 (length p + length back)
    → hash (front ++ (p ++ back)) (length (front ++ (p ++ back))) seed
      ≡ hash (front ++ (q ++ back)) (length (front ++ (q ++ back))) seed
    → p ≡ q
hash-group_injective front p q back seed hp hq fits whole len group e =
    let bytes_p : All IsByte (p ++ back) = (All-part IsByte front (p ++ back) hp).1 in
    let bytes_q : All IsByte (q ++ back) = (All-part IsByte front (q ++ back) hq).1 in
    let n : ℕ = length (front ++ (p ++ back)) in
    let (k, fits_k, after) = mix_all-append front (start n seed) whole (start-IsU32 n seed fits) in
    let same : n ≡ length (front ++ (q ++ back)) = omega (
      arith,
      length-append front (p ++ back),
      length-append p back,
      length-append front (q ++ back),
      length-append q back,
    ) in
    group_injective p q back k (All-part IsByte p back bytes_p).0 (All-part IsByte q back bytes_q).0
      len group
      (sym (after (p ++ back))
        ∙ some-injective _ _ (
            sym (hash-whole (front ++ (p ++ back)) seed hp fits)
            ∙ e
            ∙ hash-whole (front ++ (q ++ back)) seed hq fits)
        ∙ ap (λ t. mix_all (start t seed) (front ++ (q ++ back))) (sym same)
        ∙ after (q ++ back))

-- For one byte string Hash gives two seeds different hashes.
pub hash-seed_injective :
    (p : List ℕ) (s t : ℕ)
    → All IsByte p
    → IsU32 s
    → IsU32 t
    → hash p (length p) s ≡ hash p (length p) t
    → s ≡ t
hash-seed_injective p s t ok hs ht e = xor_cancel s t (length p * multiplier % 2 ^ 32) (
    mix_all_injective p _ _ (start-IsU32 (length p) s hs) (start-IsU32 (length p) t ht)
      (some-injective _ _ (sym (hash-whole p s ok hs) ∙ e ∙ hash-whole p t ok ht)))
