-- ===== src/Coding/RoundTrip.antt =====
-- What was put is got back, and input that is cut short is refused.
use distributed_kvstorage.Common.{
  ℕ, zero, suc, ◌/◌, ◌^◌, ◌<◌, ◌≡◌, ◌≢◌, refl, ◌∙◌, ap, sym, none, some, List, [], ◌∷◌, ◌++◌,
  append_assoc, length, All, All-append, IsByte, IsU32, IsU64, ◌>>=◌, u32, take-append, drop-append,
  length-append, arith,
}
use distributed_kvstorage.Slice.{Slice, size}
use distributed_kvstorage.Coding.{
  get_varint32, get_varint64, put_varint32, put_varint64, get_length_prefixed_slice,
  put_length_prefixed_slice,
}
use distributed_kvstorage.Coding.Bytes.{varint, group-lt, varint-IsByte}
use distributed_kvstorage.Coding.Encode.{put_varint32-varint, put_varint64-varint}
use distributed_kvstorage.Coding.Decode.{scan, cut, get_varint32-scan, get_varint64-scan}
use mathlib.Core.Option.{some-injective}

scan-varint :
    (k v : ℕ) (rest : List ℕ)
    → v < 128 ^ suc k
    → scan (suc k) (varint (suc k) v ++ rest) ≡ some (v, rest)
unfolding scan varint
scan-varint zero v rest h = ground arith
scan-varint (suc k) v rest h = ground (arith, scan-varint k (v / 128) rest (group-lt (suc k) v h))

get_varint32-varint :
    (v : ℕ) (rest : Slice)
    → IsU32 v
    → All IsByte rest
    → get_varint32 (varint 5 v ++ rest) ≡ some (v, rest)
get_varint32-varint v rest h bytes =
    get_varint32-scan _ (All-append IsByte _ rest (varint-IsByte 5 v (omega arith)) bytes)
    ∙ ap (cut 32) (scan-varint 4 v rest (omega arith))
    ∙ ap (λ t. some (t, rest)) (omega arith)

-- GetVarint32 reads back a uint32_t that PutVarint32 appended, and leaves the bytes that follow.
get_varint32-put_varint32 :
    (v : ℕ) (rest : Slice)
    → IsU32 v
    → All IsByte rest
    → (put_varint32 [] v >>= λ bytes. get_varint32 (bytes ++ rest)) ≡ some (v, rest)
get_varint32-put_varint32 v rest h bytes =
    rw (put_varint32-varint [] v h) (get_varint32-varint v rest h bytes)

-- GetVarint64 reads back a uint64_t that PutVarint64 appended, and leaves the bytes that follow.
pub get_varint64-put_varint64 :
    (v : ℕ) (rest : Slice)
    → IsU64 v
    → All IsByte rest
    → (put_varint64 [] v >>= λ bytes. get_varint64 (bytes ++ rest)) ≡ some (v, rest)
get_varint64-put_varint64 v rest h bytes = rw (put_varint64-varint [] v h) (
    get_varint64-scan _ (All-append IsByte _ rest (varint-IsByte 10 v (omega arith)) bytes)
    ∙ ap (cut 64) (scan-varint 9 v rest (omega arith))
    ∙ ap (λ t. some (t, rest)) (omega arith))

-- PutLengthPrefixedSlice never leaves its array; a slice of less than 2^32 bytes follows its length.
put_length_prefixed_slice-varint :
    (dst : List ℕ) (s : Slice)
    → IsU32 (size s)
    → put_length_prefixed_slice dst s ≡ some ((dst ++ varint 5 (length s)) ++ s)
unfolding put_length_prefixed_slice
put_length_prefixed_slice-varint dst s h =
    let e : u32 (length s) ≡ length s = omega arith in
    rw (e, put_varint32-varint dst (length s) h) refl

pub get_length_prefixed_slice-varint :
    (s rest : Slice)
    → IsU32 (size s)
    → All IsByte s
    → All IsByte rest
    → get_length_prefixed_slice (varint 5 (length s) ++ (s ++ rest)) ≡ some (some s, rest)
unfolding get_length_prefixed_slice
get_length_prefixed_slice-varint s rest h bs br =
    rw
      (
        get_varint32-varint (length s) (s ++ rest) h (All-append IsByte s rest bs br),
        get_length_prefixed_slice,
      )
      (ground (arith, length-append s rest, take-append s rest, drop-append s rest))

-- GetLengthPrefixedSlice reads back a slice of less than 2^32 bytes that PutLengthPrefixedSlice
-- appended, and leaves the bytes that follow.
pub get_length_prefixed_slice-put :
    (s rest : Slice)
    → IsU32 (size s)
    → All IsByte s
    → All IsByte rest
    → (put_length_prefixed_slice [] s >>= λ bytes. get_length_prefixed_slice (bytes ++ rest))
      ≡ some (some s, rest)
get_length_prefixed_slice-put s rest h bs br =
    rw (put_length_prefixed_slice-varint [] s h, append_assoc)
      (get_length_prefixed_slice-varint s rest h bs br)

nil-ne-append : (x : ℕ) (front back : List ℕ) → [] ≢ front ++ (x ∷ back)
nil-ne-append x [] back e = cc
nil-ne-append x (b ∷ front) back e = cc

scan-prefix :
    (n k v x : ℕ) (front back : List ℕ)
    → v < 128 ^ suc k
    → varint (suc k) v ≡ front ++ (x ∷ back)
    → scan n front ≡ none
unfolding scan varint
scan-prefix zero k v x front back h e = refl
scan-prefix (suc n) k v x [] back h e = refl
scan-prefix (suc n) zero v x (b ∷ front) back h e = ground (arith, nil-ne-append x front back)
scan-prefix (suc n) (suc k) v x (b ∷ front) back h e = ground (
  arith,
  scan-prefix n k (v / 128) x front back (group-lt (suc k) v h),
  nil-ne-append x front back,
)

-- GetVarint32 refuses every proper prefix of what PutVarint32 wrote for a uint32_t.
pub get_varint32-prefix :
    (v x : ℕ) (front back : List ℕ)
    → IsU32 v
    → All IsByte front
    → put_varint32 [] v ≡ some (front ++ (x ∷ back))
    → get_varint32 front ≡ none
get_varint32-prefix v x front back h bytes e =
    get_varint32-scan front bytes
    ∙ ap (cut 32) (scan-prefix 5 4 v x front back (omega arith) written)
  where
    written : varint 5 v ≡ front ++ (x ∷ back)
    written = some-injective _ _ (sym (put_varint32-varint [] v h) ∙ e)

-- GetVarint64 refuses every proper prefix of what PutVarint64 wrote for a uint64_t.
get_varint64-prefix :
    (v x : ℕ) (front back : List ℕ)
    → IsU64 v
    → All IsByte front
    → put_varint64 [] v ≡ some (front ++ (x ∷ back))
    → get_varint64 front ≡ none
get_varint64-prefix v x front back h bytes e =
    get_varint64-scan front bytes
    ∙ ap (cut 64) (scan-prefix 10 9 v x front back (omega arith) written)
  where
    written : varint 10 v ≡ front ++ (x ∷ back)
    written = some-injective _ _ (sym (put_varint64-varint [] v h) ∙ e)
