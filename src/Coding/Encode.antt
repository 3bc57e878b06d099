-- ===== src/Coding/Encode.antt =====
-- The variable length encoders.
use distributed_kvstorage.Common.{
  ℕ, zero, suc, ◌+◌, ◌-◌, ◌/◌, ◌%◌, ◌^◌, ◌≤◌, ◌<◌, ◌≡◌, refl, sym, ◌∙◌, some, List, [], ◌∷◌, ◌++◌,
  append_assoc, length, All, IsByte, IsU32, IsU64, lt_wf, arith,
}
use distributed_kvstorage.Common.Bits.{set_flag}
use distributed_kvstorage.Coding.{
  Cursor, cursor, encode_varint32, encode_varint64_loop, encode_varint64, put_varint32,
  put_varint64, varint_length_loop, varint_length,
}
use distributed_kvstorage.Coding.Bytes.{varint, varint-IsByte, length-varint_bounds, group-lt}
use mathlib.Core.WellFounded.{Acc}

-- The loop writes the groups of `v` behind `out`.
encode_varint64_loop-varint :
    (k room : ℕ) (out : List ℕ) (v : ℕ)
    → v < 128 ^ suc k
    → suc k ≤ room
    → encode_varint64_loop room out v
      ≡ some (cursor (out ++ varint (suc k) v) (room - length (varint (suc k) v)))
unfolding encode_varint64_loop varint
encode_varint64_loop-varint k zero out v h fits = absurd (omega arith)
encode_varint64_loop-varint zero (suc room) out v h fits = ground arith
encode_varint64_loop-varint (suc k) (suc room) out v h fits = ground (
  arith,
  set_flag v,
  encode_varint64_loop-varint k room (out ++ ((v % 128 + 128) ∷ [])) (v / 128)
      (group-lt (suc k) v h) (omega arith),
  append_assoc out ((v % 128 + 128) ∷ []) (varint (suc k) (v / 128)),
)

-- The shifts of the unrolled encoder, as one shift by 7 after another.
shift_14 : (v : ℕ) → v / 128 / 128 ≡ v / 16384
shift_14 v = omega arith

shift_21 : (v : ℕ) → v / 128 / 128 / 128 ≡ v / 2097152
shift_21 v = omega arith

shift_28 : (v : ℕ) → v / 128 / 128 / 128 / 128 ≡ v / 268435456
shift_28 v = omega arith

unrolled-eq-loop :
    (room : ℕ) (out : List ℕ) (v : ℕ)
    → IsU32 v
    → encode_varint32 (cursor out room) v ≡ encode_varint64_loop room out v
unfolding encode_varint32 encode_varint64_loop
unrolled-eq-loop zero out v h = ground arith
unrolled-eq-loop (suc zero) out v h = ground arith
unrolled-eq-loop (suc (suc zero)) out v h = ground arith
unrolled-eq-loop (suc (suc (suc zero))) out v h = ground (arith, shift_14 v)
unrolled-eq-loop (suc (suc (suc (suc zero)))) out v h = ground (arith, shift_14 v, shift_21 v)
unrolled-eq-loop (suc (suc (suc (suc (suc room))))) out v h =
    ground (arith, shift_14 v, shift_21 v, shift_28 v)

-- The unrolled 32-bit encoder and the 64-bit loop do the same, in every buffer, on every uint32_t:
-- they write the same bytes, or both run over the end.
pub encode_varint32-eq-encode_varint64 :
    (dst : Cursor) (v : ℕ) → IsU32 v → encode_varint32 dst v ≡ encode_varint64 dst v
unfolding encode_varint64
encode_varint32-eq-encode_varint64 dst v h = unrolled-eq-loop dst.room dst.out v h

-- EncodeVarint32 into a buffer with room for 5 bytes.
pub encode_varint32-varint :
    (out : List ℕ) (room v : ℕ)
    → IsU32 v
    → 5 ≤ room
    → encode_varint32 (cursor out room) v
      ≡ some (cursor (out ++ varint 5 v) (room - length (varint 5 v)))
encode_varint32-varint out room v h enough =
    unrolled-eq-loop room out v h ∙ encode_varint64_loop-varint 4 room out v (omega arith) enough

-- PutVarint64 stays inside its array of 10 bytes and appends the groups of the value.
pub put_varint64-varint :
    (dst : List ℕ) (v : ℕ) → IsU64 v → put_varint64 dst v ≡ some (dst ++ varint 10 v)
unfolding put_varint64 encode_varint64
put_varint64-varint dst v h =
    rw (encode_varint64_loop-varint 9 10 [] v (omega arith) (omega arith)) refl

-- PutVarint32 stays inside its array of 5 bytes and appends the groups of the value.
pub put_varint32-varint :
    (dst : List ℕ) (v : ℕ) → IsU32 v → put_varint32 dst v ≡ some (dst ++ varint 5 v)
unfolding put_varint32 encode_varint64
put_varint32-varint dst v h =
    rw (unrolled-eq-loop 5 [] v h, encode_varint64_loop-varint 4 5 [] v (omega arith) (omega arith))
      refl

varint_length_loop-varint :
    (k len v : ℕ) (w : Acc ◌<◌ v)
    → v < 128 ^ suc k
    → varint_length_loop len v w + 1 ≡ len + length (varint (suc k) v)
unfolding varint_length_loop varint
varint_length_loop-varint zero len v (Acc.intro _ smaller) h = ground arith
varint_length_loop-varint (suc k) len v (Acc.intro _ smaller) h = grind (
  arith,
  λ (w : Acc ◌<◌ (v / 128)).
      varint_length_loop-varint k (len + 1) (v / 128) w (group-lt (suc k) v h),
)

-- VarintLength is the number of groups.
varint_length-varint : (k v : ℕ) → v < 128 ^ suc k → varint_length v ≡ length (varint (suc k) v)
unfolding varint_length
varint_length-varint k v h = omega (arith, varint_length_loop-varint k 1 v (lt_wf.apply v) h)

-- On every uint64_t PutVarint64 appends as many bytes as VarintLength says, 1 to 10, and never
-- leaves its array.
put_varint64-varint_length :
    (dst : List ℕ) (v : ℕ)
    → IsU64 v
    → (bytes : List ℕ) × (put_varint64 dst v ≡ some (dst ++ bytes))
      × All IsByte bytes
      × (length bytes ≡ varint_length v)
      × (1 ≤ varint_length v)
      × (varint_length v ≤ 10)
put_varint64-varint_length dst v fits =
    let h : v < 128 ^ 10 = omega arith in
    let e : varint_length v ≡ length (varint 10 v) = varint_length-varint 9 v h in
    (
      varint 10 v,
      put_varint64-varint dst v fits,
      varint-IsByte 10 v h,
      sym e,
      omega (arith, length-varint_bounds 9 v),
      omega (arith, length-varint_bounds 9 v),
    )

-- On every uint32_t PutVarint32 appends as many bytes as VarintLength says, 1 to 5, and never
-- leaves its array.
put_varint32-varint_length :
    (dst : List ℕ) (v : ℕ)
    → IsU32 v
    → (bytes : List ℕ) × (put_varint32 dst v ≡ some (dst ++ bytes))
      × All IsByte bytes
      × (length bytes ≡ varint_length v)
      × (1 ≤ varint_length v)
      × (varint_length v ≤ 5)
put_varint32-varint_length dst v fits =
    let h : v < 128 ^ 5 = omega arith in
    let e : varint_length v ≡ length (varint 5 v) = varint_length-varint 4 v h in
    (
      varint 5 v,
      put_varint32-varint dst v fits,
      varint-IsByte 5 v h,
      sym e,
      omega (arith, length-varint_bounds 4 v),
      omega (arith, length-varint_bounds 4 v),
    )
