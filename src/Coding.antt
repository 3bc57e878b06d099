-- ===== src/Coding.antt =====
-- src/util/coding.h and src/util/coding.cc: fixed and variable length integers. A `std::string` is
-- the list of its bytes, and a pointer that is read is the list of the bytes from it to the limit.
pub mod Bytes
pub mod Encode
pub mod Decode
pub mod Fixed
pub mod RoundTrip
use distributed_kvstorage.Common.{
  ℕ, zero, suc, ◌+◌, ◌/◌, ◌^◌, ◌<◌, bit_and, bit_or, Bool, Option, none, some, List, [], ◌∷◌, ◌++◌,
  length, get_elem?, take, drop, ltb, leb, ◌==◌, if◌then◌else◌, ◌>>=◌, u8, u32, u64, ◌<<<◌, ◌>>>◌,
  lt_wf, arith,
}
use distributed_kvstorage.Slice.{Slice, size, remove_prefix}
use mathlib.Core.Logic.{dite}
use mathlib.Core.WellFounded.{Acc}
use native.Mathlib.Decide.{dec_lt}

-- A `char*` that is written through: the bytes between the start of its buffer and itself, and the
-- number of bytes from it to the end of the buffer.
pub record Cursor : Type 0 where
  pub out : List ℕ
  pub room : ℕ

abbrev pub cursor : List ℕ → ℕ → Cursor
cursor out room = record { out = out; room = room }

-- The start of a local array, `char buf[n]`.
abbrev pub buffer : ℕ → Cursor
buffer n = cursor [] n

abbrev store_at : List ℕ → ℕ → ℕ → Option Cursor
store_at out zero b = none
store_at out (suc room) b = some (cursor (out ++ (b ∷ [])) room)

-- `*(ptr++) = b` with the cast of `b` to a byte; `none` is a write behind the end of the buffer.
unfoldable pub store : Cursor → ℕ → Option Cursor
store dst b = store_at dst.out dst.room (u8 b)

unfoldable pub encode_varint32 : Cursor → ℕ → Option Cursor
unfolding store
encode_varint32 dst value =
    if ltb value (1 <<< 7)
    then store dst value
    else if ltb value (1 <<< 14)
    then (do dst ← store dst (bit_or value 128); store dst (value >>> 7))
    else if ltb value (1 <<< 21)
    then (do
      dst ← store dst (bit_or value 128)
      dst ← store dst (bit_or (value >>> 7) 128)
      store dst (value >>> 14))
    else if ltb value (1 <<< 28)
    then (do
      dst ← store dst (bit_or value 128)
      dst ← store dst (bit_or (value >>> 7) 128)
      dst ← store dst (bit_or (value >>> 14) 128)
      store dst (value >>> 21))
    else (do
      dst ← store dst (bit_or value 128)
      dst ← store dst (bit_or (value >>> 7) 128)
      dst ← store dst (bit_or (value >>> 14) 128)
      dst ← store dst (bit_or (value >>> 21) 128)
      store dst (value >>> 28))

-- Each round writes a byte, so the loop recurs on the room that is left. Without room the next
-- write, in the loop or behind it, is out of bounds.
encode_varint64_loop : (room : ℕ) → List ℕ → ℕ → Option Cursor
encode_varint64_loop zero out value = none
encode_varint64_loop (suc room) out value =
    let more = encode_varint64_loop room (out ++ (u8 (bit_or value 128) ∷ [])) (value >>> 7) in
    if leb 128 value then more else some (cursor (out ++ (u8 value ∷ [])) room)

unfoldable pub encode_varint64 : Cursor → ℕ → Option Cursor
unfolding encode_varint64_loop
encode_varint64 dst value = encode_varint64_loop dst.room dst.out value

-- The cursor comes back behind the bytes written, where the callers put it.
unfoldable pub encode_fixed32 : Cursor → ℕ → Option Cursor
unfolding store
encode_fixed32 dst value = do
  dst ← store dst value
  dst ← store dst (value >>> 8)
  dst ← store dst (value >>> 16)
  store dst (value >>> 24)

unfoldable pub encode_fixed64 : Cursor → ℕ → Option Cursor
unfolding store
encode_fixed64 dst value = do
  dst ← store dst value
  dst ← store dst (value >>> 8)
  dst ← store dst (value >>> 16)
  dst ← store dst (value >>> 24)
  dst ← store dst (value >>> 32)
  dst ← store dst (value >>> 40)
  dst ← store dst (value >>> 48)
  store dst (value >>> 56)

unfoldable pub put_fixed32 : List ℕ → ℕ → Option (List ℕ)
unfolding encode_fixed32
put_fixed32 dst value = do buf ← encode_fixed32 (buffer 4) value; some (dst ++ buf.out)

unfoldable pub put_fixed64 : List ℕ → ℕ → Option (List ℕ)
unfolding encode_fixed64
put_fixed64 dst value = do buf ← encode_fixed64 (buffer 8) value; some (dst ++ buf.out)

unfoldable pub put_varint32 : List ℕ → ℕ → Option (List ℕ)
unfolding encode_varint32
put_varint32 dst value = do buf ← encode_varint32 (buffer 5) value; some (dst ++ buf.out)

unfoldable pub put_varint64 : List ℕ → ℕ → Option (List ℕ)
unfolding encode_varint64
put_varint64 dst value = do buf ← encode_varint64 (buffer 10) value; some (dst ++ buf.out)

-- The size is cast to the parameter's uint32_t.
unfoldable pub put_length_prefixed_slice : List ℕ → Slice → Option (List ℕ)
unfolding size
put_length_prefixed_slice dst value = do
  dst ← put_varint32 dst (u32 (size value))
  some (dst ++ value)

-- `none` is a read behind the end.
unfoldable pub decode_fixed32 : List ℕ → Option ℕ
decode_fixed32 p = do
  b0 ← get_elem? p 0
  b1 ← get_elem? p 1
  b2 ← get_elem? p 2
  b3 ← get_elem? p 3
  some (bit_or (bit_or (bit_or b0 (u32 (b1 <<< 8))) (u32 (b2 <<< 16))) (u32 (b3 <<< 24)))

unfoldable pub decode_fixed64 : List ℕ → Option ℕ
decode_fixed64 p = do
  b0 ← get_elem? p 0
  b1 ← get_elem? p 1
  b2 ← get_elem? p 2
  b3 ← get_elem? p 3
  b4 ← get_elem? p 4
  b5 ← get_elem? p 5
  b6 ← get_elem? p 6
  b7 ← get_elem? p 7
  let low = bit_or (bit_or (bit_or b0 (u64 (b1 <<< 8))) (u64 (b2 <<< 16))) (u64 (b3 <<< 24))
  let mid = bit_or (bit_or low (u64 (b4 <<< 32))) (u64 (b5 <<< 40))
  some (bit_or (bit_or mid (u64 (b6 <<< 48))) (u64 (b7 <<< 56)))

-- The loop at `shift`. The result is the value and the pointer that is returned; `none` is nullptr.
varint32_loop : List ℕ → ℕ → ℕ → Option (ℕ × List ℕ)
varint32_loop [] shift result = none
varint32_loop (byte ∷ p) shift result =
    let more = varint32_loop p (shift + 7) (bit_or result (u32 (bit_and byte 127 <<< shift))) in
    let done = some (bit_or result (u32 (byte <<< shift)), p) in
    if leb shift 28 then (if bit_and byte 128 == 0 then done else more) else none

unfoldable pub get_varint32_ptr_fallback : List ℕ → Option (ℕ × List ℕ)
unfolding varint32_loop
get_varint32_ptr_fallback p = varint32_loop p 0 0

unfoldable pub get_varint32_ptr : List ℕ → Option (ℕ × List ℕ)
unfolding get_varint32_ptr_fallback
get_varint32_ptr [] = get_varint32_ptr_fallback []
get_varint32_ptr (result ∷ p) =
    if bit_and result 128 == 0 then some (result, p) else get_varint32_ptr_fallback (result ∷ p)

varint64_loop : List ℕ → ℕ → ℕ → Option (ℕ × List ℕ)
varint64_loop [] shift result = none
varint64_loop (byte ∷ p) shift result =
    let more = varint64_loop p (shift + 7) (bit_or result (u64 (bit_and byte 127 <<< shift))) in
    let done = some (bit_or result (u64 (byte <<< shift)), p) in
    if leb shift 63 then (if bit_and byte 128 == 0 then done else more) else none

unfoldable pub get_varint64_ptr : List ℕ → Option (ℕ × List ℕ)
unfolding varint64_loop
get_varint64_ptr p = varint64_loop p 0 0

-- `some` is true with the value and the new input; `none` is false, and the input is left alone.
unfoldable pub get_varint32 : Slice → Option (ℕ × Slice)
unfolding get_varint32_ptr
get_varint32 input = do (value, q) ← get_varint32_ptr input; some (value, q)

unfoldable pub get_varint64 : Slice → Option (ℕ × Slice)
unfolding get_varint64_ptr
get_varint64 input = do (value, q) ← get_varint64_ptr input; some (value, q)

-- The result, which is `none` for false, and the input after the call. The outer `none` would be a
-- failed assertion of `removePrefix`.
unfoldable pub get_length_prefixed_slice : Slice → Option (Option Slice × Slice)
unfolding size remove_prefix
get_length_prefixed_slice input = elim (get_varint32 input) [
  | none ↦ some (none, input)
  | some (len, rest) ↦
      if leb len (size rest)
      then (do rest' ← remove_prefix len rest; some (some (take len rest), rest'))
      else some (none, rest)
]

varint_length_loop : (len v : ℕ) → Acc ◌<◌ v → ℕ
varint_length_loop len v (Acc.intro _ smaller) =
    dite (dec_lt v 128) (λ _. len)
      (λ more. varint_length_loop (len + 1) (v >>> 7) (smaller (v >>> 7) (omega arith)))

unfoldable pub varint_length : ℕ → ℕ
unfolding varint_length_loop lt_wf dec_lt
varint_length v = varint_length_loop 1 v (lt_wf.apply v)
