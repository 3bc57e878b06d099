-- ===== src/Tests/Codings.antt =====
-- Fixed and variable length integers: runs, and the theorems at concrete inputs.
use distributed_kvstorage.Coding.RoundTrip.{get_varint64-put_varint64}
use distributed_kvstorage.Common.{◌≡◌, refl, none, some, [], ◌∷◌, ◌++◌, ◌>>=◌, arith}
use distributed_kvstorage.Slice.{size}
use distributed_kvstorage.Coding.{
  buffer, encode_varint32, encode_varint64, put_varint32, put_varint64, varint_length, put_fixed32,
  get_varint32, get_varint64, put_length_prefixed_slice, get_length_prefixed_slice,
}
use distributed_kvstorage.Coding.Encode.{encode_varint32-eq-encode_varint64}
use distributed_kvstorage.Coding.Decode.{scan, cut, get_varint32-scan, get_varint64-scan}
use distributed_kvstorage.Coding.RoundTrip.{get_length_prefixed_slice-put, get_varint32-prefix}

put_300 : put_varint32 [] 300 ≡ some (0xac ∷ 0x02 ∷ [])
unfolding put_varint32
put_300 = refl

put_300_wide : put_varint64 [] 300 ≡ some (0xac ∷ 0x02 ∷ [])
unfolding put_varint64
put_300_wide = refl

-- An array of one byte is too small for 300.
encode_overrun : encode_varint32 (buffer 1) 300 ≡ none
unfolding encode_varint32
encode_overrun = refl

length_300 : varint_length 300 ≡ 2
unfolding varint_length
length_300 = refl

put_word : put_fixed32 [] 0x0403_0201 ≡ some (1 ∷ 2 ∷ 3 ∷ 4 ∷ [])
unfolding put_fixed32
put_word = refl

-- Five bytes that spell more than 32 bits are accepted, and the top is cut off.
get_too_wide : get_varint32 (0xff ∷ 0xff ∷ 0xff ∷ 0xff ∷ 0x1f ∷ []) ≡ some (0xffff_ffff, [])
unfolding get_varint32
get_too_wide = refl

-- A length that is too large for the rest is refused, and the input has moved behind the length.
get_cut_slice : get_length_prefixed_slice (5 ∷ 1 ∷ 2 ∷ []) ≡ some (none, 1 ∷ 2 ∷ [])
unfolding get_length_prefixed_slice get_varint32
get_cut_slice = refl

encode_varint32-eq-encode_varint64_example :
    encode_varint32 (buffer 1) 300 ≡ encode_varint64 (buffer 1) 300
encode_varint32-eq-encode_varint64_example =
    encode_varint32-eq-encode_varint64 (buffer 1) 300 (omega arith)

get_varint32-scan_example :
    get_varint32 (0xff ∷ 0xff ∷ 0xff ∷ 0xff ∷ 0x1f ∷ 7 ∷ [])
    ≡ cut 32 (scan 5 (0xff ∷ 0xff ∷ 0xff ∷ 0xff ∷ 0x1f ∷ 7 ∷ []))
get_varint32-scan_example =
    get_varint32-scan (0xff ∷ 0xff ∷ 0xff ∷ 0xff ∷ 0x1f ∷ 7 ∷ []) (omega arith)

get_varint64-scan_example : get_varint64 (0xac ∷ 2 ∷ 7 ∷ []) ≡ cut 64 (scan 10 (0xac ∷ 2 ∷ 7 ∷ []))
get_varint64-scan_example = get_varint64-scan (0xac ∷ 2 ∷ 7 ∷ []) (omega arith)

get_length_prefixed_slice-put_example :
    (put_length_prefixed_slice [] (1 ∷ 2 ∷ []) >>= λ bytes.
    get_length_prefixed_slice (bytes ++ (7 ∷ [])))
    ≡ some (some (1 ∷ 2 ∷ []), 7 ∷ [])
unfolding size
get_length_prefixed_slice-put_example =
    get_length_prefixed_slice-put (1 ∷ 2 ∷ []) (7 ∷ []) (omega arith) (omega arith) (omega arith)

get_varint32-prefix_example : get_varint32 (0xac ∷ []) ≡ none
get_varint32-prefix_example =
    get_varint32-prefix 300 2 (0xac ∷ []) [] (omega arith) (omega arith) put_300

get_varint64-put_varint64_example :
    (put_varint64 [] 300 >>= λ bytes. get_varint64 (bytes ++ (7 ∷ []))) ≡ some (300, 7 ∷ [])
get_varint64-put_varint64_example =
    get_varint64-put_varint64 300 (7 ∷ []) (omega arith) (omega arith)
