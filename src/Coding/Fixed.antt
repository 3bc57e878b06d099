-- ===== src/Coding/Fixed.antt =====
-- The fixed length integers.
use distributed_kvstorage.Common.{
  ℕ, zero, suc, ◌+◌, ◌-◌, ◌*◌, ◌/◌, ◌%◌, ◌^◌, ◌≤◌, ◌<◌, ◌≡◌, refl, ◌∙◌, ap, some, List, [], ◌∷◌,
  ◌++◌, append_assoc, length, All, IsByte, IsU32, IsU64, ◌>>=◌, take, drop, arith,
}
use distributed_kvstorage.Common.Fields.{or_field}
use distributed_kvstorage.Coding.{
  cursor, encode_fixed64, put_fixed32, put_fixed64, decode_fixed32, decode_fixed64,
}
use distributed_kvstorage.Coding.Bytes.{little_endian, little_endian-IsByte}
use native.Mathlib.Nat.{pow-suc}

-- The bytes as the digits of a number in base 256, lowest first.
abbrev pub from_little_endian : List ℕ → ℕ
from_little_endian [] = 0
from_little_endian (b ∷ p) = b + from_little_endian p * 256

pub little_endian-from :
    (p : List ℕ) → All IsByte p → little_endian (length p) (from_little_endian p) ≡ p
little_endian-from [] h = refl
little_endian-from (b ∷ p) h =
    let low : (b + from_little_endian p * 256) % 256 ≡ b = omega arith in
    let high : (b + from_little_endian p * 256) / 256 ≡ from_little_endian p = omega arith in
    rw (low, high, little_endian-from p h.1)

from-little_endian : (k v : ℕ) → v < 256 ^ k → from_little_endian (little_endian k v) ≡ v
from-little_endian zero v h = omega arith
from-little_endian (suc k) v h =
    omega (arith, pow-suc 256 k, from-little_endian k (v / 256) (omega (arith, pow-suc 256 k)))

-- PutFixed32 appends the 4 bytes of the value, lowest first, and stays inside its array.
put_fixed32-little_endian :
    (dst : List ℕ) (v : ℕ) → put_fixed32 dst v ≡ some (dst ++ little_endian 4 v)
unfolding put_fixed32
put_fixed32-little_endian dst v = ground arith

-- PutFixed64 appends the 8 bytes of the value, lowest first, and stays inside its array.
pub put_fixed64-little_endian :
    (dst : List ℕ) (v : ℕ) → put_fixed64 dst v ≡ some (dst ++ little_endian 8 v)
unfolding put_fixed64
put_fixed64-little_endian dst v = ground arith

encode_fixed64_room :
    (out : List ℕ) (r v : ℕ)
    → encode_fixed64 (cursor out (suc (suc (suc (suc (suc (suc (suc (suc r))))))))) v
      ≡ some (cursor (out ++ little_endian 8 v) r)
unfolding encode_fixed64
encode_fixed64_room out r v = simp append_assoc (ground arith)

-- EncodeFixed64 into a buffer with room for 8 bytes.
pub encode_fixed64-little_endian :
    (out : List ℕ) (room v : ℕ)
    → 8 ≤ room
    → encode_fixed64 (cursor out room) v ≡ some (cursor (out ++ little_endian 8 v) (room - 8))
encode_fixed64-little_endian out room v h =
    let e : room ≡ suc (suc (suc (suc (suc (suc (suc (suc (room - 8)))))))) = omega arith in
    ap (λ t. encode_fixed64 (cursor out t) v) e ∙ encode_fixed64_room out (room - 8) v

pub decode_fixed32-from :
    (b0 b1 b2 b3 : ℕ) (rest : List ℕ)
    → All IsByte (b0 ∷ b1 ∷ b2 ∷ b3 ∷ [])
    → decode_fixed32 (b0 ∷ b1 ∷ b2 ∷ b3 ∷ rest) ≡ some (from_little_endian (b0 ∷ b1 ∷ b2 ∷ b3 ∷ []))
unfolding decode_fixed32
decode_fixed32-from b0 b1 b2 b3 rest h = ground (
  arith,
  or_field 32 8 b0 b1 (omega arith) (omega arith),
  or_field 32 16 (b0 + b1 * 2 ^ 8) b2 (omega arith) (omega arith),
  or_field 32 24 (b0 + b1 * 2 ^ 8 + b2 * 2 ^ 16) b3 (omega arith) (omega arith),
)

decode_fixed64-from :
    (b0 b1 b2 b3 b4 b5 b6 b7 : ℕ) (rest : List ℕ)
    → All IsByte (b0 ∷ b1 ∷ b2 ∷ b3 ∷ b4 ∷ b5 ∷ b6 ∷ b7 ∷ [])
    → decode_fixed64 (b0 ∷ b1 ∷ b2 ∷ b3 ∷ b4 ∷ b5 ∷ b6 ∷ b7 ∷ rest)
      ≡ some (from_little_endian (b0 ∷ b1 ∷ b2 ∷ b3 ∷ b4 ∷ b5 ∷ b6 ∷ b7 ∷ []))
unfolding decode_fixed64
decode_fixed64-from b0 b1 b2 b3 b4 b5 b6 b7 rest h =
    let s1 : ℕ = b0 + b1 * 2 ^ 8 in
    let s2 : ℕ = s1 + b2 * 2 ^ 16 in
    let s3 : ℕ = s2 + b3 * 2 ^ 24 in
    let s4 : ℕ = s3 + b4 * 2 ^ 32 in
    let s5 : ℕ = s4 + b5 * 2 ^ 40 in
    let s6 : ℕ = s5 + b6 * 2 ^ 48 in
    ground (
      arith,
      or_field 64 8 b0 b1 (omega arith) (omega arith),
      or_field 64 16 s1 b2 (omega arith) (omega arith),
      or_field 64 24 s2 b3 (omega arith) (omega arith),
      or_field 64 32 s3 b4 (omega arith) (omega arith),
      or_field 64 40 s4 b5 (omega arith) (omega arith),
      or_field 64 48 s5 b6 (omega arith) (omega arith),
      or_field 64 56 s6 b7 (omega arith) (omega arith),
    )

decode_fixed32-little_endian :
    (v : ℕ) (rest : List ℕ) → IsU32 v → decode_fixed32 (little_endian 4 v ++ rest) ≡ some v
decode_fixed32-little_endian v rest h =
    decode_fixed32-from _ _ _ _ rest (little_endian-IsByte 4 v) ∙ ap some (from-little_endian 4 v h)

pub decode_fixed64-little_endian :
    (v : ℕ) (rest : List ℕ) → IsU64 v → decode_fixed64 (little_endian 8 v ++ rest) ≡ some v
decode_fixed64-little_endian v rest h =
    decode_fixed64-from _ _ _ _ _ _ _ _ rest (little_endian-IsByte 8 v)
    ∙ ap some (from-little_endian 8 v h)

pub from_little_endian-lt : (p : List ℕ) → All IsByte p → from_little_endian p < 256 ^ length p
from_little_endian-lt [] h = omega arith
from_little_endian-lt (b ∷ p) h = omega (arith, pow-suc 256 (length p), from_little_endian-lt p h.1)

-- The first `k` bytes of an input as the little endian bytes of a number.
pub little_endian-take :
    (k : ℕ) (p : List ℕ)
    → All IsByte p
    → k ≤ length p
    → (v : ℕ) × (v < 256 ^ k) × (little_endian k v ≡ take k p) × (little_endian k v ++ drop k p ≡ p)
little_endian-take zero p h enough = (0, omega arith, refl, refl)
little_endian-take (suc k) [] h enough = absurd (omega arith)
little_endian-take (suc k) (b ∷ p) h enough =
    let (v, fits, front, whole) = little_endian-take k p h.1 (omega arith) in
    let low : (b + v * 256) % 256 ≡ b = omega arith in
    let high : (b + v * 256) / 256 ≡ v = omega arith in
    (b + v * 256, omega (arith, pow-suc 256 k, fits), rw (low, high, front), rw (low, high, whole))

-- DecodeFixed32 reads back a uint32_t that PutFixed32 put before any rest.
decode_fixed32-put_fixed32 :
    (v : ℕ) (rest : List ℕ)
    → IsU32 v
    → (put_fixed32 [] v >>= λ bytes. decode_fixed32 (bytes ++ rest)) ≡ some v
decode_fixed32-put_fixed32 v rest h =
    rw (put_fixed32-little_endian [] v) (decode_fixed32-little_endian v rest h)

-- From any 4 bytes or more DecodeFixed32 reads a uint32_t, without reading behind the end, and
-- PutFixed32 turns it into the first 4 bytes again.
put_fixed32-decode_fixed32 :
    (p : List ℕ)
    → All IsByte p
    → 4 ≤ length p
    → (v : ℕ) × (decode_fixed32 p ≡ some v) × IsU32 v × (put_fixed32 [] v ≡ some (take 4 p))
put_fixed32-decode_fixed32 p h enough =
    let (v, fits, front, whole) = little_endian-take 4 p h enough in
    let fits : v < 2 ^ 32 = omega arith in
    (
      v,
      rw whole at (decode_fixed32-little_endian v (drop 4 p) fits),
      fits,
      put_fixed32-little_endian [] v ∙ ap some front,
    )

-- DecodeFixed64 reads back a uint64_t that PutFixed64 put before any rest.
decode_fixed64-put_fixed64 :
    (v : ℕ) (rest : List ℕ)
    → IsU64 v
    → (put_fixed64 [] v >>= λ bytes. decode_fixed64 (bytes ++ rest)) ≡ some v
decode_fixed64-put_fixed64 v rest h =
    rw (put_fixed64-little_endian [] v) (decode_fixed64-little_endian v rest h)

-- From any 8 bytes or more DecodeFixed64 reads a uint64_t, without reading behind the end, and
-- PutFixed64 turns it into the first 8 bytes again.
put_fixed64-decode_fixed64 :
    (p : List ℕ)
    → All IsByte p
    → 8 ≤ length p
    → (v : ℕ) × (decode_fixed64 p ≡ some v) × IsU64 v × (put_fixed64 [] v ≡ some (take 8 p))
put_fixed64-decode_fixed64 p h enough =
    let (v, fits, front, whole) = little_endian-take 8 p h enough in
    let fits : v < 2 ^ 64 = omega arith in
    (
      v,
      rw whole at (decode_fixed64-little_endian v (drop 8 p) fits),
      fits,
      put_fixed64-little_endian [] v ∙ ap some front,
    )
