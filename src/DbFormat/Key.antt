-- ===== src/DbFormat/Key.antt =====
-- The encoding of internal keys, and the parts of one.
pub mod Parse
pub mod Object
use distributed_kvstorage.Common.{
  ℕ, ◌+◌, ◌-◌, ◌*◌, ◌/◌, ◌%◌, ◌^◌, ◌≤◌, ◌<◌, ◌≡◌, ◌↔◌, refl, sym, ap, ap₂, ◌∙◌, Bool, true, false,
  some, List, [], ◌++◌, append-nil, append_assoc, length, take, drop, ltb, leb, leb→le, subst,
  ◌>>=◌, length-append, take-append, drop-append, take-append-drop, length-drop, All, All-take,
  All-drop, take_all, IsByte, IsU64, arith,
}
use distributed_kvstorage.Common.Bits.{and_mask, shifted_or}
use distributed_kvstorage.Slice.{Slice, size}
use distributed_kvstorage.Coding.Bytes.{little_endian}
use distributed_kvstorage.Coding.Fixed.{
  put_fixed64-little_endian, decode_fixed64-little_endian, little_endian-take,
}
use distributed_kvstorage.DbFormat.{
  ValueType, type_deletion, type_value, unnamed, code, is_named, to_value_type, ParsedInternalKey,
  pack_sequence_and_type, append_internal_key, extract_user_key, trailer, parse_internal_key,
}
use mathlib.Core.Option.{some-injective}
use native.Mathlib.Decide.{dec_le}

-- The number in the trailer of a key.
abbrev pub packed : ℕ → ValueType → ℕ
packed seq t = seq * 256 + code t

-- What the encoder asks of a key: a sequence number of 56 bits, a kind with a name, and bytes.
pub record IsKey (key : ParsedInternalKey) : Type 0 where
  pub sequence : key.sequence < 2 ^ 56
  pub type : is_named key.type ≡ true
  pub user_key : All IsByte key.user_key

pub named_code : (t : ValueType) → is_named t ≡ true → code t < 2
named_code type_deletion h = omega arith
named_code type_value h = omega arith
named_code (unnamed c) h = cc

-- On sequence numbers of 56 bits and named kinds, PackSequenceAndType gives the number with the
-- sequence above the byte of the kind.
pub pack_sequence_and_type-packed :
    (seq : ℕ) (t : ValueType)
    → seq < 2 ^ 56
    → is_named t ≡ true
    → pack_sequence_and_type seq t ≡ some (packed seq t)
unfolding pack_sequence_and_type
pack_sequence_and_type-packed seq t h named =
    ground (arith, named_code t named, shifted_or 8 seq (code t))

-- AppendInternalKey appends the user key and the 8 bytes of the packed number, lowest first.
pub append_internal_key-bytes :
    (dst : List ℕ) (key : ParsedInternalKey)
    → IsKey key
    → append_internal_key dst key
      ≡ some (dst ++ (key.user_key ++ little_endian 8 (packed key.sequence key.type)))
unfolding append_internal_key
append_internal_key-bytes dst key is =
    rw
      (
        pack_sequence_and_type-packed key.sequence key.type is.sequence is.type,
        put_fixed64-little_endian,
        append_assoc,
      )
      refl

-- The two parts of an encoded key.
module _ (u : Slice) (num : ℕ) where
  pub size-key : length (u ++ little_endian 8 num) ≡ length u + 8
  size-key = length-append u (little_endian 8 num)

  pub cut-key : length (u ++ little_endian 8 num) - 8 ≡ length u
  cut-key = rw size-key (omega arith)

  pub extract_user_key-key : extract_user_key (u ++ little_endian 8 num) ≡ some u
  unfolding extract_user_key
  extract_user_key-key =
      let enough : leb 8 (length (u ++ little_endian 8 num)) ≡ true = rw size-key (ground arith) in
      rw (enough, cut-key, take-append u (little_endian 8 num))

  pub trailer-key : IsU64 num → trailer (u ++ little_endian 8 num) ≡ some num
  unfolding trailer
  trailer-key h =
      rw (cut-key, drop-append u (little_endian 8 num))
        (rw append-nil at (decode_fixed64-little_endian num [] h))

-- The packed number and its parts.
pub packed-lt : (key : ParsedInternalKey) → IsKey key → IsU64 (packed key.sequence key.type)
packed-lt key is = omega (arith, is.sequence, named_code key.type is.type)

pub to_value_type-code : (t : ValueType) → is_named t ≡ true → to_value_type (code t) ≡ t
to_value_type-code type_deletion h = refl
to_value_type-code type_value h = refl
to_value_type-code (unnamed c) h = cc

pub code-to_value_type : (c : ℕ) → code (to_value_type c) ≡ c
code-to_value_type c = ground arith

pub named-to_value_type : (c : ℕ) → c ≤ 1 → is_named (to_value_type c) ≡ true
named-to_value_type c h = ground arith

-- The last 8 bytes of a string, given as the bytes of a number.
tail_bytes :
    (k : Slice) (num : ℕ)
    → 8 ≤ length k
    → little_endian 8 num ≡ take 8 (drop (length k - 8) k)
    → k ≡ take (length k - 8) k ++ little_endian 8 num
tail_bytes k num enough front =
    sym (take-append-drop n k)
    ∙ ap (λ t. take n k ++ t) (sym (front ∙ take_all 8 (drop n k) (rw length-drop (omega arith))))
  where
    n : ℕ
    n = length k - 8

-- A string that is long enough for an internal key, of any content.
abbrev pub IsInternal : Slice → Type 0
IsInternal k = All IsByte k × (8 ≤ length k)

-- The user key of a string and the number in its last 8 bytes.
pub record Parts (k : Slice) : Type 0 where
  pub user : Slice
  pub num : ℕ
  pub fits : IsU64 num
  pub bytes : All IsByte user
  pub whole : k ≡ user ++ little_endian 8 num

pub split_key : (k : Slice) → IsInternal k → Parts k
split_key k h = found (little_endian-take 8 (drop n k) (All-drop IsByte n k h.0) long)
  where
    n : ℕ
    n = length k - 8

    long : 8 ≤ length (drop n k)
    long = rw length-drop (omega arith)

    found :
        ((num : ℕ) × (num < 256 ^ 8)
          × (little_endian 8 num ≡ take 8 (drop n k))
          × (little_endian 8 num ++ drop 8 (drop n k) ≡ drop n k))
        → Parts k
    found (num, fits, front, _) = record {
      user = take n k;
      num = num;
      fits = fits;
      bytes = All-take IsByte n k h.0;
      whole = tail_bytes k num h.1 front;
    }
