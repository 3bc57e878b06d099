-- ===== src/DbFormat/Key/Parse.antt =====
-- Parsing internal keys.
use distributed_kvstorage.Common.{
  ℕ, ◌/◌, ◌%◌, ◌≤◌, ◌≡◌, ◌↔◌, refl, sym, ap, ap₂, ◌∙◌, Bool, true, false, some, [], ◌++◌, length,
  ltb, leb, leb→le, subst, ◌>>=◌, take-append, All, IsByte, IsU64, arith,
}
use distributed_kvstorage.Common.Bits.{and_mask}
use distributed_kvstorage.Slice.{Slice, size}
use distributed_kvstorage.Coding.Bytes.{little_endian}
use distributed_kvstorage.DbFormat.{
  code, to_value_type, ParsedInternalKey, append_internal_key, parse_internal_key,
}
use mathlib.Core.Option.{some-injective}
use native.Mathlib.Decide.{dec_le}
use distributed_kvstorage.DbFormat.Key.{
  packed, IsKey, named_code, append_internal_key-bytes, trailer-key, size-key, cut-key, packed-lt,
  to_value_type-code, code-to_value_type, named-to_value_type, split_key,
}

-- What is parsed from a user key and a trailer.
abbrev pub parsed : Slice → ℕ → ParsedInternalKey
parsed u num = record { user_key = u; sequence = num / 256; type = to_value_type (num % 256) }

parse_internal_key-key :
    (u : Slice) (num : ℕ) (old : ParsedInternalKey)
    → IsU64 num
    → parse_internal_key (u ++ little_endian 8 num) old ≡ some (leb (num % 256) 1, parsed u num)
unfolding parse_internal_key
parse_internal_key-key u num old h =
    rw
      (
        short,
        cut-key u num,
        take-append u (little_endian 8 num),
        trailer-key u num h,
        and_mask 8 num,
      )
      refl
  where
    short : ltb (length (u ++ little_endian 8 num)) 8 ≡ false
    short = rw (size-key u num) (ground arith)

-- ParseInternalKey reads back a valid key that AppendInternalKey wrote, whatever `*result` held
-- before.
pub parse_internal_key-append :
    (key old : ParsedInternalKey)
    → IsKey key
    → (append_internal_key [] key >>= λ k. parse_internal_key k old) ≡ some (true, key)
parse_internal_key-append key old is = rw (append_internal_key-bytes [] key is) (
    parse_internal_key-key key.user_key (packed key.sequence key.type) old (packed-lt key is)
    ∙ ap₂ (λ b p. some (b, p)) named same)
  where
    tag : packed key.sequence key.type % 256 ≡ code key.type
    tag = omega (arith, named_code key.type is.type)

    named : leb (packed key.sequence key.type % 256) 1 ≡ true
    named = rw tag (ground (arith, named_code key.type is.type))

    seq : packed key.sequence key.type / 256 ≡ key.sequence
    seq = omega (arith, named_code key.type is.type)

    kind : to_value_type (packed key.sequence key.type % 256) ≡ key.type
    kind = ap to_value_type tag ∙ to_value_type-code key.type is.type

    same : parsed key.user_key (packed key.sequence key.type) ≡ key
    same = λ i. record { user_key = key.user_key; sequence = seq i; type = kind i }

parsed-IsKey :
    (u : Slice) (num : ℕ)
    → IsU64 num
    → All IsByte u
    → num % 256 ≤ 1
    → IsKey (parsed u num)
      × (append_internal_key [] (parsed u num) ≡ some (u ++ little_endian 8 num))
parsed-IsKey u num fits bytes kind = (
  is,
  append_internal_key-bytes [] (parsed u num) is ∙ ap (λ t. some (u ++ little_endian 8 t)) whole,
)
  where
    is : IsKey (parsed u num)
    is = record {
      sequence = omega arith;
      type = named-to_value_type (num % 256) kind;
      user_key = bytes;
    }

    whole : packed (num / 256) (to_value_type (num % 256)) ≡ num
    whole = omega (arith, code-to_value_type (num % 256))

parse_internal_key-true :
    (u : Slice) (num : ℕ) (old key : ParsedInternalKey)
    → IsU64 num
    → All IsByte u
    → parse_internal_key (u ++ little_endian 8 num) old ≡ some (true, key)
    → IsKey key × (append_internal_key [] key ≡ some (u ++ little_endian 8 num))
parse_internal_key-true u num old key fits bytes e =
    subst (λ t. IsKey t × (append_internal_key [] t ≡ some (u ++ little_endian 8 num)))
      (ap (λ t. t.1) both) (parsed-IsKey u num fits bytes (leb→le _ _ (ap (λ t. t.0) both)))
  where
    both : ◌≡◌ {A = Bool × ParsedInternalKey} (leb (num % 256) 1, parsed u num) (true, key)
    both = some-injective _ _ (sym (parse_internal_key-key u num old fits) ∙ e)

-- On every string of bytes, and whatever `*result` held before, ParseInternalKey answers true with a
-- key in `*result` exactly if that key is valid and AppendInternalKey writes the string for it.
pub parse_internal_key_iff :
    (k : Slice) (old key : ParsedInternalKey)
    → All IsByte k
    → (parse_internal_key k old ≡ some (true, key))
      ↔ (IsKey key × (append_internal_key [] key ≡ some k))
parse_internal_key_iff k old key h = (
  λ e. elim (dec_le 8 (length k)) [
    | yes enough ↦
        (let p = split_key k (h, enough) in
          rw p.whole
            (parse_internal_key-true p.user p.num old key p.fits p.bytes (rw p.whole at e)))
    | no short ↦ absurd (unfold parse_internal_key size in ground arith)
  ],
  λ (is, e). rw e at (parse_internal_key-append key old is),
)

-- ParseInternalKey always answers.
pub parse_internal_key-some :
    (k : Slice) (old : ParsedInternalKey)
    → All IsByte k
    → (b : Bool) × (key : ParsedInternalKey) × (parse_internal_key k old ≡ some (b, key))
unfolding parse_internal_key
parse_internal_key-some k old h = elim (dec_le 8 (length k)) [
  | yes enough ↦
      (let p = split_key k (h, enough) in
        (
          leb (p.num % 256) 1,
          parsed p.user p.num,
          rw p.whole (parse_internal_key-key p.user p.num old p.fits),
        ))
  | no short ↦ (false, old, ground arith)
]
