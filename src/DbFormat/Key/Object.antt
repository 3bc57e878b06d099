-- ===== src/DbFormat/Key/Object.antt =====
-- The class InternalKey of src/database/db_format.h.
use distributed_kvstorage.Common.{
  ℕ, ◌/◌, ◌%◌, ◌≡◌, refl, sym, ap, ◌∙◌, true, false, none, some, [], ◌∷◌, ◌++◌, ◌>>=◌, arith,
}
use distributed_kvstorage.Slice.{Slice, empty}
use distributed_kvstorage.Coding.Bytes.{little_endian}
use distributed_kvstorage.DbFormat.{
  ParsedInternalKey, InternalKey, make_internal_key, decode_from, encode, user_key, set_from, clear,
  parse_internal_key,
}
use distributed_kvstorage.DbFormat.Key.{
  IsKey, append_internal_key-bytes, extract_user_key-key, packed,
}
use distributed_kvstorage.DbFormat.Key.Parse.{parse_internal_key-append}

key-full : (u rest : Slice) → (x : ℕ) → empty (u ++ (x ∷ rest)) ≡ false
unfolding empty
key-full [] rest x = ground arith
key-full (c ∷ u) rest x = ground arith

-- On a valid key, whatever the objects and the result held before: an InternalKey is set to it, or
-- constructed with its three parts, to the same bytes. `encode` gives them, another object takes them
-- over by `decodeFrom`, `userKey` is the user key, and ParseInternalKey reads the key from them.
-- After `clear`, `encode` fails its assertion, and `decodeFrom` refuses an empty slice.
pub set_from-parts :
    (p old : ParsedInternalKey) (rep other : InternalKey)
    → IsKey p
    → (key : InternalKey) × (bytes : Slice) × (set_from rep p ≡ some key)
      × (make_internal_key p.user_key p.sequence p.type ≡ some key)
      × (encode key ≡ some bytes)
      × (decode_from other bytes ≡ (true, key))
      × (user_key key ≡ some p.user_key)
      × (parse_internal_key bytes old ≡ some (true, p))
      × (encode (clear key) ≡ none)
      × (decode_from key [] ≡ (false, clear key))
unfolding set_from make_internal_key encode decode_from user_key clear
set_from-parts p old rep other is =
    let num = packed p.sequence p.type in
    let key = p.user_key ++ little_endian 8 num in
    let full = key-full p.user_key (little_endian 7 (num / 256)) (num % 256) in
    (
      key,
      key,
      append_internal_key-bytes [] p is,
      append_internal_key-bytes [] p is,
      rw full refl,
      rw full refl,
      extract_user_key-key p.user_key num,
      sym (ap (λ r. r >>= λ k. parse_internal_key k old) (append_internal_key-bytes [] p is))
          ∙ parse_internal_key-append p old is,
      refl,
      refl,
    )
