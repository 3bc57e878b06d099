-- ===== src/DbFormat.antt =====
-- src/database/db_format.h and db_format.cc: internal keys, their order, and lookup keys. An
-- internal key is a user key, then 8 bytes with the sequence number and the kind of the entry.
-- `none` is a failed assertion or an access out of bounds.
pub mod Key
pub mod Order
pub mod Separator
pub mod Successor
pub mod Lookup
pub mod Filter
pub mod Debug
use distributed_kvstorage.Common.{
  ℕ, zero, suc, ◌+◌, ◌-◌, ◌^◌, Ordering, Bool, true, false, not, ◌&&◌, ◌||◌, bit_and, bit_or,
  Option, none, some, List, [], ◌∷◌, ◌++◌, length, take, drop, ltb, leb, ◌==◌, if◌then◌else◌, ◌>>=◌,
  ◌>>◌, assert, u32, u64, ◌<<<◌, ◌>>>◌,
}
use distributed_kvstorage.Slice.{Slice, size, empty, is_eq, is_lt}
use distributed_kvstorage.Coding.{
  Cursor, cursor, buffer, encode_varint32, encode_fixed64, put_fixed64, decode_fixed64,
}
use distributed_kvstorage.Comparator.{Comparator}

-- The enum, with the values that a cast of a byte may give it and that have no name.
pub data ValueType : Type 0 where
  type_deletion type_value : ValueType
  unnamed : ℕ → ValueType

abbrev pub code : ValueType → ℕ
code type_deletion = 0
code type_value = 1
code (unnamed c) = c

-- static_cast<ValueType>(c)
abbrev pub to_value_type : ℕ → ValueType
to_value_type c = if c == 0 then type_deletion else if c == 1 then type_value else unnamed c

abbrev pub is_named : ValueType → Bool
is_named (unnamed c) = false
is_named _ = true

abbrev pub value_type_for_seek : ValueType
value_type_for_seek = type_value

abbrev pub max_sequence_number : ℕ
max_sequence_number = (1 <<< 56) - 1

pub record ParsedInternalKey : Type 0 where
  pub user_key : Slice
  pub sequence : ℕ
  pub type : ValueType

unfoldable pub internal_key_encoding_length : ParsedInternalKey → ℕ
unfolding size
internal_key_encoding_length key = size key.user_key + 8

unfoldable pub pack_sequence_and_type : ℕ → ValueType → Option ℕ
pack_sequence_and_type seq t = do
  assert (leb seq max_sequence_number)
  assert (is_named t)
  some (bit_or (u64 (seq <<< 8)) (code t))

unfoldable pub append_internal_key : List ℕ → ParsedInternalKey → Option (List ℕ)
append_internal_key result key = do
  num ← pack_sequence_and_type key.sequence key.type
  put_fixed64 (result ++ key.user_key) num

unfoldable pub extract_user_key : Slice → Option Slice
unfolding size
extract_user_key internal_key = do
  assert (leb 8 (size internal_key))
  some (take (size internal_key - 8) internal_key)

-- The 8 bytes at the end, as `compare` and `ParseInternalKey` read them.
unfoldable pub trailer : Slice → Option ℕ
unfolding size
trailer internal_key = decode_fixed64 (drop (size internal_key - 8) internal_key)

-- The answer, and what `*result` holds after the call: it is written too where the answer is false
-- for the kind of the entry, and left alone where the key is too short.
unfoldable pub parse_internal_key : Slice → ParsedInternalKey → Option (Bool × ParsedInternalKey)
unfolding size
parse_internal_key internal_key result =
    if ltb (size internal_key) 8 then some (false, result) else (do
      num ← trailer internal_key
      let c = bit_and num 0xff
      some (
        leb c 1,
        record {
          user_key = take (size internal_key - 8) internal_key;
          sequence = num >>> 8;
          type = to_value_type c;
        },
      ))

-- The class InternalKeyComparator over its user comparator.
module _ (c : Comparator) where
  unfoldable pub compare : Slice → Slice → Option Ordering
  compare a b = do
    user_a ← extract_user_key a
    user_b ← extract_user_key b
    let r = c.compare user_a user_b
    if is_eq r
        then (do
          a_num ← trailer a
          b_num ← trailer b
          some
              (if ltb b_num a_num then Ordering.lt else if ltb a_num b_num then Ordering.gt else r))
        else some r

  unfoldable pub find_shortest_separator : List ℕ → Slice → Option (List ℕ)
  unfolding size
  find_shortest_separator start limit = do
    user_start ← extract_user_key start
    user_limit ← extract_user_key limit
    tmp ← c.find_shortest_separator user_start user_limit
    if ltb (size tmp) (size user_start) && is_lt (c.compare user_start tmp)
        then (do
          num ← pack_sequence_and_type max_sequence_number value_type_for_seek
          tmp ← put_fixed64 tmp num
          above ← compare start tmp
          assert (is_lt above)
          below ← compare tmp limit
          assert (is_lt below)
          some tmp)
        else some start

  unfoldable pub find_short_successor : List ℕ → Option (List ℕ)
  unfolding size
  find_short_successor key = do
    user_key ← extract_user_key key
    tmp ← c.find_short_successor user_key
    if ltb (size tmp) (size user_key) && is_lt (c.compare user_key tmp)
        then (do
          num ← pack_sequence_and_type max_sequence_number value_type_for_seek
          tmp ← put_fixed64 tmp num
          above ← compare key tmp
          assert (is_lt above)
          some tmp)
        else some key

-- The class InternalKey: the bytes `rep_`.
abbrev pub InternalKey : Type 0
InternalKey = List ℕ

-- InternalKey(user_key, s, t)
unfoldable pub make_internal_key : Slice → ℕ → ValueType → Option InternalKey
make_internal_key user_key s t =
    append_internal_key [] (record { user_key = user_key; sequence = s; type = t })

unfoldable pub decode_from : InternalKey → Slice → Bool × InternalKey
unfolding empty
decode_from rep s = (not (empty s), s)

unfoldable pub encode : InternalKey → Option Slice
unfolding empty
encode rep = do assert (not (empty rep)); some rep

-- The second `compare` of InternalKeyComparator, on internal keys.
unfoldable pub compare_keys : Comparator → InternalKey → InternalKey → Option Ordering
compare_keys c a b = do a ← encode a; b ← encode b; compare c a b

unfoldable pub user_key : InternalKey → Option Slice
user_key rep = extract_user_key rep

unfoldable pub set_from : InternalKey → ParsedInternalKey → Option InternalKey
set_from rep p = append_internal_key [] p

unfoldable pub clear : InternalKey → InternalKey
clear rep = []
