-- ===== src/DbFormat/Lookup.antt =====
-- The class LookupKey: the bytes from `start_` to `end_`, that is the length of an internal key, then
-- the key, in a local array of 200 bytes or on the heap.
pub mod Laws
use distributed_kvstorage.Common.{
  ℕ, ◌+◌, ◌-◌, Bool, true, false, Option, none, some, List, ◌++◌, length, take, drop, leb,
  if◌then◌else◌, ◌>>=◌, u32,
}
use distributed_kvstorage.Slice.{Slice, size}
use distributed_kvstorage.Coding.{Cursor, cursor, buffer, encode_varint32, encode_fixed64}
use distributed_kvstorage.DbFormat.{pack_sequence_and_type, value_type_for_seek}

pub record LookupKey : Type 0 where
  pub bytes : List ℕ
  pub key_start : ℕ
  pub on_heap : Bool

abbrev pub sizeof_space : ℕ
sizeof_space = 200

-- memcpy(dst, s, n) and `dst += n`; `none` is a write behind the end of the buffer.
unfoldable pub copy_to : Cursor → List ℕ → Option Cursor
copy_to dst s =
    if leb (length s) dst.room then some (cursor (dst.out ++ s) (dst.room - length s)) else none

-- The writes of the constructor, from the choice of `dst` on. The length is cast to the parameter's
-- uint32_t.
unfoldable pub fill : (dst : Cursor) (on_heap : Bool) → Slice → ℕ → Option LookupKey
unfolding size
fill dst on_heap user_key sequence = do
  dst ← encode_varint32 dst (u32 (size user_key + 8))
  let key_start = length dst.out
  dst ← copy_to dst user_key
  num ← pack_sequence_and_type sequence value_type_for_seek
  dst ← encode_fixed64 dst num
  some (record { bytes = dst.out; key_start = key_start; on_heap = on_heap })

-- LookupKey(user_key, sequence)
unfoldable pub make_lookup_key : Slice → ℕ → Option LookupKey
unfolding size
make_lookup_key user_key sequence =
    let needed = size user_key + 13 in
    if leb needed sizeof_space
    then fill (buffer sizeof_space) false user_key sequence
    else fill (buffer needed) true user_key sequence

unfoldable pub memtable_key : LookupKey → Slice
memtable_key k = k.bytes

unfoldable pub internal_key : LookupKey → Slice
internal_key k = drop k.key_start k.bytes

unfoldable pub user_key : LookupKey → Slice
user_key k = take (length k.bytes - k.key_start - 8) (drop k.key_start k.bytes)
