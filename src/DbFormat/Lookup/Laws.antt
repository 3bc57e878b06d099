-- ===== src/DbFormat/Lookup/Laws.antt =====
-- A lookup key holds the length-prefixed internal key of its user key and sequence number.
use distributed_kvstorage.Common.{
  ℕ, ◌+◌, ◌-◌, ◌^◌, ◌<◌, ◌≤◌, ◌≡◌, ◌≢◌, ◌↔◌, refl, sym, ap, ap₂, ◌∙◌, Ordering, Bool, true, false,
  not, some, List, ◌++◌, append_assoc, append-nil, length, length-append, take-append, drop-append,
  leb, leb→le, inl, inr, [], u32, All, All-append, IsByte, IsU32, arith, Bool-cases,
}
use distributed_kvstorage.Slice.{Slice, size}
use distributed_kvstorage.Coding.{cursor, buffer, get_length_prefixed_slice}
use distributed_kvstorage.Coding.Bytes.{
  varint, length-varint_bounds, little_endian, little_endian-IsByte, length-little_endian,
}
use distributed_kvstorage.Coding.Encode.{encode_varint32-varint}
use distributed_kvstorage.Coding.Fixed.{encode_fixed64-little_endian}
use distributed_kvstorage.Coding.RoundTrip.{get_length_prefixed_slice-varint}
use distributed_kvstorage.DbFormat.{
  ParsedInternalKey, type_value, value_type_for_seek, append_internal_key, parse_internal_key,
  compare,
}
use distributed_kvstorage.DbFormat.Key.{
  IsKey, packed, packed-lt, named_code, pack_sequence_and_type-packed, append_internal_key-bytes,
}
use distributed_kvstorage.DbFormat.Key.Parse.{parse_internal_key-append}
use distributed_kvstorage.DbFormat.Order.{key_order, compare-key_order}
use distributed_kvstorage.Comparator.{Comparator, IsComparator}
use distributed_kvstorage.DbFormat.Lookup.{
  LookupKey, sizeof_space, fill, copy_to, make_lookup_key, memtable_key, internal_key, user_key,
}
use mathlib.Core.Option.{some-injective}

-- The internal key that is looked up, and the whole.
abbrev pub target : Slice → ℕ → List ℕ
target u seq = u ++ little_endian 8 (packed seq value_type_for_seek)

abbrev prefixed : Slice → ℕ → List ℕ
prefixed u seq = varint 5 (length u + 8) ++ target u seq

length-target : (u : Slice) (seq : ℕ) → length (target u seq) ≡ length u + 8
length-target u seq = omega (
  arith,
  length-append u (little_endian 8 (packed seq value_type_for_seek)),
  length-little_endian 8 (packed seq value_type_for_seek),
)

target-IsByte : (u : Slice) (seq : ℕ) → All IsByte u → All IsByte (target u seq)
target-IsByte u seq h =
    All-append IsByte u (little_endian 8 (packed seq value_type_for_seek)) h
      (little_endian-IsByte 8 (packed seq value_type_for_seek))

copy_to-append :
    (out s : List ℕ) (room : ℕ)
    → length s ≤ room
    → copy_to (cursor out room) s ≡ some (cursor (out ++ s) (room - length s))
unfolding copy_to
copy_to-append out s room h = ground arith

-- The constructor's writes into any buffer that has room for 13 bytes more than the user key.
fill-prefixed :
    (room : ℕ) (heap : Bool) (u : Slice) (seq : ℕ)
    → IsU32 (length u + 8)
    → seq < 2 ^ 56
    → length u + 13 ≤ room
    → fill (buffer room) heap u seq
      ≡ some (record {
        bytes = prefixed u seq;
        key_start = length (varint 5 (length u + 8));
        on_heap = heap;
      })
unfolding fill
fill-prefixed room heap u seq h hs enough =
    let size : u32 (length u + 8) ≡ length u + 8 = omega arith in
    let short : length (varint 5 (length u + 8)) ≤ 5 = (length-varint_bounds 4 (length u + 8)).1 in
    rw
      (
        size,
        encode_varint32-varint [] room (length u + 8) h (omega arith),
        copy_to-append (varint 5 (length u + 8)) u (room - length (varint 5 (length u + 8)))
            (omega arith),
        pack_sequence_and_type-packed seq value_type_for_seek hs refl,
        encode_fixed64-little_endian (varint 5 (length u + 8) ++ u)
            (room - length (varint 5 (length u + 8)) - length u) (packed seq value_type_for_seek)
            (omega arith),
        append_assoc,
      )
      refl

-- For a user key of bytes, fewer than 2^32 - 8 of them, and a sequence number of 56 bits the
-- constructor stays inside its buffer, which is on the heap exactly if 200 bytes might be too few.
make_lookup_key-prefixed :
    (u : Slice) (seq : ℕ)
    → IsU32 (length u + 8)
    → seq < 2 ^ 56
    → make_lookup_key u seq
      ≡ some (record {
        bytes = prefixed u seq;
        key_start = length (varint 5 (length u + 8));
        on_heap = not (leb (length u + 13) sizeof_space);
      })
unfolding make_lookup_key
make_lookup_key-prefixed u seq h hs = elim (Bool-cases (leb (length u + 13) sizeof_space)) [
  | inl small ↦ rw small (fill-prefixed sizeof_space false u seq h hs (leb→le _ _ small))
  | inr large ↦ rw large (fill-prefixed (length u + 13) true u seq h hs (omega arith))
]

-- The parts of a lookup key that the constructor made.
module _ (u : Slice) (seq : ℕ) (k : LookupKey) (h : IsU32 (length u + 8)) (hs : seq < 2 ^ 56)
    (made : make_lookup_key u seq ≡ some k) where
  made_as :
      record {
        bytes = prefixed u seq;
        key_start = length (varint 5 (length u + 8));
        on_heap = not (leb (length u + 13) sizeof_space);
      }
      ≡ k
  made_as = some-injective _ _ (sym (make_lookup_key-prefixed u seq h hs) ∙ made)

  internal_key-target : internal_key k ≡ target u seq
  unfolding internal_key
  internal_key-target = rw (← made_as) (drop-append (varint 5 (length u + 8)) (target u seq))

  pub user_key-made : user_key k ≡ u
  unfolding user_key
  user_key-made =
      rw (← made_as, size, drop-append (varint 5 (length u + 8)) (target u seq))
        (take-append u (little_endian 8 (packed seq value_type_for_seek)))
    where
      size : length (prefixed u seq) - length (varint 5 (length u + 8)) - 8 ≡ length u
      size =
          omega (arith, length-append (varint 5 (length u + 8)) (target u seq), length-target u seq)

  memtable_key-prefixed :
      All IsByte u → get_length_prefixed_slice (memtable_key k) ≡ some (some (internal_key k), [])
  unfolding memtable_key size
  memtable_key-prefixed bytes =
      rw (internal_key-target, ← made_as)
        (rw (length-target u seq, append-nil) at
          (get_length_prefixed_slice-varint (target u seq) [] (rw (length-target u seq) h)
            (target-IsByte u seq bytes) tt))

-- For a user key of bytes, fewer than 2^32 - 8 of them, and a sequence number of 56 bits a lookup key
-- is made without an access out of bounds. Its memtable key is its internal key behind the length,
-- its internal key parses to the user key, the sequence number and the kind of a value, and its user
-- key is the one given.
pub make_lookup_key-parts :
    (u : Slice) (seq : ℕ) (old : ParsedInternalKey)
    → All IsByte u
    → IsU32 (length u + 8)
    → seq < 2 ^ 56
    → (k : LookupKey) × (make_lookup_key u seq ≡ some k)
      × (get_length_prefixed_slice (memtable_key k) ≡ some (some (internal_key k), []))
      × (parse_internal_key (internal_key k) old
          ≡ some (true, record { user_key = u; sequence = seq; type = type_value }))
      × (user_key k ≡ u)
make_lookup_key-parts u seq old bytes h hs = (
  made,
  e,
  memtable_key-prefixed u seq made h hs e bytes,
  rw (internal_key-target u seq made h hs e)
      (rw (append_internal_key-bytes [] key is) at (parse_internal_key-append key old is)),
  user_key-made u seq made h hs e,
)
  where
    key : ParsedInternalKey
    key = record { user_key = u; sequence = seq; type = type_value }

    is : IsKey key
    is = record { sequence = hs; type = refl; user_key = bytes }

    made : LookupKey
    made = record {
      bytes = prefixed u seq;
      key_start = length (varint 5 (length u + 8));
      on_heap = not (leb (length u + 13) sizeof_space);
    }

    e : make_lookup_key u seq ≡ some made
    e = make_lookup_key-prefixed u seq h hs

-- Under a comparator that keeps its promises, the encoding of a valid entry of the user key comes at
-- or behind the lookup key (of a user key shorter than 2^32 - 8 and a sequence number of 56 bits)
-- exactly if the entry's sequence number is at most the one looked up.
pub lookup_sees_snapshot :
    (c : Comparator)
    → IsComparator c
    → (u : Slice) (seq : ℕ) (k : LookupKey) (entry : ParsedInternalKey) (encoded : Slice)
    → IsU32 (length u + 8)
    → seq < 2 ^ 56
    → make_lookup_key u seq ≡ some k
    → IsKey entry
    → entry.user_key ≡ u
    → append_internal_key [] entry ≡ some encoded
    → (r : Ordering) × (compare c (internal_key k) encoded ≡ some r)
      × ((r ≢ Ordering.gt) ↔ (entry.sequence ≤ seq))
lookup_sees_snapshot c laws u seq k entry encoded h hs made is same enc = (
  key_order c u (packed seq value_type_for_seek) entry.user_key (packed entry.sequence entry.type),
  ap₂ (compare c) (internal_key-target u seq k h hs made)
        (sym (some-injective _ _ (sym (append_internal_key-bytes [] entry is) ∙ enc)))
      ∙ compare-key_order c u entry.user_key (packed seq value_type_for_seek)
          (packed entry.sequence entry.type) (omega arith) (packed-lt entry is),
  ground (arith, ap (c.compare u) same ∙ laws.compare_refl u, named_code entry.type is.type),
)
