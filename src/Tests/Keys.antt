-- ===== src/Tests/Keys.antt =====
-- Internal keys, lookup keys and filters: runs, and the theorems at concrete inputs.
use distributed_kvstorage.DbFormat.Lookup.Laws.{lookup_sees_snapshot}
use distributed_kvstorage.Common.{◌≢◌, ◌≤◌, ◌↔◌, Ordering}
use distributed_kvstorage.Common.{
  List, ℕ, ◌≡◌, ◌↔◌, refl, Ordering, true, false, some, [], ◌∷◌, ◌++◌, ◌>>=◌, arith,
}
use distributed_kvstorage.Slice.{Slice, size}
use distributed_kvstorage.Slice
use distributed_kvstorage.Coding.{
  get_length_prefixed_slice, encode_varint32, encode_fixed64, put_fixed64, decode_fixed64,
}
use distributed_kvstorage.Comparator.{bytewise_comparator}
use distributed_kvstorage.Comparator.Bytewise.{bytewise_comparator-IsComparator}
use distributed_kvstorage.DbFormat.{
  ParsedInternalKey, type_value, type_deletion, unnamed, append_internal_key, parse_internal_key,
  compare, find_shortest_separator, find_short_successor, pack_sequence_and_type, extract_user_key,
  trailer,
}
use distributed_kvstorage.DbFormat.Key.{IsKey, IsInternal}
use distributed_kvstorage.Common.{none}
use distributed_kvstorage.DbFormat.{
  InternalKey, set_from, make_internal_key, encode, decode_from, clear,
}
use distributed_kvstorage.DbFormat
use distributed_kvstorage.DbFormat.Key.Object.{set_from-parts}
use distributed_kvstorage.DbFormat.Key.Parse.{parse_internal_key_iff}
use distributed_kvstorage.DbFormat.Order.{entry_order, compare-entry_order}
use distributed_kvstorage.DbFormat.Separator.{IsBetween, find_shortest_separator-IsBetween}
use distributed_kvstorage.DbFormat.Successor.{IsAbove, find_short_successor-IsAbove}
use distributed_kvstorage.DbFormat.Lookup.{
  LookupKey, fill, copy_to, make_lookup_key, memtable_key, internal_key, user_key,
}
use distributed_kvstorage.DbFormat.Lookup.Laws.{make_lookup_key-parts}
use distributed_kvstorage.DbFormat.Filter.{
  FilterPolicy, HasNoFalseNegatives, IsAppending, create_filter, key_may_match,
  key_may_match-create_filter,
}
use mathlib.Core.List.{mem-cons_self}

abbrev ab : Slice
ab = b'a' ∷ b'b' ∷ []

abbrev put_5 : ParsedInternalKey
put_5 = record { user_key = ab; sequence = 5; type = type_value }

abbrev delete_6 : ParsedInternalKey
delete_6 = record { user_key = ab; sequence = 6; type = type_deletion }

abbrev put_5_bytes : Slice
put_5_bytes = b'a' ∷ b'b' ∷ 1 ∷ 5 ∷ 0 ∷ 0 ∷ 0 ∷ 0 ∷ 0 ∷ 0 ∷ []

abbrev delete_6_bytes : Slice
delete_6_bytes = b'a' ∷ b'b' ∷ 0 ∷ 6 ∷ 0 ∷ 0 ∷ 0 ∷ 0 ∷ 0 ∷ 0 ∷ []

abbrev other_bytes : Slice
other_bytes = b'a' ∷ b'f' ∷ b'g' ∷ 1 ∷ 5 ∷ 0 ∷ 0 ∷ 0 ∷ 0 ∷ 0 ∷ 0 ∷ []

put_5-IsKey : IsKey put_5
put_5-IsKey = record { sequence = omega arith; type = refl; user_key = omega arith }

delete_6-IsKey : IsKey delete_6
delete_6-IsKey = record { sequence = omega arith; type = refl; user_key = omega arith }

put_5_appended : append_internal_key [] put_5 ≡ some put_5_bytes
unfolding append_internal_key pack_sequence_and_type put_fixed64
put_5_appended = refl

-- The later entry of a user key comes first.
later_first : compare bytewise_comparator delete_6_bytes put_5_bytes ≡ some Ordering.lt
unfolding compare extract_user_key Slice.compare trailer decode_fixed64
later_first = refl

-- A kind without a name is refused, and the result is written all the same.
parse_unnamed :
    parse_internal_key (b'a' ∷ 7 ∷ 5 ∷ 0 ∷ 0 ∷ 0 ∷ 0 ∷ 0 ∷ 0 ∷ []) put_5
    ≡ some (false, record { user_key = b'a' ∷ []; sequence = 5; type = unnamed 7 })
unfolding parse_internal_key trailer decode_fixed64
parse_unnamed = refl

parse_short : parse_internal_key (b'a' ∷ 7 ∷ []) put_5 ≡ some (false, put_5)
unfolding parse_internal_key trailer decode_fixed64
parse_short = refl

parse_internal_key_iff_example :
    (parse_internal_key put_5_bytes delete_6 ≡ some (true, put_5))
    ↔ (IsKey put_5 × (append_internal_key [] put_5 ≡ some put_5_bytes))
parse_internal_key_iff_example = parse_internal_key_iff put_5_bytes delete_6 put_5 (omega arith)

set_from-parts_example :
    (k : InternalKey) × (bytes : Slice) × (set_from [] put_5 ≡ some k)
    × (make_internal_key ab 5 type_value ≡ some k)
    × (encode k ≡ some bytes)
    × (decode_from [] bytes ≡ (true, k))
    × (DbFormat.user_key k ≡ some ab)
    × (parse_internal_key bytes delete_6 ≡ some (true, put_5))
    × (encode (clear k) ≡ none)
    × (decode_from k [] ≡ (false, clear k))
set_from-parts_example = set_from-parts put_5 delete_6 [] [] put_5-IsKey

compare-entry_order_example :
    (append_internal_key [] put_5 >>= λ a.
    append_internal_key [] delete_6 >>= λ b. compare bytewise_comparator a b)
    ≡ some (entry_order bytewise_comparator put_5 delete_6)
compare-entry_order_example =
    compare-entry_order bytewise_comparator put_5 delete_6 put_5-IsKey delete_6-IsKey

put_5-IsInternal : IsInternal put_5_bytes
put_5-IsInternal = omega arith

delete_6-IsInternal : IsInternal delete_6_bytes
delete_6-IsInternal = omega arith

other-IsInternal : IsInternal other_bytes
other-IsInternal = omega arith

delete_6_below : compare bytewise_comparator delete_6_bytes other_bytes ≡ some Ordering.lt
unfolding compare extract_user_key Slice.compare trailer decode_fixed64
delete_6_below = refl

put_5_below : compare bytewise_comparator put_5_bytes other_bytes ≡ some Ordering.lt
unfolding compare extract_user_key Slice.compare trailer decode_fixed64
put_5_below = refl

find_shortest_separator-IsBetween_example :
    (s : Slice) × (find_shortest_separator bytewise_comparator put_5_bytes other_bytes ≡ some s)
    × IsBetween bytewise_comparator bytewise_comparator-IsComparator put_5_bytes other_bytes s
find_shortest_separator-IsBetween_example =
    find_shortest_separator-IsBetween bytewise_comparator bytewise_comparator-IsComparator
      put_5_bytes other_bytes put_5-IsInternal other-IsInternal put_5_below

find_short_successor-IsAbove_example :
    (s : Slice) × (find_short_successor bytewise_comparator other_bytes ≡ some s)
    × IsAbove bytewise_comparator bytewise_comparator-IsComparator other_bytes s
find_short_successor-IsAbove_example =
    find_short_successor-IsAbove bytewise_comparator bytewise_comparator-IsComparator other_bytes
      other-IsInternal

make_lookup_key-parts_example :
    (k : LookupKey) × (make_lookup_key ab 5 ≡ some k)
    × (get_length_prefixed_slice (memtable_key k) ≡ some (some (internal_key k), []))
    × (parse_internal_key (internal_key k) delete_6 ≡ some (true, put_5))
    × (user_key k ≡ ab)
make_lookup_key-parts_example =
    make_lookup_key-parts ab 5 delete_6 (omega arith) (omega arith) (omega arith)

abbrev lookup_ab : LookupKey
lookup_ab = record { bytes = 10 ∷ put_5_bytes; key_start = 1; on_heap = false }

lookup_ab_made : make_lookup_key ab 5 ≡ some lookup_ab
unfolding make_lookup_key fill copy_to encode_varint32 encode_fixed64 pack_sequence_and_type
lookup_ab_made = refl

-- A policy that lets everything pass.
abbrev pass_all : FilterPolicy
pass_all = record {
  create_filter = λ keys dst. dst ++ (1 ∷ []);
  key_may_match = λ key filter. true;
}

pass_all-HasNoFalseNegatives : HasNoFalseNegatives pass_all
pass_all-HasNoFalseNegatives = λ keys dst filter key e m. refl

pass_all_run : create_filter pass_all (put_5_bytes ∷ []) [] ≡ some (ab ∷ [], [] ++ (1 ∷ []))
unfolding create_filter extract_user_key
pass_all_run = refl

pass_all-IsAppending : IsAppending pass_all
pass_all-IsAppending = λ keys dst. (1 ∷ [], refl)

key_may_match-create_filter_example :
    (users : List Slice) × (filter : List ℕ) × (create_filter pass_all (put_5_bytes ∷ []) []
      ≡ some (users, [] ++ filter))
    × (key_may_match pass_all put_5_bytes filter ≡ some true)
unfolding size
key_may_match-create_filter_example =
    key_may_match-create_filter pass_all pass_all-IsAppending pass_all-HasNoFalseNegatives
      (put_5_bytes ∷ []) [] put_5_bytes (omega arith, tt) mem-cons_self

lookup_sees_snapshot_example :
    (r : Ordering) × (compare bytewise_comparator (internal_key lookup_ab) put_5_bytes ≡ some r)
    × ((r ≢ Ordering.gt) ↔ (5 ≤ 5))
lookup_sees_snapshot_example =
    lookup_sees_snapshot bytewise_comparator bytewise_comparator-IsComparator ab 5 lookup_ab put_5
      put_5_bytes (omega arith) (omega arith) lookup_ab_made put_5-IsKey refl put_5_appended
