-- ===== src/DbFormat/Successor.antt =====
-- `findShortSuccessor` of internal keys.
use distributed_kvstorage.Common.{
  ℕ, ◌≡◌, ◌≢◌, inl, inr, sym, ◌∙◌, subst, Ordering, true, false, ◌&&◌, some, ◌++◌, ltb, Bool-cases,
  All, IsByte, IsU64, arith,
}
use distributed_kvstorage.Slice.{Slice, size, is_lt}
use distributed_kvstorage.Coding.Bytes.{little_endian}
use distributed_kvstorage.Coding.Fixed.{put_fixed64-little_endian}
use distributed_kvstorage.Comparator.{Comparator, IsComparator}
use distributed_kvstorage.DbFormat.{compare, find_short_successor}
use distributed_kvstorage.DbFormat.Key.{extract_user_key-key, IsInternal, split_key}
use distributed_kvstorage.DbFormat.Order.{compare-key_order}
use distributed_kvstorage.DbFormat.Separator.{seek_number, pack_seek, key-IsInternal, compare_self}

module _ (c : Comparator) (laws : IsComparator c) where
  -- `s` is an internal key at or above `key`.
  pub record IsAbove (key s : Slice) : Type 0 where
    pub internal : IsInternal s
    pub above : (r : Ordering) × (compare c key s ≡ some r) × (r ≢ Ordering.gt)

  module _ (u : Slice) (a : ℕ) (hu : All IsByte u) (ha : IsU64 a) where
    shortened :
        (tmp : Slice)
        → All IsByte tmp
        → c.find_short_successor u ≡ some tmp
        → (ltb (size tmp) (size u) && is_lt (c.compare u tmp)) ≡ true
        → c.compare u tmp ≡ Ordering.lt
        → (find_short_successor c (u ++ little_endian 8 a)
            ≡ some (tmp ++ little_endian 8 seek_number))
          × IsAbove (u ++ little_endian 8 a) (tmp ++ little_endian 8 seek_number)
    unfolding find_short_successor
    shortened tmp bytes found test above = (
      rw (extract_user_key-key u a, found, test, pack_seek, put_fixed64-little_endian, up),
      record {
        internal = key-IsInternal tmp seek_number bytes;
        above = (Ordering.lt, up, λ e. cc);
      },
    )
      where
        up :
            compare c (u ++ little_endian 8 a) (tmp ++ little_endian 8 seek_number)
            ≡ some Ordering.lt
        up = compare-key_order c u tmp a seek_number ha (omega arith) ∙ rw above

    kept :
        (tmp : Slice)
        → c.find_short_successor u ≡ some tmp
        → (ltb (size tmp) (size u) && is_lt (c.compare u tmp)) ≡ false
        → (find_short_successor c (u ++ little_endian 8 a) ≡ some (u ++ little_endian 8 a))
          × IsAbove (u ++ little_endian 8 a) (u ++ little_endian 8 a)
    unfolding find_short_successor
    kept tmp found test = (
      rw (extract_user_key-key u a, found, test),
      record {
        internal = key-IsInternal u a hu;
        above = (
          Ordering.eq,
          compare_self c laws (u ++ little_endian 8 a) (key-IsInternal u a hu),
          λ e. cc,
        );
      },
    )

    successor-parts :
        (s : Slice) × (find_short_successor c (u ++ little_endian 8 a) ≡ some s)
        × IsAbove (u ++ little_endian 8 a) s
    successor-parts = choose (laws.successor_above u hu)
      where
        choose :
            ((tmp : Slice) × (c.find_short_successor u ≡ some tmp)
              × All IsByte tmp
              × (c.compare u tmp ≢ Ordering.gt))
            → (s : Slice) × (find_short_successor c (u ++ little_endian 8 a) ≡ some s)
              × IsAbove (u ++ little_endian 8 a) s
        choose (tmp, found, bytes, _) =
            elim (Bool-cases (ltb (size tmp) (size u) && is_lt (c.compare u tmp))) [
              | inl test ↦
                  let (e, is) = shortened tmp bytes found test (ground arith) in
                  (tmp ++ little_endian 8 seek_number, e, is)
              | inr test ↦ let (e, is) = kept tmp found test in (u ++ little_endian 8 a, e, is)
            ]

  -- FindShortSuccessor over a user comparator that keeps its promises: on every string of 8 bytes or
  -- more its assertion holds, and its result is a string of 8 bytes or more at or above the key.
  pub find_short_successor-IsAbove :
      (x : Slice) → IsInternal x → (s : Slice) × (find_short_successor c x ≡ some s) × IsAbove x s
  find_short_successor-IsAbove x hx =
      let p = split_key x hx in
      subst (λ t. (s : Slice) × (find_short_successor c t ≡ some s) × IsAbove t s) (sym p.whole)
        (successor-parts p.user p.num p.bytes p.fits)
