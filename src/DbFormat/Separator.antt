-- ===== src/DbFormat/Separator.antt =====
-- Shortened internal keys: `findShortestSeparator` and `findShortSuccessor` over a user comparator
-- that keeps its promises.
use distributed_kvstorage.Common.{
  ℕ, ◌≡◌, ◌≢◌, ◌⊎◌, inl, inr, refl, sym, ap, ◌∙◌, subst₂, Ordering, true, false, ◌&&◌, some, ◌++◌,
  length-append, All-append, ltb, Bool-cases, All, IsByte, IsU64, arith,
}
use distributed_kvstorage.Slice.{Slice, size, is_lt}
use distributed_kvstorage.Coding.Bytes.{little_endian, little_endian-IsByte, length-little_endian}
use distributed_kvstorage.Coding.Fixed.{put_fixed64-little_endian}
use distributed_kvstorage.Comparator.{Comparator, IsComparator}
use distributed_kvstorage.DbFormat.{
  compare, max_sequence_number, value_type_for_seek, pack_sequence_and_type,
  find_shortest_separator,
}
use distributed_kvstorage.DbFormat.Key.{
  packed, pack_sequence_and_type-packed, extract_user_key-key, IsInternal, split_key,
}
use distributed_kvstorage.DbFormat.Order.{compare-key_order, compare-Parts}

-- The greatest trailer, which comes first among the entries of a user key.
abbrev pub seek_number : ℕ
seek_number = packed max_sequence_number value_type_for_seek

pub pack_seek : pack_sequence_and_type max_sequence_number value_type_for_seek ≡ some seek_number
pack_seek = pack_sequence_and_type-packed max_sequence_number value_type_for_seek (omega arith) refl

pub key-IsInternal : (u : Slice) (num : ℕ) → All IsByte u → IsInternal (u ++ little_endian 8 num)
key-IsInternal u num h = (
  All-append IsByte u (little_endian 8 num) h (little_endian-IsByte 8 num),
  rw length-append (omega (arith, length-little_endian 8 num)),
)

lt-cases : (r : Ordering) → (r ≡ Ordering.lt) ⊎ (r ≢ Ordering.lt)
lt-cases Ordering.lt = inl refl
lt-cases Ordering.eq = inr (λ e. cc)
lt-cases Ordering.gt = inr (λ e. cc)

module _ (c : Comparator) (laws : IsComparator c) where
  -- `s` lies between `start` and `limit`.
  pub record IsBetween (start limit s : Slice) : Type 0 where
    pub internal : IsInternal s
    pub above : (r : Ordering) × (compare c start s ≡ some r) × (r ≢ Ordering.gt)
    pub below : compare c s limit ≡ some Ordering.lt

  pub compare_self : (x : Slice) → IsInternal x → compare c x x ≡ some Ordering.eq
  compare_self x h =
      let p = split_key x h in
      compare-Parts c p p ∙ ap some (ground (arith, laws.compare_refl p.user))

  module _ (u v : Slice) (a b : ℕ) (hu : All IsByte u) (hv : All IsByte v) (ha : IsU64 a)
      (hb : IsU64 b) where
    abbrev start : Slice
    start = u ++ little_endian 8 a

    abbrev limit : Slice
    limit = v ++ little_endian 8 b

    -- The user key was shortened and is greater: the assertions hold.
    shortened :
        (tmp : Slice)
        → All IsByte tmp
        → c.find_shortest_separator u v ≡ some tmp
        → (ltb (size tmp) (size u) && is_lt (c.compare u tmp)) ≡ true
        → c.compare u tmp ≡ Ordering.lt
        → c.compare tmp v ≡ Ordering.lt
        → (find_shortest_separator c start limit ≡ some (tmp ++ little_endian 8 seek_number))
          × IsBetween start limit (tmp ++ little_endian 8 seek_number)
    unfolding find_shortest_separator
    shortened tmp bytes found test above below = (
      rw (
        extract_user_key-key u a,
        extract_user_key-key v b,
        found,
        test,
        pack_seek,
        put_fixed64-little_endian,
        up,
        down,
      ),
      record {
        internal = key-IsInternal tmp seek_number bytes;
        above = (Ordering.lt, up, λ e. cc);
        below = down;
      },
    )
      where
        up : compare c start (tmp ++ little_endian 8 seek_number) ≡ some Ordering.lt
        up = compare-key_order c u tmp a seek_number ha (omega arith) ∙ rw above

        down : compare c (tmp ++ little_endian 8 seek_number) limit ≡ some Ordering.lt
        down = compare-key_order c tmp v seek_number b (omega arith) hb ∙ rw below

    kept :
        (tmp : Slice)
        → c.find_shortest_separator u v ≡ some tmp
        → (ltb (size tmp) (size u) && is_lt (c.compare u tmp)) ≡ false
        → compare c start limit ≡ some Ordering.lt
        → (find_shortest_separator c start limit ≡ some start) × IsBetween start limit start
    unfolding find_shortest_separator
    kept tmp found test lt = (
      rw (extract_user_key-key u a, extract_user_key-key v b, found, test),
      record {
        internal = key-IsInternal u a hu;
        above = (Ordering.eq, compare_self start (key-IsInternal u a hu), λ e. cc);
        below = lt;
      },
    )

    separated :
        (tmp : Slice)
        → All IsByte tmp
        → c.find_shortest_separator u v ≡ some tmp
        → c.compare tmp v ≡ Ordering.lt
        → compare c start limit ≡ some Ordering.lt
        → (s : Slice) × (find_shortest_separator c start limit ≡ some s) × IsBetween start limit s
    separated tmp bytes found below lt =
        elim (Bool-cases (ltb (size tmp) (size u) && is_lt (c.compare u tmp))) [
          | inl test ↦
              let (e, between) = shortened tmp bytes found test (ground arith) below in
              (tmp ++ little_endian 8 seek_number, e, between)
          | inr test ↦ let (e, between) = kept tmp found test lt in (start, e, between)
        ]

    separator-parts :
        compare c start limit ≡ some Ordering.lt
        → (s : Slice) × (find_shortest_separator c start limit ≡ some s) × IsBetween start limit s
    separator-parts lt = elim (lt-cases (c.compare u v)) [
      | inl below ↦
          let (tmp, found, bytes, _, under) = laws.separator_between u v hu hv below in
          separated tmp bytes found under lt
      | inr outside ↦
          let (e, between) =
            kept u (laws.separator_outside u v hu hv outside) (unfold size in ground arith) lt in
          (start, e, between)
    ]

  -- FindShortestSeparator over a user comparator that keeps its promises, for strings of 8 bytes or
  -- more with the start below the limit: its assertions hold, and its result is a string of 8 bytes
  -- or more, at or above the start and below the limit.
  pub find_shortest_separator-IsBetween :
      (x y : Slice)
      → IsInternal x
      → IsInternal y
      → compare c x y ≡ some Ordering.lt
      → (s : Slice) × (find_shortest_separator c x y ≡ some s) × IsBetween x y s
  find_shortest_separator-IsBetween x y hx hy =
      let p = split_key x hx in
      let q = split_key y hy in
      subst₂
        (λ s t.
          compare c s t ≡ some Ordering.lt
          → (k : Slice) × (find_shortest_separator c s t ≡ some k) × IsBetween s t k)
        (sym p.whole) (sym q.whole)
        (separator-parts p.user q.user p.num q.num p.bytes q.bytes p.fits q.fits)
