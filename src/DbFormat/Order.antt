-- ===== src/DbFormat/Order.antt =====
-- The order of internal keys, over any user comparator that keeps its promises.
use distributed_kvstorage.Common.{
  ℕ, ◌<◌, ◌≡◌, ◌≢◌, refl, sym, ap, ap₂, ◌∙◌, compare as compare_nat, Ordering, some, [], ◌++◌, ltb,
  if◌then◌else◌, ◌>>=◌, IsU64, arith,
}
use distributed_kvstorage.Slice.{Slice, is_eq}
use distributed_kvstorage.Slice.Order.{flip}
use distributed_kvstorage.Coding.Bytes.{little_endian}
use distributed_kvstorage.Comparator.{Comparator, IsComparator}
use distributed_kvstorage.DbFormat.{ParsedInternalKey, code, append_internal_key, compare}
use distributed_kvstorage.DbFormat.Key.{
  IsKey, packed, packed-lt, named_code, append_internal_key-bytes, extract_user_key-key,
  trailer-key, IsInternal, Parts, split_key,
}
use mathlib.Core.Option.{some-injective}

-- One order where another does not decide.
abbrev pub then_by : Ordering → Ordering → Ordering
then_by Ordering.eq s = s
then_by r s = r

-- User keys ascending, then trailers descending.
abbrev pub key_order : Comparator → (u : Slice) (a : ℕ) (v : Slice) (b : ℕ) → Ordering
key_order c u a v b = then_by (c.compare u v) (flip (compare_nat a b))

-- What the source computes from the order of the user keys and the two trailers.
decided :
    (a b : ℕ) (r : Ordering)
    → (if is_eq r
        then some (if ltb b a then Ordering.lt else if ltb a b then Ordering.gt else r)
        else some r)
      ≡ some (then_by r (flip (compare_nat a b)))
decided a b Ordering.lt = refl
decided a b Ordering.eq = ground arith
decided a b Ordering.gt = refl

pub compare-key_order :
    (c : Comparator) (u v : Slice) (a b : ℕ)
    → IsU64 a
    → IsU64 b
    → compare c (u ++ little_endian 8 a) (v ++ little_endian 8 b) ≡ some (key_order c u a v b)
unfolding compare
compare-key_order c u v a b ha hb =
    rw (extract_user_key-key u a, extract_user_key-key v b, trailer-key u a ha, trailer-key v b hb)
      (decided a b (c.compare u v))

pub compare-Parts :
    (c : Comparator) {x y : Slice} (p : Parts x) (q : Parts y)
    → compare c x y ≡ some (key_order c p.user p.num q.user q.num)
compare-Parts c p q =
    ap₂ (compare c) p.whole q.whole ∙ compare-key_order c p.user q.user p.num q.num p.fits q.fits

-- The entries by user key ascending, then sequence number descending, then kind descending.
abbrev pub entry_order : Comparator → (p q : ParsedInternalKey) → Ordering
entry_order c p q = then_by (c.compare p.user_key q.user_key) (
    then_by (flip (compare_nat p.sequence q.sequence))
      (flip (compare_nat (code p.type) (code q.type))))

packed_order :
    (p q : ParsedInternalKey)
    → code p.type < 2
    → code q.type < 2
    → flip (compare_nat (packed p.sequence p.type) (packed q.sequence q.type))
      ≡ then_by
          (flip (compare_nat p.sequence q.sequence))
          (flip (compare_nat (code p.type) (code q.type)))
packed_order p q hp hq = ground arith

-- Over any user comparator, the comparator orders the encodings of valid keys by user key ascending,
-- then by sequence number descending, then by kind descending, and fails no assertion on them.
pub compare-entry_order :
    (c : Comparator) (p q : ParsedInternalKey)
    → IsKey p
    → IsKey q
    → (append_internal_key [] p >>= λ a. append_internal_key [] q >>= λ b. compare c a b)
      ≡ some (entry_order c p q)
compare-entry_order c p q hp hq =
    rw (append_internal_key-bytes [] p hp, append_internal_key-bytes [] q hq)
      (compare-key_order c p.user_key q.user_key (packed p.sequence p.type)
          (packed q.sequence q.type) (packed-lt p hp) (packed-lt q hq)
        ∙ ap (λ t. some (then_by (c.compare p.user_key q.user_key) t))
            (packed_order p q (named_code p.type hp.type) (named_code q.type hq.type)))

module _ (c : Comparator) (laws : IsComparator c) where
  key_order-flip : (u v : Slice) (a b : ℕ) → key_order c v b u a ≡ flip (key_order c u a v b)
  key_order-flip u v a b = rw (laws.compare-flip u v) (cases (c.compare u v))
    where
      cases :
          (r : Ordering)
          → then_by (flip r) (flip (compare_nat b a)) ≡ flip (then_by r (flip (compare_nat a b)))
      cases Ordering.lt = refl
      cases Ordering.eq = ground arith
      cases Ordering.gt = refl

  -- Between two equivalent user keys there is no room.
  between_eq :
      (u v w : Slice)
      → c.compare u v ≢ Ordering.gt
      → c.compare v w ≢ Ordering.gt
      → c.compare u w ≡ Ordering.eq
      → (c.compare u v ≡ Ordering.eq) × (c.compare v w ≡ Ordering.eq)
  between_eq u v w h k e = ground (
    arith,
    laws.compare-flip u v,
    laws.compare-flip v w,
    laws.compare-flip u w,
    laws.compare_trans v w u,
    laws.compare_trans w u v,
  )

  key_order_trans :
      (u v w : Slice) (a b d : ℕ)
      → key_order c u a v b ≢ Ordering.gt
      → key_order c v b w d ≢ Ordering.gt
      → key_order c u a w d ≢ Ordering.gt
  key_order_trans u v w a b d h k = ground (arith, laws.compare_trans u v w, between_eq u v w)

  -- Over a user comparator that keeps its promises, on all strings of 8 bytes or more the comparator
  -- gives an answer, and the opposite one with the arguments swapped.
  internal_compare-flip :
      (x y : Slice)
      → IsInternal x
      → IsInternal y
      → (r : Ordering) × (compare c x y ≡ some r) × (compare c y x ≡ some (flip r))
  internal_compare-flip x y hx hy =
      let p = split_key x hx in
      let q = split_key y hy in
      (
        key_order c p.user p.num q.user q.num,
        compare-Parts c p q,
        compare-Parts c q p ∙ ap some (key_order-flip p.user q.user p.num q.num),
      )

  -- Over a user comparator that keeps its promises, "at most" is transitive for the comparator, on
  -- all strings of 8 bytes or more.
  internal_compare_trans :
      (x y z : Slice) (r s : Ordering)
      → IsInternal x
      → IsInternal y
      → IsInternal z
      → compare c x y ≡ some r
      → r ≢ Ordering.gt
      → compare c y z ≡ some s
      → s ≢ Ordering.gt
      → (t : Ordering) × (compare c x z ≡ some t) × (t ≢ Ordering.gt)
  internal_compare_trans x y z r s hx hy hz er hr es hs =
      let p = split_key x hx in
      let q = split_key y hy in
      let o = split_key z hz in
      (
        key_order c p.user p.num o.user o.num,
        compare-Parts c p o,
        key_order_trans p.user q.user o.user p.num q.num o.num
            (λ e. hr (some-injective _ _ (sym er ∙ compare-Parts c p q) ∙ e))
            (λ e. hs (some-injective _ _ (sym es ∙ compare-Parts c q o) ∙ e)),
      )
