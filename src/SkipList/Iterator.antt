-- ===== src/SkipList/Iterator.antt =====
-- The class Iterator of the skip list. Its `list_` is the list that the operations take.
pub mod Positions
pub mod Laws
use distributed_kvstorage.Common.{
  ℕ, zero, suc, ◌+◌, ◌-◌, Ordering, Bool, true, false, Option, none, some, List, [], ◌∷◌, ltb, ◌==◌,
  if◌then◌else◌, ◌>>=◌, ◌>>◌, assert,
}
use distributed_kvstorage.SkipList.{
  SkipList, next_of, find_greater_or_equal, find_less_than, find_last,
}

pub record Iterator : Type 0 where
  pub node : Option ℕ

-- Iterator(list)
abbrev pub make_iterator : Iterator
make_iterator = record { node = none }

unfoldable pub valid : Iterator → Bool
valid it = elim it.node [ none ↦ false | some n ↦ true ]

-- What `seekToLast` and `prev` make of a node that may be the head.
unfoldable pub unless_head : (head x : ℕ) → Iterator
unless_head head x = record { node = if x == head then none else some x }

module _ {K : Type 0} where
  unfoldable pub key : SkipList K → Iterator → Option K
  key s it = do assert (valid it); n ← it.node; some (s.keys n)

  unfoldable pub next : SkipList K → Iterator → Option Iterator
  next s it = do
    assert (valid it)
    n ← it.node
    after ← next_of s n 0
    some (record { node = after })

  unfoldable pub seek_to_first : SkipList K → Option Iterator
  seek_to_first s = do first ← next_of s s.head 0; some (record { node = first })

  unfoldable pub seek_to_last : (fuel : ℕ) → SkipList K → Option Iterator
  seek_to_last fuel s = do x ← find_last fuel s; some (unless_head s.head x)

  module _ (cmp : K → K → Ordering) where
    unfoldable pub prev : (fuel : ℕ) → SkipList K → Iterator → Option Iterator
    prev fuel s it = do
      assert (valid it)
      n ← it.node
      x ← find_less_than cmp fuel s (s.keys n)
      some (unless_head s.head x)

    unfoldable pub seek : (fuel : ℕ) → SkipList K → K → Option Iterator
    seek fuel s target = do
      (x, _) ← find_greater_or_equal cmp fuel s target none
      some (record { node = x })
