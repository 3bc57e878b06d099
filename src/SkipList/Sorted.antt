-- ===== src/SkipList/Sorted.antt =====
-- The keys of a skip list in their order.
use distributed_kvstorage.Common.{ℕ, ◌≡◌, subst, Ordering, List, [], ◌∷◌, All}
use distributed_kvstorage.SkipList.{SkipList}
use distributed_kvstorage.SkipList.Order.{IsAscending, IsAbove}
use distributed_kvstorage.SkipList.State.{keys_of, IsSorted}
use distributed_kvstorage.SkipList.Represents.{Represents}

module _ {K : Type 0} (cmp : K → K → Ordering) where
  keys_of-All :
      (keys : ℕ → K) (a : K) (ns : List ℕ)
      → IsAbove cmp keys a ns
      → All (λ b. cmp a b ≡ Ordering.lt) (keys_of keys ns)
  keys_of-All keys a [] above = tt
  keys_of-All keys a (n ∷ ns) above = (above.0, keys_of-All keys a ns above.1)

  keys_of-IsSorted :
      (keys : ℕ → K) (ns : List ℕ) → IsAscending cmp keys ns → IsSorted cmp (keys_of keys ns)
  keys_of-IsSorted keys [] up = tt
  keys_of-IsSorted keys (n ∷ ns) up =
      (keys_of-All keys (keys n) ns up.0, keys_of-IsSorted keys ns up.1)

  pub Represents-IsSorted : (s : SkipList K) (ks : List K) → Represents cmp s ks → IsSorted cmp ks
  Represents-IsSorted s ks r =
      subst (IsSorted cmp) r.same (keys_of-IsSorted s.keys r.nodes r.is.ascending)
