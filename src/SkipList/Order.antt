-- ===== src/SkipList/Order.antt =====
-- The order that a comparator of keys gives, and lists of nodes ascending in it.
use distributed_kvstorage.Common.{
  ℕ, ◌≡◌, ◌≢◌, refl, Ordering, Option, none, some, List, [], ◌∷◌, ◌++◌, All, if◌then◌else◌, arith,
}
use distributed_kvstorage.Slice.{is_lt}
use distributed_kvstorage.Slice.Order.{flip}

-- What the list relies on: a total preorder.
pub record IsKeyOrder {K : Type 0} (cmp : K → K → Ordering) : Type 0 where
  pub reflexive : (a : K) → cmp a a ≡ Ordering.eq
  pub flipped : (a b : K) → cmp b a ≡ flip (cmp a b)
  pub transitive :
      (a b c : K) → cmp a b ≢ Ordering.gt → cmp b c ≢ Ordering.gt → cmp a c ≢ Ordering.gt

module _ {K : Type 0} (cmp : K → K → Ordering) (laws : IsKeyOrder cmp) where
  -- Below, then at most; and at most, then below.
  pub lt-le_trans :
      (a b c : K) → cmp a b ≡ Ordering.lt → cmp b c ≢ Ordering.gt → cmp a c ≡ Ordering.lt
  lt-le_trans a b c h k =
      ground
        (arith, laws.transitive a b c, laws.transitive b c a, laws.flipped a b, laws.flipped a c)

  le-lt_trans : (a b c : K) → cmp a b ≢ Ordering.gt → cmp b c ≡ Ordering.lt → cmp a c ≡ Ordering.lt
  le-lt_trans a b c h k =
      ground
        (arith, laws.transitive a b c, laws.transitive c a b, laws.flipped b c, laws.flipped a c)

  gt-flip : (a b : K) → cmp a b ≡ Ordering.gt → cmp b a ≡ Ordering.lt
  gt-flip a b h = ground (arith, laws.flipped a b)

-- Nodes with ascending keys, no two of them equal.
module _ {K : Type 0} (cmp : K → K → Ordering) (keys : ℕ → K) where
  abbrev pub IsAbove : K → List ℕ → Type 0
  IsAbove k = All (λ n. cmp k (keys n) ≡ Ordering.lt)

  abbrev IsBelow : K → List ℕ → Type 0
  IsBelow k = All (λ n. cmp (keys n) k ≡ Ordering.lt)

  abbrev pub IsAscending : List ℕ → Type 0
  IsAscending [] = Unit {0}
  IsAscending (n ∷ ns) = IsAbove (keys n) ns × IsAscending ns

  -- The nodes whose keys are below a key, and those from it on.
  abbrev pub lows : K → List ℕ → List ℕ
  lows k [] = []
  lows k (n ∷ ns) = let rest = lows k ns in if is_lt (cmp (keys n) k) then n ∷ rest else []

  abbrev pub highs : K → List ℕ → List ℕ
  highs k [] = []
  highs k (n ∷ ns) = let rest = highs k ns in if is_lt (cmp (keys n) k) then rest else n ∷ ns

  pub lows-highs : (k : K) (ns : List ℕ) → lows k ns ++ highs k ns ≡ ns
  lows-highs k [] = refl
  lows-highs k (n ∷ ns) = ground (arith, lows-highs k ns)

  pub lows-IsBelow : (k : K) (ns : List ℕ) → IsBelow k (lows k ns)
  lows-IsBelow k [] = tt
  lows-IsBelow k (n ∷ ns) = ground (arith, lows-IsBelow k ns)

  abbrev pub first : List ℕ → Option ℕ
  first [] = none
  first (n ∷ ns) = some n

  -- What `equal` is false for in the assertion of an insertion.
  abbrev pub Differs : K → Option ℕ → Type 0
  Differs k none = Unit {0}
  Differs k (some n) = cmp k (keys n) ≢ Ordering.eq

  -- A node with the key goes in between.
  abbrev pub placed : K → (x : ℕ) → List ℕ → List ℕ
  placed k x ns = lows k ns ++ (x ∷ highs k ns)

  module _ (laws : IsKeyOrder cmp) where
    pub IsAbove-weaken :
        (a b : K) (ns : List ℕ) → cmp a b ≢ Ordering.gt → IsAbove b ns → IsAbove a ns
    IsAbove-weaken a b [] h above = tt
    IsAbove-weaken a b (n ∷ ns) h above =
        (le-lt_trans cmp laws a b (keys n) h above.0, IsAbove-weaken a b ns h above.1)

    above-NotBelow :
        (a k : K) (ns : List ℕ)
        → cmp a k ≢ Ordering.lt
        → IsAbove a ns
        → All (λ n. cmp (keys n) k ≢ Ordering.lt) ns
    above-NotBelow a k [] h above = tt
    above-NotBelow a k (n ∷ ns) h above = (
      λ bad. h (lt-le_trans cmp laws a (keys n) k above.0 (ground arith)),
      above-NotBelow a k ns h above.1,
    )

    pub highs-NotBelow :
        (k : K) (ns : List ℕ)
        → IsAscending ns
        → All (λ n. cmp (keys n) k ≢ Ordering.lt) (highs k ns)
    highs-NotBelow k [] up = tt
    highs-NotBelow k (n ∷ ns) up =
        ground (arith, highs-NotBelow k ns up.1, above-NotBelow (keys n) k ns)

    IsAbove-placed :
        (a k : K) (x : ℕ) (ns : List ℕ)
        → cmp a k ≡ Ordering.lt
        → keys x ≡ k
        → IsAbove a ns
        → IsAbove a (placed k x ns)
    IsAbove-placed a k x [] h e above = (rw e h, tt)
    IsAbove-placed a k x (n ∷ ns) h e above = ground (arith, IsAbove-placed a k x ns h e above.1)

    pub placed-IsAscending :
        (k : K) (x : ℕ) (ns : List ℕ)
        → IsAscending ns
        → keys x ≡ k
        → Differs k (first (highs k ns))
        → IsAscending (placed k x ns)
    placed-IsAscending k x [] up e new = (tt, tt)
    placed-IsAscending k x (n ∷ ns) up e new = ground (
      arith,
      IsAbove-placed (keys n) k x ns,
      placed-IsAscending k x ns up.1 e,
      IsAbove-weaken k (keys n) ns,
      laws.flipped (keys n) k,
    )

-- Only the keys of the nodes listed matter.
module _ {K : Type 0} (cmp : K → K → Ordering) (keys keys' : ℕ → K) where
  abbrev pub HasSameKeys : List ℕ → Type 0
  HasSameKeys = All (λ n. keys' n ≡ keys n)

  pub placed-same :
      (k : K) (x : ℕ) (ns : List ℕ)
      → HasSameKeys ns
      → placed cmp keys' k x ns ≡ placed cmp keys k x ns
  placed-same k x [] same = refl
  placed-same k x (n ∷ ns) same = ground (arith, placed-same k x ns same.1)

  pub first-highs-same :
      (k : K) (ns : List ℕ)
      → HasSameKeys ns
      → Differs cmp keys k (first cmp keys (highs cmp keys k ns))
      → Differs cmp keys' k (first cmp keys' (highs cmp keys' k ns))
  first-highs-same k [] same d = tt
  first-highs-same k (n ∷ ns) same d = ground (arith, first-highs-same k ns same.1)

  IsAbove-same :
      (a : K) (ns : List ℕ) → HasSameKeys ns → IsAbove cmp keys a ns → IsAbove cmp keys' a ns
  IsAbove-same a [] same above = tt
  IsAbove-same a (n ∷ ns) same above = (rw same.0 above.0, IsAbove-same a ns same.1 above.1)

  pub IsAscending-same :
      (ns : List ℕ) → HasSameKeys ns → IsAscending cmp keys ns → IsAscending cmp keys' ns
  IsAscending-same [] same up = tt
  IsAscending-same (n ∷ ns) same up =
      (rw same.0 (IsAbove-same (keys n) ns same.1 up.0), IsAscending-same ns same.1 up.1)
