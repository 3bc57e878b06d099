-- ===== src/SkipList/Find.antt =====
-- What the searches and `contains` give on a skip list.
use distributed_kvstorage.Common.{
  ℕ, suc, ◌+◌, ◌-◌, ◌≤◌, ◌<◌, ◌≡◌, ◌≢◌, refl, ap, Ordering, Bool, false, Option, none, some, List,
  [], ◌∷◌, ◌++◌, append-nil, All, length, arith, ◌⊎◌, inl, inr,
}
use distributed_kvstorage.Arena.{Block}
use distributed_kvstorage.SkipList.{
  SkipList, Prev, set_prev, Place, Round, go, done, key_is_after_node, find_greater_or_equal_round,
  find_greater_or_equal, find_less_than_round, find_less_than, find_last_round, find_last, contains,
  equal,
}
use distributed_kvstorage.SkipList.Chains.{head_of, last_or}
use distributed_kvstorage.SkipList.Search.{search-rounds, IsReady}
use distributed_kvstorage.SkipList.Tasks.{Task, IsSearch, place, noted}
use distributed_kvstorage.SkipList.Order.{
  IsKeyOrder, IsAscending, IsAbove, IsAbove-weaken, lows, highs, lows-highs, lows-IsBelow,
  highs-NotBelow,
}
use distributed_kvstorage.SkipList.State.{IsSkipList, keys_of, is_member}

abbrev greater_or_equal_task : Task (Option ℕ × Prev)
greater_or_equal_task = record { note = set_prev; answer = λ next prev x. (next, prev) }

abbrev node_task : Task ℕ
node_task = record { note = λ prev level x. prev; answer = λ next prev x. x }

module _ {K : Type 0} (cmp : K → K → Ordering) (s : SkipList K) (key : K) where
  abbrev IsLow : ℕ → Type 0
  IsLow n = cmp (s.keys n) key ≡ Ordering.lt

  abbrev IsHigh : ℕ → Type 0
  IsHigh n = cmp (s.keys n) key ≢ Ordering.lt

  not_after : (ns : List ℕ) → All IsHigh ns → key_is_after_node cmp s key (head_of ns) ≡ false
  unfolding key_is_after_node
  not_after [] all = refl
  not_after (n ∷ ns) all = ground (arith, all.0)

  find_greater_or_equal-IsSearch :
      IsSearch s
        (find_greater_or_equal_round cmp s key)
        greater_or_equal_task
        IsLow
        IsHigh
        (λ _. Unit {0})
  unfolding find_greater_or_equal_round key_is_after_node
  find_greater_or_equal-IsSearch = record {
    arrive = λ n low. tt;
    forward = λ x level y prev here e low. rw (e, low) refl;
    down = λ x level prev ns here e off. rw (e, not_after ns off) (ground arith);
    finish = λ x prev ns here e off. rw (e, not_after ns off) (ground arith);
  }

  abbrev IsPassed : ℕ → Type 0
  IsPassed x = (x ≡ s.head) ⊎ IsLow x

  less_than-down :
      (x level : ℕ) (prev : Prev) (ns : List ℕ)
      → IsPassed x
      → s.nexts x (suc level) ≡ some (head_of ns)
      → All IsHigh ns
      → find_less_than_round cmp s key (place x (suc level) prev) ≡ some (go (place x level prev))
  unfolding find_less_than_round
  less_than-down x level prev [] here e off = ground (arith, e, here)
  less_than-down x level prev (n ∷ ns) here e off = ground (arith, e, here, off.0)

  less_than-finish :
      (x : ℕ) (prev : Prev) (ns : List ℕ)
      → IsPassed x
      → s.nexts x 0 ≡ some (head_of ns)
      → All IsHigh ns
      → find_less_than_round cmp s key (place x 0 prev) ≡ some (done x)
  unfolding find_less_than_round
  less_than-finish x prev [] here e off = ground (arith, e, here)
  less_than-finish x prev (n ∷ ns) here e off = ground (arith, e, here, off.0)

  find_less_than-IsSearch :
      IsSearch s (find_less_than_round cmp s key) node_task IsLow IsHigh IsPassed
  unfolding find_less_than_round
  find_less_than-IsSearch = record {
    arrive = λ n low. inr low;
    forward = λ x level y prev here e low. ground (arith, e, low, here);
    down = less_than-down;
    finish = less_than-finish;
  }

module _ {K : Type 0} (s : SkipList K) where
  last-down :
      (x level : ℕ) (prev : Prev) (ns : List ℕ)
      → s.nexts x (suc level) ≡ some (head_of ns)
      → All (λ _. ⊥) ns
      → find_last_round s (place x (suc level) prev) ≡ some (go (place x level prev))
  unfolding find_last_round
  last-down x level prev [] e off = rw e (ground arith)
  last-down x level prev (n ∷ ns) e off = absurd off.0

  last-finish :
      (x : ℕ) (prev : Prev) (ns : List ℕ)
      → s.nexts x 0 ≡ some (head_of ns)
      → All (λ _. ⊥) ns
      → find_last_round s (place x 0 prev) ≡ some (done x)
  unfolding find_last_round
  last-finish x prev [] e off = rw e (ground arith)
  last-finish x prev (n ∷ ns) e off = absurd off.0

  find_last-IsSearch :
      IsSearch s (find_last_round s) node_task (λ _. Unit {0}) (λ _. ⊥) (λ _. Unit {0})
  unfolding find_last_round
  find_last-IsSearch = record {
    arrive = λ n on. tt;
    forward = λ x level y prev here e on. rw e refl;
    down = λ x level prev ns here. last-down x level prev ns;
    finish = λ x prev ns here. last-finish x prev ns;
  }

All-trivial : (ns : List ℕ) → All (λ _. Unit {0}) ns
All-trivial [] = tt
All-trivial (n ∷ ns) = (tt, All-trivial ns)

positive :
    (h : ℕ → ℕ) (top : ℕ) (sizes : ℕ → ℕ) (ns : List ℕ)
    → All (λ n. (0 < h n) × (h n ≤ top) × (h n ≤ sizes n)) ns
    → All (λ n. 0 < h n) ns
positive h top sizes [] all = tt
positive h top sizes (n ∷ ns) all = (all.0.0, positive h top sizes ns all.1)

length-lows :
    {K : Type 0} (cmp : K → K → Ordering) (keys : ℕ → K) (k : K) (ns : List ℕ)
    → length (lows cmp keys k ns) ≤ length ns
length-lows cmp keys k [] = omega arith
length-lows cmp keys k (n ∷ ns) = ground (arith, length-lows cmp keys k ns)

module _ {K : Type 0} (cmp : K → K → Ordering) (keys : ℕ → K) (laws : IsKeyOrder cmp) where
  above-is_member :
      (k : K) (ns : List ℕ) → IsAbove cmp keys k ns → is_member cmp k (keys_of keys ns) ≡ false
  above-is_member k [] above = refl
  above-is_member k (n ∷ ns) above = ground (arith, above.0, above-is_member k ns above.1)

  -- The first node that is not below a key decides whether the key is there.
  pub highs-is_member :
      (k : K) (ns : List ℕ)
      → IsAscending cmp keys ns
      → ◌≡◌ {A = Bool}
          (elim (head_of (highs cmp keys k ns)) [ none ↦ false | some n ↦ equal cmp k (keys n) ])
          (is_member cmp k (keys_of keys ns))
  unfolding equal
  highs-is_member k [] up = refl
  highs-is_member k (n ∷ ns) up = ground (
    arith,
    highs-is_member k ns up.1,
    laws.flipped (keys n) k,
    IsAbove-weaken cmp keys laws k (keys n) ns,
    above-is_member k ns,
  )

module _ {K : Type 0} (cmp : K → K → Ordering) (laws : IsKeyOrder cmp) (s : SkipList K)
    (given : List Block) (h : ℕ → ℕ) (nodes : List ℕ) (is : IsSkipList cmp s given h nodes) where
  ready :
      {A : Type 0} (round : Place → Option (Round A)) (task : Task A) (Go Stop Here : ℕ → Type 0)
      (laws : IsSearch s round task Go Stop Here) (ls rs : List ℕ)
      → ls ++ rs ≡ nodes
      → All Go ls
      → All Stop rs
      → Here s.head
      → IsReady s h round task Go Stop Here laws (s.max_height - 1) s.head ls rs
  ready round task Go Stop Here laws ls rs e on off here = record {
    linked = λ i le. rw e (is.linked i (omega (arith, is.few_levels, is.some_level)));
    on = on;
    off = off;
    linked_once = rw e (positive h s.max_height s.sizes nodes is.heights);
    here = here;
  }

  -- What a search for a key finds, on each level.
  pub find_greater_or_equal-highs :
      (fuel : ℕ) (key : K) (prev : Prev)
      → length nodes + 12 ≤ fuel
      → find_greater_or_equal cmp fuel s key prev
        ≡ some (
          head_of (highs cmp s.keys key nodes),
          noted h set_prev (s.max_height - 1) prev s.head (lows cmp s.keys key nodes),
        )
  unfolding find_greater_or_equal
  find_greater_or_equal-highs fuel key prev enough =
      search-rounds s h _ greater_or_equal_task _ _ _ (find_greater_or_equal-IsSearch cmp s key)
        fuel (s.max_height - 1) s.head prev (lows cmp s.keys key nodes) (highs cmp s.keys key nodes)
        (ready _ _ _ _ _ (find_greater_or_equal-IsSearch cmp s key) _ _
          (lows-highs cmp s.keys key nodes) (lows-IsBelow cmp s.keys key nodes)
          (highs-NotBelow cmp s.keys laws key nodes is.ascending) tt)
        (omega (arith, length-lows cmp s.keys key nodes, is.few_levels))

  pub find_less_than-lows :
      (fuel : ℕ) (key : K)
      → length nodes + 12 ≤ fuel
      → find_less_than cmp fuel s key ≡ some (last_or s.head (lows cmp s.keys key nodes))
  unfolding find_less_than
  find_less_than-lows fuel key enough =
      search-rounds s h _ node_task _ _ _ (find_less_than-IsSearch cmp s key) fuel
        (s.max_height - 1) s.head none (lows cmp s.keys key nodes) (highs cmp s.keys key nodes)
        (ready _ _ _ _ _ (find_less_than-IsSearch cmp s key) _ _ (lows-highs cmp s.keys key nodes)
          (lows-IsBelow cmp s.keys key nodes)
          (highs-NotBelow cmp s.keys laws key nodes is.ascending) (inl refl))
        (omega (arith, length-lows cmp s.keys key nodes, is.few_levels))

  pub find_last-nodes :
      (fuel : ℕ) → length nodes + 12 ≤ fuel → find_last fuel s ≡ some (last_or s.head nodes)
  unfolding find_last
  find_last-nodes fuel enough =
      search-rounds s h _ node_task _ _ _ (find_last-IsSearch s) fuel (s.max_height - 1) s.head none
        nodes []
        (ready _ _ _ _ _ (find_last-IsSearch s) nodes [] (append-nil nodes) (All-trivial nodes) tt
          tt)
        (omega (arith, is.few_levels))

  -- `contains` answers, and true exactly if one of the keys compares equal.
  pub contains-is_member :
      (fuel : ℕ) (key : K)
      → length nodes + 12 ≤ fuel
      → contains cmp fuel s key ≡ some (is_member cmp key (keys_of s.keys nodes))
  unfolding contains
  contains-is_member fuel key enough =
      rw (find_greater_or_equal-highs fuel key none enough)
        (ap some (highs-is_member cmp s.keys laws key nodes is.ascending))
