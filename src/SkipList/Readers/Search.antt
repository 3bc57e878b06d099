-- ===== src/SkipList/Readers/Search.antt =====
-- Where a search stands in the nodes of a list, and how a round goes on from there.
use distributed_kvstorage.Common.{
  ℕ, suc, ◌≤◌, ◌<◌, ◌≡◌, refl, sym, ap, ◌∙◌, subst, Ordering, Option, some, List, [], ◌∷◌, ◌++◌,
  append_assoc, length, length-append, All-part, arith, inl, inr,
}
use distributed_kvstorage.SkipList.Chains.{
  at_level, All-at_level, head_of, at_level-append, Chain-first, Chain-after, Chain, find_first,
  FirstAt,
}
use distributed_kvstorage.SkipList.Order.{IsKeyOrder, IsAscending, highs, lt-le_trans}
use mathlib.Core.Option.{some-injective}

module _ {K : Type 0} (cmp : K → K → Ordering) (keys : ℕ → K) where
  IsAscending-level :
      (h : ℕ → ℕ) (i : ℕ) (ns : List ℕ)
      → IsAscending cmp keys ns
      → IsAscending cmp keys (at_level h i ns)
  IsAscending-level h i [] up = tt
  IsAscending-level h i (n ∷ ns) up = ground (
    arith,
    All-at_level (λ m. cmp (keys n) (keys m) ≡ Ordering.lt) h i ns,
    IsAscending-level h i ns,
  )

  -- Nothing up to a node below the key counts.
  highs-behind :
      IsKeyOrder cmp
      → (key : K) (us : List ℕ) (n : ℕ) (vs : List ℕ) → IsAscending cmp keys (us ++ (n ∷ vs))
      → cmp (keys n) key ≡ Ordering.lt
      → highs cmp keys key (us ++ (n ∷ vs)) ≡ highs cmp keys key vs
  highs-behind laws key [] n vs up low = ground (arith, low)
  highs-behind laws key (u ∷ us) n vs up low =
      let above = (All-part (λ m. cmp (keys u) (keys m) ≡ Ordering.lt) us (n ∷ vs) up.0).1.0 in
      let below = lt-le_trans cmp laws (keys u) (keys n) key above (ground arith) in
      ground (arith, below, highs-behind laws key us n vs up.1 low)

module _ {K : Type 0} (cmp : K → K → Ordering) (keys : ℕ → K) (key : K) (head : ℕ)
    (nodes : List ℕ) where
  -- A search at `node` and `level`, with the nodes `vs` behind it.
  pub data Stands (h : ℕ → ℕ) (level node : ℕ) (vs : List ℕ) : Type 0 where
    at_head : node ≡ head → vs ≡ nodes → Stands h level node vs
    at_node :
        (us : List ℕ)
        → nodes ≡ us ++ (node ∷ vs)
        → level < h node
        → cmp (keys node) key ≡ Ordering.lt
        → Stands h level node vs

  pub Stands-down :
      (h : ℕ → ℕ) (level node : ℕ) (vs : List ℕ)
      → Stands h (suc level) node vs
      → Stands h level node vs
  Stands-down h level node vs (at_head e f) = at_head e f
  Stands-down h level node vs (at_node us e tall low) = at_node us e (omega arith) low

  pub Stands-grow :
      (h h' : ℕ → ℕ) (level node : ℕ) (vs : List ℕ)
      → ((n : ℕ) → h n ≤ h' n)
      → Stands h level node vs
      → Stands h' level node vs
  Stands-grow h h' level node vs more (at_head e f) = at_head e f
  Stands-grow h h' level node vs more (at_node us e tall low) =
      at_node us e (omega (arith, more node)) low

  split_at :
      (h : ℕ → ℕ) (i : ℕ) (us : List ℕ) (n : ℕ) (vs : List ℕ)
      → nodes ≡ us ++ (n ∷ vs)
      → i < h n
      → at_level h i nodes ≡ at_level h i us ++ (n ∷ at_level h i vs)
  split_at h i us n vs e tall = ap (at_level h i) e ∙ at_level-append h i us (n ∷ vs) ∙ ground arith

  -- The pointer that the search loads.
  pub Stands-next :
      (h : ℕ → ℕ) (level node : ℕ) (vs : List ℕ) (nexts : ℕ → ℕ → Option (Option ℕ))
      → Chain nexts level head (at_level h level nodes)
      → Stands h level node vs
      → nexts node level ≡ some (head_of (at_level h level vs))
  Stands-next h level node vs nexts linked (at_head e f) =
      rw (e, f) (Chain-first nexts level head (at_level h level nodes) linked)
  Stands-next h level node vs nexts linked (at_node us e tall low) =
      Chain-first nexts level node (at_level h level vs) (
        Chain-after nexts level head (at_level h level us) node (at_level h level vs)
          (subst (Chain nexts level head) (split_at h level us node vs e tall) linked))

  -- A step to a node that the key is behind.
  step_whole :
      (h : ℕ → ℕ) (level node : ℕ) (vs : List ℕ) (f : FirstAt h level vs)
      → Stands h level node vs
      → (us : List ℕ) × (nodes ≡ us ++ (f.node ∷ f.rest))
  step_whole h level node vs f (at_head e g) = (f.skipped, sym g ∙ f.whole)
  step_whole h level node vs f (at_node us e tall low) = (
    us ++ (node ∷ f.skipped),
    e
        ∙ ap (λ t. us ++ (node ∷ t)) f.whole
        ∙ sym (append_assoc us (node ∷ f.skipped) (f.node ∷ f.rest)),
  )

  pub Stands-forward :
      (h : ℕ → ℕ) (level node : ℕ) (vs : List ℕ) (y : ℕ)
      → head_of (at_level h level vs) ≡ some y
      → cmp (keys y) key ≡ Ordering.lt
      → Stands h level node vs
      → (ws : List ℕ) × (length ws < length vs) × Stands h level y ws
  Stands-forward h level node vs y e low st = elim (find_first h level vs) [
    | inl nothing ↦ absurd (ground (arith, e, nothing))
    | inr f ↦
        let first : at_level h level vs ≡ f.node ∷ at_level h level f.rest =
          ap (at_level h level) f.whole
          ∙ at_level-append h level f.skipped (f.node ∷ f.rest)
          ∙ ground (arith, f.low level, f.tall) in
        let same : f.node ≡ y = some-injective _ _ (sym (ap head_of first) ∙ e) in
        let (us, whole) = step_whole h level node vs f st in
        (
          f.rest,
          omega (arith, ap length f.whole, length-append f.skipped (f.node ∷ f.rest)),
          subst (λ t. Stands h level t f.rest) same (at_node us whole f.tall (rw same low)),
        )
  ]

  -- What is not below the key in the list is not below it behind the search.
  pub Stands-highs :
      (h : ℕ → ℕ) (node : ℕ) (vs : List ℕ)
      → IsKeyOrder cmp
      → IsAscending cmp keys nodes
      → Stands h 0 node vs
      → highs cmp keys key (at_level h 0 nodes) ≡ highs cmp keys key (at_level h 0 vs)
  Stands-highs h node vs laws up (at_head e f) = rw f refl
  Stands-highs h node vs laws up (at_node us e tall low) =
      let split = split_at h 0 us node vs e tall in
      ap (highs cmp keys key) split
      ∙ highs-behind cmp keys laws key (at_level h 0 us) node (at_level h 0 vs)
          (subst (IsAscending cmp keys) split (IsAscending-level cmp keys h 0 nodes up)) low
