-- ===== src/SkipList/Readers/Rounds.antt =====
-- One round of a search in the memory of a list that is linked at this moment.
use distributed_kvstorage.Common.{
  ℕ, zero, suc, ◌+◌, ◌<◌, ◌≡◌, refl, sym, ap, ◌∙◌, Ordering, Bool, true, false, Option, some, none,
  List, [], ◌∷◌, length, arith,
}
use distributed_kvstorage.SkipList.{
  SkipList, Prev, Place, Round, go, done, find_greater_or_equal_round, key_is_after_node, set_prev,
}
use distributed_kvstorage.SkipList.Chains.{at_level, head_of, IsLinked}
use distributed_kvstorage.SkipList.Order.{IsKeyOrder, IsAscending, highs}
use distributed_kvstorage.SkipList.Tasks.{place}
use distributed_kvstorage.SkipList.Readers.Search.{
  Stands, Stands-next, Stands-forward, Stands-down, Stands-highs,
}

module _ {K : Type 0} (cmp : K → K → Ordering) (s : SkipList K) (key : K) (nodes : List ℕ)
    (h : ℕ → ℕ) where
  -- The first node of the list from the key on.
  abbrev pub first_from : Option ℕ
  first_from = head_of (highs cmp s.keys key (at_level h 0 nodes))

  -- A search that stands in the list, or has returned what is right for it.
  -- `n` bounds the rounds that are left.
  abbrev pub Reads : ℕ → Round (Option ℕ × Prev) → Type 0
  Reads n (go p) =
      (p.level < 12)
      × ((vs : List ℕ) × (length vs + p.level < n)
          × Stands cmp s.keys key s.head nodes h p.level p.node vs)
  Reads n (done a) = a.0 ≡ first_from

  stops :
      (l : List ℕ)
      → key_is_after_node cmp s key (head_of l) ≡ false
      → head_of l ≡ head_of (highs cmp s.keys key l)
  unfolding key_is_after_node
  stops [] e = refl
  stops (n ∷ l) e = ground (arith, e)

  goes : (y : ℕ) → key_is_after_node cmp s key (some y) ≡ true → cmp (s.keys y) key ≡ Ordering.lt
  unfolding key_is_after_node
  goes y e = ground (arith, e)

  nothing_after : key_is_after_node cmp s key none ≡ false
  unfolding key_is_after_node
  nothing_after = refl

  module _ (laws : IsKeyOrder cmp) (up : IsAscending cmp s.keys nodes) where
    round-case :
        (n level node : ℕ) (prev : Prev) (vs : List ℕ) (next : Option ℕ) (after : Bool)
        → level < 12
        → length vs + level < suc n
        → s.nexts node level ≡ some next
        → head_of (at_level h level vs) ≡ next
        → key_is_after_node cmp s key next ≡ after
        → Stands cmp s.keys key s.head nodes h level node vs
        → (r : Round (Option ℕ × Prev)) × (find_greater_or_equal_round cmp s key
              (place node level prev)
            ≡ some r)
          × Reads n r
    unfolding find_greater_or_equal_round
    round-case n level node prev vs none true small enough load e test st =
        absurd (ground (arith, nothing_after, test))
    round-case n level node prev vs (some y) true small enough load e test st =
        let (ws, shorter, st') =
          Stands-forward cmp s.keys key s.head nodes h level node vs y e (goes y test) st in
        (go (place y level prev), rw (load, test) refl, (small, (ws, omega arith, st')))
    round-case n zero node prev vs next false small enough load e test st = (
      done (next, set_prev prev 0 node),
      rw (load, test) refl,
      sym e
          ∙ stops (at_level h 0 vs) (ap (key_is_after_node cmp s key) e ∙ test)
          ∙ sym (ap head_of (Stands-highs cmp s.keys key s.head nodes h node vs laws up st)),
    )
    round-case n (suc level) node prev vs next false small enough load e test st = (
      go (place node level (set_prev prev (suc level) node)),
      rw (load, test) (ground arith),
      (omega arith, (vs, omega arith, Stands-down cmp s.keys key s.head nodes h level node vs st)),
    )

    pub round-Reads :
        (n : ℕ) (p : Place)
        → IsLinked s.nexts h 12 s.head nodes
        → Reads (suc n) (go p)
        → (r : Round (Option ℕ × Prev)) × (find_greater_or_equal_round cmp s key p ≡ some r)
          × Reads n r
    round-Reads n p linked (small, (vs, enough, st)) =
        round-case n p.level p.node p.prev vs (head_of (at_level h p.level vs))
          (key_is_after_node cmp s key (head_of (at_level h p.level vs))) small enough
          (Stands-next cmp s.keys key s.head nodes h p.level p.node vs s.nexts
            (linked p.level small) st)
          refl refl st
