-- ===== src/SkipList/Laws.antt =====
-- The operations of the skip list on the keys that it holds.
use distributed_kvstorage.Common.{
  ℕ, zero, suc, ◌+◌, ◌*◌, ◌^◌, ◌≤◌, ◌<◌, ◌≡◌, refl, ap, ◌∙◌, subst, Ordering, Bool, true, false,
  not, Option, none, some, List, [], ◌∷◌, length, arith, inl,
}
use distributed_kvstorage.Arena.{Block, Arena}
use distributed_kvstorage.Arena.Regions.{Covered, IsAllocator, region}
use distributed_kvstorage.Arena.Laws.{allocate_aligned-IsGood}
use distributed_kvstorage.Arena.Regions
use distributed_kvstorage.Random.{make_random}
use distributed_kvstorage.SkipList.{
  SkipList, set_next, update, update_cell, equal, contains, clear_loop, make_skip_list, new_node,
  insert,
}
use distributed_kvstorage.SkipList.Order.{IsKeyOrder, highs}
use distributed_kvstorage.SkipList.Chains.{head_of}
use distributed_kvstorage.SkipList.Find.{
  find_greater_or_equal-highs, highs-is_member, contains-is_member,
}
use distributed_kvstorage.SkipList.State.{insert_key, is_member}
use distributed_kvstorage.SkipList.Represents.{Represents, not-found}
use native.Mathlib.Decide.{dec_lt}
use distributed_kvstorage.SkipList.Insertion.{insert-IsSkipList, length-keys_of}

-- The constructor's loop writes nullptr to the levels of the head.
clear_loop-nexts :
    {K : Type 0} (count i : ℕ) (s : SkipList K)
    → i + count ≤ s.sizes s.head
    → (nexts : ℕ → ℕ → Option (Option ℕ)) × (clear_loop count i s
        ≡ some (record s { nexts = nexts }))
      × ((j : ℕ) → j < i → nexts s.head j ≡ s.nexts s.head j)
      × ((j : ℕ) → i ≤ j → j < i + count → nexts s.head j ≡ some none)
unfolding clear_loop set_next
clear_loop-nexts zero i s room = (s.nexts, refl, λ j lt. refl, λ j le lt. absurd (omega arith))
clear_loop-nexts (suc count) i s room =
    let cleared = update_cell s.nexts s.head i (some none) in
    let (nexts, e, old, new) =
      clear_loop-nexts count (i + 1) (record s { nexts = cleared }) (omega arith) in
    (
      nexts,
      ground (arith, e),
      λ j lt. old j (omega arith) ∙ ground arith,
      λ j le lt. elim (dec_lt i j) [
        | yes above ↦ new j (omega arith) (omega arith)
        | no here ↦ old j (omega arith) ∙ ground arith
      ],
    )

module _ {K : Type 0} (new_array : List Block → ℕ → ℕ) (memory : IsAllocator new_array)
    (node_size : ℕ) (sized : 0 < node_size) (fits : node_size + 104 < 2 ^ 64)
    (cmp : K → K → Ordering) where
  -- On a sound allocator and an arena in a good state, the constructor runs through, and the list
  -- holds no key. A node has at least a byte, and its size leaves room for the pointers in a size_t.
  pub make_skip_list-Represents :
      (arena : Arena) (given : List Block) (zero_key : K)
      → Regions.IsGood arena given
      → (s : SkipList K) × (make_skip_list new_array node_size arena zero_key ≡ some s)
        × Represents cmp s []
  unfolding make_skip_list new_node
  make_skip_list-Represents arena given zero_key good =
      let bytes = node_size + 8 * 11 in
      let (x, arena', e, good', _) =
        allocate_aligned-IsGood new_array memory arena given bytes good (omega arith) in
      let blank : SkipList K = record {
        arena = arena';
        head = x;
        max_height = 1;
        rnd = make_random 0xdeadbeef;
        keys = update (λ _. zero_key) x zero_key;
        sizes = update (λ _. 0) x 12;
        nexts = update (λ _ _. none) x (λ _. none);
      } in
      let (nexts, cleared, _, empty) = clear_loop-nexts 12 0 blank (ground arith) in
      (
        record blank { nexts = nexts },
        rw e cleared,
        record {
          given = region x bytes ∷ given;
          levels = λ _. 0;
          nodes = [];
          is = record {
            arena = good';
            linked = λ i le. empty i (omega arith) le;
            ascending = tt;
            some_level = omega arith;
            few_levels = omega arith;
            head_size = ground arith;
            heights = tt;
            distinct = (tt, tt);
            owned = (inl (omega arith, omega arith), tt);
          };
          same = refl;
        },
      )

  module _ (laws : IsKeyOrder cmp) where
    -- On a sound allocator and a total preorder of keys, and with fuel for all nodes and 12 levels:
    -- inserting a key that compares equal to none of the keys held fails no assertion, reads no
    -- unwritten pointer, and puts the key in front of the first that is not below it.
    pub insert-insert_key :
        (fuel : ℕ) (s : SkipList K) (ks : List K) (key : K)
        → Represents cmp s ks
        → length ks + 12 ≤ fuel
        → is_member cmp key ks ≡ false
        → (after : SkipList K) × (insert new_array node_size cmp fuel s key ≡ some after)
          × Represents cmp after (insert_key cmp key ks)
    insert-insert_key fuel s ks key r enough new =
        subst
          (λ l.
            (after : SkipList K) × (insert new_array node_size cmp fuel s key ≡ some after)
            × Represents cmp after (insert_key cmp key l))
          r.same
          (insert-IsSkipList new_array memory node_size sized fits cmp laws fuel s r.given r.levels
            r.nodes key r.is (omega (arith, length-keys_of s.keys r.nodes, ap length r.same))
            (ap (is_member cmp key) r.same ∙ new))

    -- Over a total preorder of keys, with fuel for the nodes and 12 levels, inserting a key that
    -- compares equal to one held fails the assertion.
    pub insert-duplicate :
        (fuel : ℕ) (s : SkipList K) (ks : List K) (key : K)
        → Represents cmp s ks
        → length ks + 12 ≤ fuel
        → is_member cmp key ks ≡ true
        → insert new_array node_size cmp fuel s key ≡ none
    unfolding insert
    insert-duplicate fuel s ks key r enough old =
        let found =
          find_greater_or_equal-highs cmp laws s r.given r.levels r.nodes r.is fuel key
            (some (λ _. none)) (omega (arith, length-keys_of s.keys r.nodes, ap length r.same)) in
        let asserted : ◌≡◌ {A = Bool}
            (elim (head_of (highs cmp s.keys key r.nodes)) [
              | none ↦ true
              | some n ↦ not (equal cmp key (s.keys n))
            ])
            false =
          not-found (head_of (highs cmp s.keys key r.nodes)) (λ n. equal cmp key (s.keys n))
          ∙ ap not (
              highs-is_member cmp s.keys laws key r.nodes r.is.ascending
              ∙ ap (is_member cmp key) r.same
              ∙ old) in
        rw (found, asserted) refl

    -- Over a total preorder of keys, with fuel for the nodes and 12 levels, `contains` answers
    -- whether a key held compares equal.
    pub contains-Represents :
        (fuel : ℕ) (s : SkipList K) (ks : List K) (key : K)
        → Represents cmp s ks
        → length ks + 12 ≤ fuel
        → contains cmp fuel s key ≡ some (is_member cmp key ks)
    contains-Represents fuel s ks key r enough =
        contains-is_member cmp laws s r.given r.levels r.nodes r.is fuel key
          (omega (arith, length-keys_of s.keys r.nodes, ap length r.same))
        ∙ ap (λ l. some (is_member cmp key l)) r.same
