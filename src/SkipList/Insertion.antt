-- ===== src/SkipList/Insertion.antt =====
-- The insertion of a new key: the invariant after it, and the key at its place.
use distributed_kvstorage.Common.{
  ℕ, ◌+◌, ◌-◌, ◌*◌, ◌^◌, ◌≤◌, ◌<◌, ◌≡◌, refl, ap, ◌∙◌, Ordering, Bool, true, false, not, none, some,
  List, [], ◌∷◌, length, ltb, if◌then◌else◌, arith,
}
use distributed_kvstorage.Arena.{Block}
use distributed_kvstorage.Arena.Regions.{IsAllocator, region}
use distributed_kvstorage.Arena.Laws.{allocate_aligned-IsGood}
use distributed_kvstorage.SkipList.{SkipList, update, equal, new_node, insert}
use distributed_kvstorage.SkipList.Order.{IsKeyOrder, highs, placed, Differs, first}
use distributed_kvstorage.SkipList.Chains.{head_of}
use distributed_kvstorage.SkipList.Find.{find_greater_or_equal-highs, highs-is_member}
use distributed_kvstorage.SkipList.Insert.{random_height-bounds}
use distributed_kvstorage.SkipList.State.{IsSkipList, keys_of, insert_key, is_member}
use distributed_kvstorage.SkipList.Represents.{Represents, keys_of-placed, not-found}
use distributed_kvstorage.SkipList.Allocated.{fresh, new, linked_after, after-IsSkipList}

pub length-keys_of :
    {K : Type 0} (keys : ℕ → K) (ns : List ℕ) → length (keys_of keys ns) ≡ length ns
length-keys_of keys [] = refl
length-keys_of keys (n ∷ ns) = omega (arith, length-keys_of keys ns)

pub Differs-new :
    {K : Type 0} (cmp : K → K → Ordering) (keys : ℕ → K) (key : K) (ns : List ℕ)
    → ◌≡◌ {A = Bool} (elim (head_of ns) [ none ↦ false | some n ↦ equal cmp key (keys n) ]) false
    → Differs cmp keys key (first cmp keys ns)
unfolding equal
Differs-new cmp keys key [] e = tt
Differs-new cmp keys key (n ∷ ns) e = λ bad. ground (arith, e, bad)

module _ {K : Type 0} (new_array : List Block → ℕ → ℕ) (memory : IsAllocator new_array)
    (node_size : ℕ) (sized : 0 < node_size) (fits : node_size + 104 < 2 ^ 64)
    (cmp : K → K → Ordering) (laws : IsKeyOrder cmp) where
  -- The insertion, from what the list holds.
  pub insert-IsSkipList :
      (fuel : ℕ) (s : SkipList K) (given : List Block) (h : ℕ → ℕ) (nodes : List ℕ) (key : K)
      → IsSkipList cmp s given h nodes
      → length nodes + 12 ≤ fuel
      → is_member cmp key (keys_of s.keys nodes) ≡ false
      → (after : SkipList K) × (insert new_array node_size cmp fuel s key ≡ some after)
        × Represents cmp after (insert_key cmp key (keys_of s.keys nodes))
  unfolding insert new_node
  insert-IsSkipList fuel s given h nodes key is enough new =
      let found =
        find_greater_or_equal-highs cmp laws s given h nodes is fuel key (some (λ _. none))
          enough in
      let missing : ◌≡◌ {A = Bool}
          (elim (head_of (highs cmp s.keys key nodes)) [
            | none ↦ false
            | some n ↦ equal cmp key (s.keys n)
          ])
          false =
        highs-is_member cmp s.keys laws key nodes is.ascending ∙ new in
      let (height, rnd, drawn, low, high) = random_height-bounds s.rnd in
      let bytes = node_size + 8 * (height - 1) in
      let (x, arena, e, good, _) =
        allocate_aligned-IsGood new_array memory s.arena given bytes is.arena (omega arith) in
      let (nexts, linked, to) =
        linked_after cmp laws s given h nodes is key x bytes height arena rnd good (omega arith) low
          high in
      let pos : 0 < bytes = omega arith in
      let fresh_nodes =
        (fresh cmp laws s given h nodes is key x bytes height arena rnd good pos low high).1 in
      let asserted : ◌≡◌ {A = Bool}
          (elim (head_of (highs cmp s.keys key nodes)) [
            | none ↦ true
            | some n ↦ not (equal cmp key (s.keys n))
          ])
          true =
        not-found (head_of (highs cmp s.keys key nodes)) (λ n. equal cmp key (s.keys n))
        ∙ ap not missing in
      (
        record s {
          arena = arena;
          rnd = rnd;
          max_height = if ltb s.max_height height then height else s.max_height;
          keys = update s.keys x key;
          sizes = update s.sizes x height;
          nexts = nexts;
        },
        rw (found, asserted, drawn, e) linked,
        record {
          given = region x bytes ∷ given;
          levels = update h x height;
          nodes = placed cmp s.keys key x nodes;
          is =
              after-IsSkipList cmp laws s given h nodes is key x bytes height arena rnd good pos low
                high nexts to (Differs-new cmp s.keys key (highs cmp s.keys key nodes) missing);
          same = keys_of-placed cmp s.keys x key nodes fresh_nodes;
        },
      )
