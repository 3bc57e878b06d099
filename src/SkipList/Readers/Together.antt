-- ===== src/SkipList/Readers/Together.antt =====
-- Readers beside an insertion into a skip list that a client sees as a list of keys.
use distributed_kvstorage.Common.{
  ℕ, ◌+◌, ◌-◌, ◌*◌, ◌^◌, ◌≤◌, ◌<◌, ◌≡◌, ap, ◌∙◌, Ordering, Bool, true, false, not, Option, some,
  none, List, ◌∷◌, length, arith, ◌⊎◌,
}
use distributed_kvstorage.SkipList.{SkipList, Prev, Round, done, equal}
use distributed_kvstorage.SkipList.Chains.{head_of}
use distributed_kvstorage.SkipList.Order.{IsKeyOrder, highs, Differs, first}
use distributed_kvstorage.SkipList.State.{insert_key, is_member}
use distributed_kvstorage.SkipList.Represents.{Represents}
use distributed_kvstorage.SkipList.Readers.Turns.{reader_turns}
use distributed_kvstorage.SkipList.Readers.{
  Shared, Turn, insert_beside, take_turns, search_step, search_start, Scan, begin, walk, scan_step,
}
use distributed_kvstorage.Arena.{Block, Arena}
use distributed_kvstorage.Arena.Regions
use distributed_kvstorage.Random.{Random}
use distributed_kvstorage.SkipList.Iterator.{Iterator}
use distributed_kvstorage.Arena.Regions.{IsAllocator, region}
use distributed_kvstorage.Arena.Laws.{allocate_aligned-IsGood}
use distributed_kvstorage.SkipList.{new_node}
use distributed_kvstorage.SkipList.Find.{find_greater_or_equal-highs, highs-is_member}
use distributed_kvstorage.SkipList.Insert.{random_height-bounds}
use distributed_kvstorage.SkipList.Represents.{not-found}
use distributed_kvstorage.SkipList.Allocated.{array, grown}
use distributed_kvstorage.SkipList.Insertion.{length-keys_of, Differs-new}
use distributed_kvstorage.SkipList.Readers.Visible.{key_at, IsReturned, IsScanned}
use distributed_kvstorage.SkipList.State.{key_from}
use distributed_kvstorage.SkipList.Readers.Insertion.{turns-IsReturned, turns-IsScanned}

module _ {K : Type 0} (new_array : List Block → ℕ → ℕ) (memory : IsAllocator new_array)
    (node_size : ℕ) (sized : 0 < node_size) (fits : node_size + 104 < 2 ^ 64)
    (cmp : K → K → Ordering) (laws : IsKeyOrder cmp) where
  -- An insertion comes to the turns, whatever is to hold behind them.
  module _ {R : Type 0} (look : SkipList K → R → Option R) (fuel : ℕ) (s : SkipList K) (ks : List K)
      (key : K) (ts : List Turn) (r : Represents cmp s ks) (enough : length ks + 12 ≤ fuel)
      (new_key : is_member cmp key ks ≡ false) (start : ℕ → R) (P : Option (Shared K R) → Type 0)
      (behind : (x bytes height : ℕ) (arena : Arena) (rnd : Random)
          (good : Regions.IsGood arena (region x bytes ∷ r.given)) (pos : 0 < bytes)
          (low : 1 ≤ height) (high : height ≤ 12)
        → Differs cmp s.keys key (first cmp s.keys (highs cmp s.keys key r.nodes))
        → P (
            take_turns look x height
              (array cmp laws s r.given r.levels r.nodes r.is key x bytes height arena rnd good pos
                low high)
              ts
              (record {
                list =
                    grown cmp laws s r.given r.levels r.nodes r.is key x bytes height arena rnd good
                      pos low high;
                level = 0;
                has_own = false;
                reader = start s.head;
              }))) where
    insert_beside-turns : P (insert_beside new_array node_size cmp look start fuel s key ts)
    unfolding insert_beside new_node
    insert_beside-turns =
        let found =
          find_greater_or_equal-highs cmp laws s r.given r.levels r.nodes r.is fuel key
            (some (λ _. none)) (omega (arith, length-keys_of s.keys r.nodes, ap length r.same)) in
        let missing : ◌≡◌ {A = Bool}
            (elim (head_of (highs cmp s.keys key r.nodes)) [
              | none ↦ false
              | some n ↦ equal cmp key (s.keys n)
            ])
            false =
          highs-is_member cmp s.keys laws key r.nodes r.is.ascending
          ∙ ap (is_member cmp key) r.same
          ∙ new_key in
        let (height, rnd, drawn, low, high) = random_height-bounds s.rnd in
        let bytes = node_size + 8 * (height - 1) in
        let (x, arena, e, good, _) =
          allocate_aligned-IsGood new_array memory s.arena r.given bytes r.is.arena (omega arith) in
        let asserted : ◌≡◌ {A = Bool}
            (elim (head_of (highs cmp s.keys key r.nodes)) [
              | none ↦ true
              | some n ↦ not (equal cmp key (s.keys n))
            ])
            true =
          not-found (head_of (highs cmp s.keys key r.nodes)) (λ n. equal cmp key (s.keys n))
          ∙ ap not missing in
        rw (found, asserted, drawn, e)
          (behind x bytes height arena rnd good (omega arith) low high
            (Differs-new cmp s.keys key (highs cmp s.keys key r.nodes) missing))

  -- On a sound allocator and a total preorder of keys, and with fuel for all nodes and 12 levels: a
  -- new key is inserted, and beside it another thread searches from some level, the stores of the one
  -- and the rounds of the other in any order. No assertion fails and no unwritten pointer is read. If
  -- the search has as many turns as there are keys, and 13 more, it has returned, and it found the
  -- first key from its target on, of the keys before the insertion or of those after it.
  pub insert_beside-key_from :
      (fuel : ℕ) (s : SkipList K) (ks : List K) (key target : K) (level : ℕ) (ts : List Turn)
      → Represents cmp s ks
      → length ks + 12 ≤ fuel
      → is_member cmp key ks ≡ false
      → level < 12
      → length ks + 13 ≤ reader_turns ts
      → (after : Shared K (Round (Option ℕ × Prev))) × (found : Option ℕ) × (prev : Prev)
        × (insert_beside new_array node_size cmp
              (search_step cmp target)
              (search_start level)
              fuel
              s
              key
              ts
            ≡ some after)
        × (after.reader ≡ done (found, prev))
        × ((key_at after.list.keys found ≡ key_from cmp target ks)
            ⊎ (key_at after.list.keys found ≡ key_from cmp target (insert_key cmp key ks)))
  insert_beside-key_from fuel s ks key target level ts r enough new_key small turns =
      insert_beside-turns (search_step cmp target) fuel s ks key ts r enough new_key
        (search_start level) (IsReturned cmp ks key target)
        (λ x bytes height arena rnd good pos low high differs.
          turns-IsReturned cmp laws s r.given r.levels r.nodes r.is key x bytes height arena rnd
            good pos low high differs ks r.same ts target level small
            (omega (arith, length-keys_of s.keys r.nodes, ap length r.same, turns)))

  -- On a sound allocator and a total preorder of keys, and with fuel for all nodes and 12 levels: a
  -- new key is inserted, and beside it an iterator of another thread goes from the first node to the
  -- last, the stores of the one and the steps of the other in any order. No assertion fails and no
  -- unwritten pointer is read. If the iterator has at least two turns more than there are keys, it
  -- has come to the end, and the keys that it met are those before the insertion or those after it.
  pub insert_beside-scan :
      (fuel : ℕ) (s : SkipList K) (ks : List K) (key : K) (ts : List Turn)
      → Represents cmp s ks
      → length ks + 12 ≤ fuel
      → is_member cmp key ks ≡ false
      → length ks + 2 ≤ reader_turns ts
      → (after : Shared K (Scan K)) × (it : Iterator) × (seen : List K) × (insert_beside new_array
            node_size cmp scan_step
            (λ head. begin)
            fuel
            s
            key
            ts
          ≡ some after)
        × (after.reader ≡ walk it seen)
        × (it.node ≡ none)
        × ((seen ≡ ks) ⊎ (seen ≡ insert_key cmp key ks))
  insert_beside-scan fuel s ks key ts r enough new_key turns =
      insert_beside-turns scan_step fuel s ks key ts r enough new_key (λ head. begin)
        (IsScanned cmp ks key)
        (λ x bytes height arena rnd good pos low high differs.
          turns-IsScanned cmp laws s r.given r.levels r.nodes r.is key x bytes height arena rnd good
            pos low high differs ks r.same ts
            (omega (arith, length-keys_of s.keys r.nodes, ap length r.same, turns)))
