-- ===== src/SkipList/Allocated.antt =====
-- The list at the moment when an insertion has allocated its node, and after the node was linked.
use distributed_kvstorage.Common.{
  ℕ, ◌-◌, ◌≤◌, ◌<◌, ◌≡◌, ◌≢◌, sym, ap, ◌∙◌, subst, Ordering, Option, none, some, List, [], ◌∷◌,
  ◌++◌, All, All-part, All-append, ltb, if◌then◌else◌, arith, inl, inr,
}
use distributed_kvstorage.Arena.{Block, Arena}
use distributed_kvstorage.Arena.Regions.{Covered, IsAllocator, region}
use distributed_kvstorage.Arena.Regions
use distributed_kvstorage.Random.{Random}
use distributed_kvstorage.SkipList.{
  SkipList, Prev, set_prev, get_prev, update, link_loop, raise_prev,
}
use distributed_kvstorage.SkipList.Order.{
  IsKeyOrder, IsAscending, lows, highs, lows-highs, placed, placed-IsAscending, Differs, first,
  HasSameKeys, placed-same, first-highs-same, IsAscending-same,
}
use distributed_kvstorage.SkipList.Chains.{
  at_level, All-at_level, at_level-append, last_or, at_level-none,
}
use distributed_kvstorage.SkipList.Tasks.{noted}
use distributed_kvstorage.SkipList.Link.{IsNew, IsLinkedTo, level-out, Chain-frame, last_or-member}
use distributed_kvstorage.SkipList.Insert.{
  noted-entry, noted-some, raise_prev-in, raise_prev-out, link_loop-IsLinkedTo, with_nexts,
}
use distributed_kvstorage.SkipList.State.{IsSkipList}
use native.Mathlib.Decide.{dec_lt}
use distributed_kvstorage.SkipList.Represents.{
  fresh-nodes, IsDistinct-insert, update-same, tall-level, All-map,
}

-- The facts at the moment when the node `x` for `key` was allocated.
module _ {K : Type 0} (cmp : K → K → Ordering) (laws : IsKeyOrder cmp) (s : SkipList K)
    (given : List Block) (h : ℕ → ℕ) (nodes : List ℕ) (is : IsSkipList cmp s given h nodes)
    (key : K) (x bytes height : ℕ) (arena : Arena) (rnd : Random)
    (good : Regions.IsGood arena (region x bytes ∷ given)) (sized : 0 < bytes) (low : 1 ≤ height)
    (high : height ≤ 12) where
  abbrev pub ls : List ℕ
  ls = lows cmp s.keys key nodes

  abbrev pub rs : List ℕ
  rs = highs cmp s.keys key nodes

  abbrev pub grown : SkipList K
  grown = record s {
    arena = arena;
    rnd = rnd;
    max_height = if ltb s.max_height height then height else s.max_height;
    keys = update s.keys x key;
    sizes = update s.sizes x height;
    nexts = update s.nexts x (λ _. none);
  }

  pub fresh : All (λ n. x ≢ n) (s.head ∷ nodes)
  fresh = fresh-nodes given x (s.head ∷ nodes) (good.apart.0 x (omega arith, omega arith)) is.owned

  fresh_parts : All (λ n. x ≢ n) (ls ++ rs)
  fresh_parts = rw (lows-highs cmp s.keys key nodes) fresh.1

  pub new : IsNew s.head x ls rs
  new = record {
    distinct =
        IsDistinct-insert (s.head ∷ ls) x rs (rw (lows-highs cmp s.keys key nodes) is.distinct)
          (fresh.0, fresh_parts);
    off_head = fresh.0;
    off_ls = (All-part (λ n. x ≢ n) ls rs fresh_parts).0;
    off_rs = (All-part (λ n. x ≢ n) ls rs fresh_parts).1;
  }

  -- Nothing leads to the node yet.
  pub linked_before : IsLinkedTo h s.head x ls rs new grown.nexts 0
  linked_before i le =
      rw
        (
          level-out h s.head x ls rs new 0 i (omega arith),
          ← at_level-append h i ls rs,
          lows-highs cmp s.keys key nodes,
        )
        (Chain-frame s.nexts grown.nexts i s.head (at_level h i nodes)
          (All-map (s.head ∷ at_level h i nodes)
            (λ n (e : grown.nexts n ≡ s.nexts n). ap (λ f. f i) e)
            (update-same s.nexts x (λ _. none) (s.head ∷ at_level h i nodes)
              (fresh.0, All-at_level (λ n. x ≢ n) h i nodes fresh.1)))
          (is.linked i le))

  -- The array that `insert` goes by.
  abbrev pub array : Prev
  array =
      raise_prev (height - s.max_height) s.max_height s.head
        (noted h set_prev (s.max_height - 1) (some (λ _. none)) s.head ls)

  heights_parts : All (λ n. (0 < h n) × (h n ≤ s.max_height) × (h n ≤ s.sizes n)) (ls ++ rs)
  heights_parts = rw (lows-highs cmp s.keys key nodes) is.heights

  pub entry : (i : ℕ) → i < height → get_prev array i ≡ some (last_or s.head (at_level h i ls))
  unfolding get_prev
  entry i lt =
      let (g, e) = noted-some h (s.max_height - 1) (λ _. none) s.head ls in
      elim (dec_lt i s.max_height) [
        | yes old ↦
            subst
              (λ p.
                get_prev (raise_prev (height - s.max_height) s.max_height s.head p) i
                ≡ some (last_or s.head (at_level h i ls)))
              (sym e)
              (raise_prev-out (height - s.max_height) s.max_height s.head g i old
                ∙ subst (λ p. get_prev p i ≡ some (last_or s.head (at_level h i ls))) e
                    (noted-entry h (s.max_height - 1) (λ _. none) s.head ls i
                      (omega (arith, is.some_level))))
        | no above ↦
            let empty : at_level h i ls ≡ [] =
              at_level-none h i ls (
                All-map ls (λ n t. omega (arith, t.1, above)) (All-part _ ls rs heights_parts).0) in
            subst
              (λ p.
                get_prev (raise_prev (height - s.max_height) s.max_height s.head p) i
                ≡ some (last_or s.head (at_level h i ls)))
              (sym e)
              (rw empty (
                raise_prev-in (height - s.max_height) s.max_height s.head g i (omega arith)
                  (omega arith)))
      ]

  same_sizes :
      (ns : List ℕ)
      → All (λ n. x ≢ n) ns
      → All (λ n. h n ≤ s.sizes n) ns
      → All (λ n. h n ≤ grown.sizes n) ns
  same_sizes [] off all = tt
  same_sizes (n ∷ ns) off all = (ground (arith, off.0, all.0), same_sizes ns off.1 all.1)

  pub room : (i : ℕ) → i < 12 → i < grown.sizes (last_or s.head (at_level h i ls))
  room i lt =
      last_or-member (λ n. i < grown.sizes n) s.head (at_level h i ls)
        (
          ground (arith, fresh.0, is.head_size),
          tall-level h grown.sizes i ls (
              same_sizes ls new.off_ls
                (All-map ls (λ n t. t.2) (All-part _ ls rs heights_parts).0)),
        )

  -- The loop that links runs through, and the node is linked at all its levels.
  pub linked_after :
      (nexts : ℕ → ℕ → Option (Option ℕ)) × (link_loop height 0 grown x array
        ≡ some (with_nexts grown h x ls rs new nexts))
      × IsLinkedTo h s.head x ls rs new nexts height
  linked_after =
      let (nexts, e, linked) =
        link_loop-IsLinkedTo grown h x ls rs new height grown.nexts 0 array (omega arith)
          (ground arith) (λ i lt. (room i (omega arith), entry i (omega arith))) linked_before in
      (nexts, e, subst (IsLinkedTo h s.head x ls rs new nexts) (omega arith) linked)

  heights_same :
      (ns : List ℕ)
      → All (λ n. x ≢ n) ns
      → All (λ n. (0 < h n) × (h n ≤ s.max_height) × (h n ≤ s.sizes n)) ns
      → All
          (λ n.
            (0 < update h x height n)
            × (update h x height n ≤ grown.max_height)
            × (update h x height n ≤ grown.sizes n))
          ns
  heights_same [] off all = tt
  heights_same (n ∷ ns) off all = (ground (arith, off.0, all.0), heights_same ns off.1 all.1)

  same_keys : HasSameKeys cmp s.keys grown.keys nodes
  same_keys = update-same s.keys x key nodes fresh.1

  pub after-IsSkipList :
      (nexts : ℕ → ℕ → Option (Option ℕ))
      → IsLinkedTo h s.head x ls rs new nexts height
      → Differs cmp s.keys key (first cmp s.keys rs)
      → IsSkipList cmp
          (with_nexts grown h x ls rs new nexts)
          (region x bytes ∷ given)
          (update h x height)
          (placed cmp s.keys key x nodes)
  after-IsSkipList nexts linked differs = record {
    arena = good;
    linked = linked;
    ascending =
        subst (IsAscending cmp grown.keys) (placed-same cmp s.keys grown.keys key x nodes same_keys)
          (placed-IsAscending cmp grown.keys laws key x nodes
            (IsAscending-same cmp s.keys grown.keys nodes same_keys is.ascending) (ground arith)
            (first-highs-same cmp s.keys grown.keys key nodes same_keys differs));
    some_level = ground (arith, is.some_level);
    few_levels = ground (arith, is.few_levels);
    head_size = ground (arith, fresh.0, is.head_size);
    heights =
        let (left, right) =
          All-part (λ n. (0 < h n) × (h n ≤ s.max_height) × (h n ≤ s.sizes n)) ls rs
            heights_parts in
        All-append _ ls (x ∷ rs) (heights_same ls new.off_ls left)
          ((ground (arith, low), ground arith, ground arith), heights_same rs new.off_rs right);
    distinct = new.distinct;
    owned =
        let (left, right) =
          All-part (Covered given) ls rs (rw (lows-highs cmp s.keys key nodes) is.owned.1) in
        (
          inr is.owned.0,
          All-append (Covered (region x bytes ∷ given)) ls (x ∷ rs) (All-map ls (λ n c. inr c) left)
              (inl (omega arith, omega arith), All-map rs (λ n c. inr c) right),
        );
  }
