-- ===== src/SkipList/Readers/Insertion.antt =====
-- Readers beside the stores that link a node which was just allocated.
use distributed_kvstorage.Common.{
  ℕ, zero, suc, ◌+◌, ◌-◌, ◌≤◌, ◌<◌, ◌≡◌, ◌≢◌, refl, sym, ap, ◌∙◌, subst, Ordering, false, Option,
  List, ◌∷◌, ◌++◌, All, length, length-append, arith, ◌⊎◌, inl, inr,
}
use distributed_kvstorage.SkipList.{SkipList, Prev, go, done, update, Round}
use distributed_kvstorage.SkipList.Order.{IsKeyOrder, IsAscending, lows, highs, lows-highs}
use distributed_kvstorage.SkipList.Link.{IsNew}
use distributed_kvstorage.SkipList.State.{IsSkipList, keys_of, insert_key}
use distributed_kvstorage.SkipList.Represents.{keys_of-placed, keys_of-same}
use distributed_kvstorage.SkipList.Readers.Turns.{IsReader, reader_turns, state, Then, turns-Then}
use distributed_kvstorage.SkipList.Readers.Answers.{Answers, search-IsReader}
use distributed_kvstorage.SkipList.Readers.Scans.{Knows, scan-IsReader, scan-end}
use distributed_kvstorage.SkipList.Readers.Rounds.{first_from}
use distributed_kvstorage.SkipList.Readers.Search.{at_head}
use distributed_kvstorage.Random.{Random}
use distributed_kvstorage.Arena.{Arena}
use distributed_kvstorage.Arena.Regions.{region}
use distributed_kvstorage.Arena.Regions
use distributed_kvstorage.SkipList.Order.{Differs, first}
use distributed_kvstorage.SkipList.Readers.{
  Shared, Turn, take_turns, search_step, search_start, Scan, begin, scan_step,
}
use distributed_kvstorage.Arena.{Block}
use distributed_kvstorage.Arena.Regions.{IsAllocator}
use distributed_kvstorage.SkipList.Represents.{All-map}
use distributed_kvstorage.SkipList.Allocated.{
  grown, new, fresh, array, entry, room, linked_before, linked_after, after-IsSkipList,
}
use distributed_kvstorage.SkipList.Readers.Visible.{
  key_at, key_at-highs, visible-before, visible-after, IsReturned, IsScanned,
}
use distributed_kvstorage.SkipList.State.{key_from}

-- The facts at the moment when the node `x` for `key` was allocated.
module _ {K : Type 0} (cmp : K → K → Ordering) (laws : IsKeyOrder cmp) (s : SkipList K)
    (given : List Block) (h : ℕ → ℕ) (nodes : List ℕ) (is : IsSkipList cmp s given h nodes)
    (key : K) (x bytes height : ℕ) (arena : Arena) (rnd : Random)
    (good : Regions.IsGood arena (region x bytes ∷ given)) (sized : 0 < bytes) (low : 1 ≤ height)
    (high : height ≤ 12)
    (differs : Differs cmp s.keys key (first cmp s.keys (highs cmp s.keys key nodes))) where
  abbrev own_ls : List ℕ
  own_ls = lows cmp s.keys key nodes

  abbrev own_rs : List ℕ
  own_rs = highs cmp s.keys key nodes

  abbrev here : SkipList K
  here = grown cmp laws s given h nodes is key x bytes height arena rnd good sized low high

  is_new : IsNew s.head x own_ls own_rs
  is_new = new cmp laws s given h nodes is key x bytes height arena rnd good sized low high

  up : IsAscending cmp here.keys (own_ls ++ (x ∷ own_rs))
  up =
      let (nexts, _, linked) =
        linked_after cmp laws s given h nodes is key x bytes height arena rnd good sized low high in
      (after-IsSkipList cmp laws s given h nodes is key x bytes height arena rnd good sized low high
        nexts linked differs).ascending

  fresh_nodes : All (λ n. x ≢ n) nodes
  fresh_nodes =
      (fresh cmp laws s given h nodes is key x bytes height arena rnd good sized low high).1

  pos : All (λ n. 0 < h n) (own_ls ++ own_rs)
  pos = rw (lows-highs cmp s.keys key nodes) (All-map nodes (λ n t. t.0) is.heights)

  abbrev entries_array : Prev
  entries_array = array cmp laws s given h nodes is key x bytes height arena rnd good sized low high

  abbrev begun : {R : Type 0} → R → Shared K R
  begun start = record { list = here; level = 0; has_own = false; reader = start }

  -- Whatever the turns are, the reader knows what it should.
  module _ {R : Type 0} (look : SkipList K → R → Option R) (Knows : (m n : ℕ) → R → Type 0)
      (reads : IsReader here h x own_ls own_rs is_new look Knows) (start : R) where
    turns-begin :
        (n : ℕ) (ts : List Turn)
        → Knows 0 n start
        → Then here h x own_ls own_rs is_new look Knows
            (n - reader_turns ts)
            (take_turns look x height entries_array ts (begun start))
    turns-begin n ts knows =
        turns-Then here h x own_ls own_rs is_new look Knows reads height entries_array high
          (ground arith)
          (λ i lt. (
            room cmp laws s given h nodes is key x bytes height arena rnd good sized low high i
                (omega arith),
            entry cmp laws s given h nodes is key x bytes height arena rnd good sized low high i lt,
          ))
          ts n here.nexts 0 false start
          (record {
            linked =
                linked_before cmp laws s given h nodes is key x bytes height arena rnd good sized
                  low high;
            written = tt;
            knows = knows;
          })

  -- What a search for `target` may return.
  abbrev IsFound : K → Option ℕ → Type 0
  IsFound target found =
      (key_at here.keys found ≡ key_from cmp target (keys_of s.keys nodes))
      ⊎ (key_at here.keys found ≡ key_from cmp target (insert_key cmp key (keys_of s.keys nodes)))

  first-IsFound :
      (target : K) (j : ℕ)
      → IsFound target (first_from cmp here target (own_ls ++ (x ∷ own_rs)) (update h x j))
  first-IsFound target zero = inl (
      rw (visible-before h s.head x own_ls own_rs is_new pos, lows-highs cmp s.keys key nodes)
        (key_at-highs cmp here.keys target nodes
          ∙ ap (key_from cmp target) (keys_of-same cmp s.keys x key nodes fresh_nodes)))
  first-IsFound target (suc j) = inr (
      rw (visible-after h s.head x own_ls own_rs is_new pos j) (
        key_at-highs cmp here.keys target (own_ls ++ (x ∷ own_rs))
        ∙ ap (key_from cmp target) (keys_of-placed cmp s.keys x key nodes fresh_nodes)))

  module _ (ks : List K) (same : keys_of s.keys nodes ≡ ks) (ts : List Turn) where
    abbrev count : ℕ
    count = length (own_ls ++ (x ∷ own_rs))

    count_lem : count ≡ suc (length own_ls + length own_rs)
    count_lem = omega (arith, length-append own_ls (x ∷ own_rs))

    count-nodes : count ≡ suc (length nodes)
    count-nodes =
        omega (
          arith,
          count_lem,
          length-append own_ls own_rs,
          ap length (lows-highs cmp s.keys key nodes),
        )

    -- A search has returned, with enough turns.
    pub turns-IsReturned :
        (target : K) (level : ℕ)
        → level < 12
        → length nodes + 13 ≤ reader_turns ts
        → IsReturned cmp ks key target (
            take_turns
              (search_step cmp target)
              x
              height
              entries_array
              ts
              (begun (search_start level s.head)))
    turns-IsReturned target level small turns = returned (
        turns-begin (search_step cmp target)
          (Answers cmp laws here h x own_ls own_rs is_new up target)
          (search-IsReader cmp laws here h x own_ls own_rs is_new up target)
          (search_start level s.head) (count + 12) ts
          (small, (own_ls ++ (x ∷ own_rs), omega arith, at_head refl refl)))
      where
        returned :
            {result : Option (Shared K (Round (Option ℕ × Prev)))}
            → Then here h x own_ls own_rs is_new
                (search_step cmp target)
                (Answers cmp laws here h x own_ls own_rs is_new up target)
                (count + 12 - reader_turns ts)
                result
            → IsReturned cmp ks key target result
        returned (nexts, m, own, go p, e, holds) =
            absurd (omega (arith, holds.knows.1.1, count-nodes))
        returned (nexts, m, own, done (found, prev), e, holds) =
            let (j, a) = holds.knows in
            (
              state here h x own_ls own_rs is_new (search_step cmp target) nexts m own
                  (done (found, prev)),
              found,
              prev,
              e,
              refl,
              subst
                  (λ l.
                    (key_at here.keys found ≡ key_from cmp target l)
                    ⊎ (key_at here.keys found ≡ key_from cmp target (insert_key cmp key l)))
                  same (subst (IsFound target) (sym a) (first-IsFound target j)),
            )

    -- A scan has come to the end, with enough turns.
    pub turns-IsScanned :
        length nodes + 2 ≤ reader_turns ts
        → IsScanned cmp ks key (take_turns scan_step x height entries_array ts (begun begin))
    turns-IsScanned turns = scanned (
        turns-begin scan_step (Knows here h x own_ls own_rs is_new pos)
          (scan-IsReader here h x own_ls own_rs is_new pos) begin (count + 1) ts
          (omega (arith, count_lem)))
      where
        scanned :
            {result : Option (Shared K (Scan K))}
            → Then here h x own_ls own_rs is_new scan_step
                (Knows here h x own_ls own_rs is_new pos)
                (count + 1 - reader_turns ts)
                result
            → IsScanned cmp ks key result
        scanned (nexts, m, own, r, e, holds) =
            let over : count + 1 - reader_turns ts ≡ 0 = omega (arith, count-nodes) in
            let (it, seen, f, at_end, saw) =
              scan-end here h x own_ls own_rs is_new pos m r
                (subst (λ n. Knows here h x own_ls own_rs is_new pos m n r) over holds.knows) in
            (
              state here h x own_ls own_rs is_new scan_step nexts m own r,
              it,
              seen,
              e,
              f,
              at_end,
              subst (λ l. (seen ≡ l) ⊎ (seen ≡ insert_key cmp key l)) same
                  (elim saw [
                    | inl without ↦ inl (
                        without
                        ∙ ap (keys_of here.keys) (lows-highs cmp s.keys key nodes)
                        ∙ keys_of-same cmp s.keys x key nodes fresh_nodes)
                    | inr whole ↦ inr (whole ∙ keys_of-placed cmp s.keys x key nodes fresh_nodes)
                  ]),
            )
