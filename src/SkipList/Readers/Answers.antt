-- ===== src/SkipList/Readers/Answers.antt =====
-- What a search of src/database/skiplist.h returns while another thread links a node.
use distributed_kvstorage.Common.{
  ℕ, zero, suc, ◌-◌, ◌≡◌, refl, subst, Ordering, Option, some, List, ◌∷◌, ◌++◌, arith,
}
use distributed_kvstorage.SkipList.{SkipList, Prev, Round, go, done, update}
use distributed_kvstorage.SkipList.Order.{IsKeyOrder, IsAscending}
use distributed_kvstorage.SkipList.Link.{IsNew, IsLinkedTo}
use distributed_kvstorage.SkipList.Insert.{with_nexts}
use distributed_kvstorage.SkipList.Readers.Search.{Stands-grow}
use distributed_kvstorage.SkipList.Readers.Rounds.{Reads, first_from, round-Reads}
use distributed_kvstorage.SkipList.Readers.{search_step}
use distributed_kvstorage.SkipList.Readers.Turns.{IsReader}

module _ {K : Type 0} (cmp : K → K → Ordering) (laws : IsKeyOrder cmp) (s : SkipList K) (h : ℕ → ℕ)
    (x : ℕ) (ls rs : List ℕ) (new : IsNew s.head x ls rs)
    (up : IsAscending cmp s.keys (ls ++ (x ∷ rs))) (key : K) where
  -- The first node from the key on, in the list with the node linked at `m` levels.
  abbrev first_at : ℕ → Option ℕ
  first_at m = first_from cmp s key (ls ++ (x ∷ rs)) (update h x m)

  -- A search that goes on has `n` rounds at most before it; one that has returned gave what was right
  -- when some number of levels was linked.
  abbrev pub Answers : (m n : ℕ) → Round (Option ℕ × Prev) → Type 0
  Answers m n (go p) = Reads cmp s key (ls ++ (x ∷ rs)) (update h x m) n (go p)
  Answers m n (done a) = (j : ℕ) × (a.0 ≡ first_at j)

  Answers-grow : (m n : ℕ) (r : Round (Option ℕ × Prev)) → Answers m n r → Answers (suc m) n r
  Answers-grow m n (go p) (small, (vs, enough, st)) = (
    small,
    (
      vs,
      enough,
      Stands-grow cmp s.keys key s.head (ls ++ (x ∷ rs)) (update h x m) (update h x (suc m)) p.level
          p.node vs (λ k. ground arith) st,
    ),
  )
  Answers-grow m n (done a) ok = ok

  Reads-Answers :
      (m n : ℕ) (r : Round (Option ℕ × Prev))
      → Reads cmp s key (ls ++ (x ∷ rs)) (update h x m) n r
      → Answers m n r
  Reads-Answers m n (go p) ok = ok
  Reads-Answers m n (done a) ok = (m, ok)

  search-turn :
      (nexts : ℕ → ℕ → Option (Option ℕ)) (m n : ℕ) (r : Round (Option ℕ × Prev))
      → IsLinkedTo h s.head x ls rs new nexts m
      → Answers m n r
      → (r' : Round (Option ℕ × Prev)) × (search_step cmp key (with_nexts s h x ls rs new nexts) r
          ≡ some r')
        × Answers m (n - 1) r'
  unfolding search_step
  search-turn nexts m zero (go p) linked knows = absurd (omega (arith, knows.1.1))
  search-turn nexts m (suc n) (go p) linked knows =
      let (r, e, ok) =
        round-Reads cmp (with_nexts s h x ls rs new nexts) key (ls ++ (x ∷ rs)) (update h x m) laws
          up n p linked knows in
      (r, e, subst (λ k. Answers m k r) (omega arith) (Reads-Answers m n r ok))
  search-turn nexts m n (done a) linked knows = (done a, refl, knows)

  pub search-IsReader : IsReader s h x ls rs new (search_step cmp key) Answers
  search-IsReader = record { grow = Answers-grow; turn = search-turn }
