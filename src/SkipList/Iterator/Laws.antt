-- ===== src/SkipList/Iterator/Laws.antt =====
-- The iterator against a position in the list of keys.
use distributed_kvstorage.Common.{
  ℕ, zero, suc, ◌+◌, ◌-◌, ◌≤◌, ◌≡◌, ◌≢◌, refl, sym, ap, ◌∙◌, subst, Ordering, Option, none, some,
  List, [], ◌∷◌, get_elem?, take, take_all, length, ◌==◌, if◌then◌else◌, arith,
}
use native.Mathlib.Decide.{dec_lt}
use distributed_kvstorage.SkipList.{SkipList}
use distributed_kvstorage.SkipList.Order.{IsKeyOrder, highs}
use distributed_kvstorage.SkipList.Chains.{at_level-zero, head_of, last_or, Chain, Chain-first}
use distributed_kvstorage.SkipList.Find.{
  find_greater_or_equal-highs, find_less_than-lows, find_last-nodes,
}
use distributed_kvstorage.SkipList.Insertion.{length-keys_of}
use distributed_kvstorage.SkipList.Represents.{Represents, All-map}
use distributed_kvstorage.SkipList.Iterator.{
  Iterator, make_iterator, valid, unless_head, key, next, seek_to_first, seek_to_last, prev, seek,
}
use distributed_kvstorage.SkipList.Iterator.Positions.{
  Command, to_key, to_first, to_last, forward, backward, count_below, move, observe_list, perform,
  current, observe, get_elem?-beyond, get_elem?-within, All-get_elem?, head_of-get_elem?,
  Chain-get_elem?, last_or-take, get_elem?-keys_of, highs-count_below, lows-take,
}

module _ {K : Type 0} (cmp : K → K → Ordering) (laws : IsKeyOrder cmp) (s : SkipList K)
    (ks : List K) (r : Represents cmp s ks) (fuel : ℕ) (enough : length ks + 12 ≤ fuel) where
  -- The iterator stands at a position.
  abbrev IsAt : Iterator → ℕ → Type 0
  IsAt it i = it.node ≡ get_elem? r.nodes i

  same_length : length r.nodes ≡ length ks
  same_length = omega (arith, length-keys_of s.keys r.nodes, ap length r.same)

  bottom : Chain s.nexts 0 s.head r.nodes
  bottom =
      subst (Chain s.nexts 0 s.head)
        (at_level-zero r.levels r.nodes (All-map r.nodes (λ n t. t.0) r.is.heights))
        (r.is.linked 0 (omega arith))

  current-IsAt : (it : Iterator) (i : ℕ) → IsAt it i → current cmp s it ≡ get_elem? ks i
  unfolding valid key
  current-IsAt it i at =
      (rw at (onto (get_elem? r.nodes i)))
      ∙ sym (get_elem?-keys_of s.keys r.nodes i)
      ∙ ap (λ l. get_elem? l i) r.same
    where
      onto :
          (o : Option ℕ)
          → current cmp s (record { node = o })
            ≡ (elim o [ none ↦ none | some n ↦ some (s.keys n) ])
      onto none = refl
      onto (some n) = refl

  -- Where a command leads is what it does to the position.
  abbrev Follows : Option ℕ → Option Iterator → Type 0
  Follows none out = out ≡ none
  Follows (some j) out = (it : Iterator) × (out ≡ some it) × IsAt it j

  next-Follows : (it : Iterator) (i : ℕ) → IsAt it i → Follows (move cmp ks forward i) (next s it)
  unfolding next valid
  next-Follows it i at = elim (dec_lt i (length ks)) [
    | yes lt ↦
        let (n, e) = get_elem?-within r.nodes i (omega (arith, same_length)) in
        let moved : move cmp ks forward i ≡ some (suc i) = ground arith in
        subst (λ t. Follows t (next s it)) (sym moved)
          (
            record { node = get_elem? r.nodes (suc i) },
            rw (at, e, Chain-get_elem? s.nexts s.head r.nodes i n bottom e) refl,
            refl,
          )
    | no le ↦
        let moved : move cmp ks forward i ≡ none = ground arith in
        subst (λ t. Follows t (next s it)) (sym moved)
          (rw (at, get_elem?-beyond r.nodes i (omega (arith, same_length))) refl)
  ]

  unless_head-IsAt : (j n : ℕ) → get_elem? r.nodes j ≡ some n → IsAt (unless_head s.head n) j
  unfolding unless_head
  unless_head-IsAt j n e =
      let off = All-get_elem? (λ m. s.head ≢ m) r.nodes j n r.is.distinct.0 e in
      rw e (ground (arith, off))

  -- Behind the first `m` nodes: the last of them, or no node.
  abbrev last_position : ℕ → ℕ
  last_position m = if m == 0 then length ks else m - 1

  last-IsAt :
      (m : ℕ)
      → m ≤ length r.nodes
      → IsAt (unless_head s.head (last_or s.head (take m r.nodes))) (last_position m)
  unfolding unless_head
  last-IsAt zero le =
      rw (get_elem?-beyond r.nodes (last_position 0) (omega (arith, same_length))) (ground arith)
  last-IsAt (suc m) le =
      let (n, e) = get_elem?-within r.nodes m (omega arith) in
      subst (λ x. IsAt (unless_head s.head x) (last_position (suc m)))
        (sym (last_or-take s.head r.nodes m n e))
        (subst (IsAt (unless_head s.head n)) (ground arith) (unless_head-IsAt m n e))

  last-Follows : (it : Iterator) (i : ℕ) → Follows (move cmp ks to_last i) (seek_to_last fuel s)
  unfolding seek_to_last
  last-Follows it i = (
    unless_head s.head (last_or s.head r.nodes),
    rw (find_last-nodes cmp laws s r.given r.levels r.nodes r.is fuel (omega (arith, same_length)))
        refl,
    subst (λ l. IsAt (unless_head s.head (last_or s.head l)) (length ks - 1))
        (take_all (length r.nodes) r.nodes (omega arith))
        (subst (IsAt (unless_head s.head (last_or s.head (take (length r.nodes) r.nodes))))
          (ground (arith, same_length)) (last-IsAt (length r.nodes) (omega arith))),
  )

  prev-Follows :
      (it : Iterator) (i : ℕ) → IsAt it i → Follows (move cmp ks backward i) (prev cmp fuel s it)
  unfolding prev valid
  prev-Follows it i at = elim (dec_lt i (length ks)) [
    | yes lt ↦
        let (n, e) = get_elem?-within r.nodes i (omega (arith, same_length)) in
        let moved : move cmp ks backward i ≡ some (last_position i) = ground arith in
        let found =
          find_less_than-lows cmp laws s r.given r.levels r.nodes r.is fuel (s.keys n)
            (omega (arith, same_length)) in
        subst (λ t. Follows t (prev cmp fuel s it)) (sym moved)
          (
            unless_head s.head (last_or s.head (take i r.nodes)),
            rw (at, e, found, lows-take cmp s.keys laws r.nodes i n r.is.ascending e) refl,
            last-IsAt i (omega (arith, same_length)),
          )
    | no le ↦
        let moved : move cmp ks backward i ≡ none = ground arith in
        subst (λ t. Follows t (prev cmp fuel s it)) (sym moved)
          (rw (at, get_elem?-beyond r.nodes i (omega (arith, same_length))) refl)
  ]

  perform-Follows :
      (c : Command K) (it : Iterator) (i : ℕ)
      → IsAt it i
      → Follows (move cmp ks c i) (perform cmp fuel s c it)
  unfolding perform seek_to_first seek
  perform-Follows to_first it i at = (
    record { node = head_of r.nodes },
    rw (Chain-first s.nexts 0 s.head r.nodes bottom) refl,
    head_of-get_elem? r.nodes,
  )
  perform-Follows to_last it i at = last-Follows it i
  perform-Follows (to_key k) it i at = (
    record { node = head_of (highs cmp s.keys k r.nodes) },
    rw
        (find_greater_or_equal-highs cmp laws s r.given r.levels r.nodes r.is fuel k none
          (omega (arith, same_length)))
        refl,
    highs-count_below cmp s.keys k r.nodes
        ∙ ap (λ l. get_elem? r.nodes (count_below cmp k l)) r.same,
  )
  perform-Follows forward it i at = next-Follows it i at
  perform-Follows backward it i at = prev-Follows it i at

  observe-from :
      (cs : List (Command K)) (it : Iterator) (i : ℕ)
      → IsAt it i
      → observe cmp fuel s cs it ≡ observe_list cmp ks cs i
  observe-from [] it i at = refl
  observe-from (c ∷ cs) it i at =
      observe-round cs it i c (move cmp ks c i) refl (perform-Follows c it i at) (observe-from cs)
    where
      observe-round :
          (cs : List (Command K)) (it : Iterator) (i : ℕ) (c : Command K) (o : Option ℕ)
          → move cmp ks c i ≡ o
          → Follows o (perform cmp fuel s c it)
          → ((it : Iterator) (i : ℕ)
              → IsAt it i
              → observe cmp fuel s cs it ≡ observe_list cmp ks cs i)
          → observe cmp fuel s (c ∷ cs) it ≡ observe_list cmp ks (c ∷ cs) i
      observe-round cs it i c none m f later = rw (m, f) refl
      observe-round cs it i c (some j) m (it', e, at) later =
          rw (m, e, later it' j at, current-IsAt it' j at) refl

  -- On a list that holds the keys `ks`, with fuel for its nodes and 12 levels, every sequence of the
  -- iterator's operations from a new iterator shows the keys that the same moves of a position in
  -- `ks` show, and fails an assertion exactly where a move from no position is asked for.
  pub observe-observe_list :
      (cs : List (Command K))
      → observe cmp fuel s cs make_iterator ≡ observe_list cmp ks cs (length ks)
  observe-observe_list cs =
      observe-from cs make_iterator (length ks)
        (sym (get_elem?-beyond r.nodes (length ks) (omega (arith, same_length))))
