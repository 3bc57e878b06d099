-- ===== src/Tests/SkipLists.antt =====
-- The skip list: runs, and the theorems at concrete inputs.
use distributed_kvstorage.Common.{
  ℕ, ◌⊎◌, List, ◌≡◌, refl, compare, true, Option, some, none, [], ◌∷◌, ◌>>=◌, arith,
}
use distributed_kvstorage.Arena.{
  make_arena, allocate_aligned, allocate_fallback, allocate_new_block, bump,
}
use distributed_kvstorage.Arena.Regions.{make_arena-IsGood}
use distributed_kvstorage.Random.{make_random, one_in, next}
use distributed_kvstorage.SkipList.{
  SkipList, make_skip_list, insert, contains, rounds, set_next, set_prev, get_prev,
  find_greater_or_equal, find_greater_or_equal_round, find_less_than, find_less_than_round,
  find_last, find_last_round, key_is_after_node, equal, random_height, random_height_loop,
  raise_prev, link, link_loop, Prev, done, clear_loop, new_node, Round,
}
use distributed_kvstorage.SkipList.Order.{IsKeyOrder}
use distributed_kvstorage.SkipList.State.{insert_key, IsSorted}
use distributed_kvstorage.SkipList.Represents.{Represents}
use distributed_kvstorage.SkipList.Laws.{
  make_skip_list-Represents, insert-insert_key, insert-duplicate, contains-Represents,
}
use distributed_kvstorage.SkipList.Readers.{
  Shared, Turn, writer_turn, reader_turn, insert_beside, search_step, search_start, Scan, begin,
  walk, scan_step,
}
use distributed_kvstorage.SkipList.Readers.Visible.{key_at}
use distributed_kvstorage.SkipList.Readers.Together.{insert_beside-key_from, insert_beside-scan}
use distributed_kvstorage.SkipList.Sequence.{scan, insert_all, scan-insert_all}
use mathlib.Core.List.{Perm}
use distributed_kvstorage.SkipList.Iterator.{Iterator, make_iterator}
use distributed_kvstorage.SkipList.Iterator
use distributed_kvstorage.SkipList.Iterator.Positions.{
  to_first, to_last, to_key, forward, backward, observe, perform,
}
use distributed_kvstorage.SkipList.Iterator.Laws.{observe-observe_list}
use distributed_kvstorage.Tests.Memory.{next_free, next_free-IsAllocator}

compare-IsKeyOrder : IsKeyOrder compare
compare-IsKeyOrder = record {
  reflexive = λ a. ground arith;
  flipped = λ a b. ground arith;
  transitive = λ a b c h k. ground arith;
}

abbrev empty_made :
    (s : SkipList ℕ) × (make_skip_list next_free 16 (make_arena []) 0 ≡ some s)
    × Represents compare s []
empty_made =
    make_skip_list-Represents next_free next_free-IsAllocator 16 (omega arith) (omega arith) compare
      (make_arena []) [] 0 (make_arena-IsGood [])

abbrev five_made :
    (s : SkipList ℕ) × (insert next_free 16 compare 12 empty_made.0 5 ≡ some s)
    × Represents compare s (insert_key compare 5 [])
five_made =
    insert-insert_key next_free next_free-IsAllocator 16 (omega arith) (omega arith) compare
      compare-IsKeyOrder 12 empty_made.0 [] 5 empty_made.2 (omega arith) refl

make_skip_list-Represents_example :
    (s : SkipList ℕ) × (make_skip_list next_free 16 (make_arena []) 0 ≡ some s)
    × Represents compare s []
make_skip_list-Represents_example =
    make_skip_list-Represents next_free next_free-IsAllocator 16 (omega arith) (omega arith) compare
      (make_arena []) [] 0 (make_arena-IsGood [])

insert-insert_key_example :
    (s : SkipList ℕ) × (insert next_free 16 compare 13 five_made.0 3 ≡ some s)
    × Represents compare s (3 ∷ 5 ∷ [])
insert-insert_key_example =
    insert-insert_key next_free next_free-IsAllocator 16 (omega arith) (omega arith) compare
      compare-IsKeyOrder 13 five_made.0 (5 ∷ []) 3 five_made.2 (omega arith) refl

insert-duplicate_example : insert next_free 16 compare 13 five_made.0 5 ≡ none
insert-duplicate_example =
    insert-duplicate next_free next_free-IsAllocator 16 (omega arith) (omega arith) compare
      compare-IsKeyOrder 13 five_made.0 (5 ∷ []) 5 five_made.2 (omega arith) refl

contains-Represents_example : contains compare 13 five_made.0 5 ≡ some true
contains-Represents_example =
    contains-Represents next_free next_free-IsAllocator 16 (omega arith) (omega arith) compare
      compare-IsKeyOrder 13 five_made.0 (5 ∷ []) 5 five_made.2 (omega arith)

observe-observe_list_example :
    observe compare 13 five_made.0 (to_first ∷ forward ∷ to_last ∷ backward ∷ []) make_iterator
    ≡ some (some 5 ∷ none ∷ some 5 ∷ none ∷ [])
observe-observe_list_example =
    observe-observe_list compare compare-IsKeyOrder five_made.0 (5 ∷ []) five_made.2 13
      (omega arith) (to_first ∷ forward ∷ to_last ∷ backward ∷ [])

-- Three keys, then the walk forwards, a search, and the walk backwards.
abbrev three_keys : Option (SkipList ℕ)
three_keys = do
  s ← make_skip_list next_free 16 (make_arena []) 0
  s ← insert next_free 16 compare 20 s 5
  s ← insert next_free 16 compare 20 s 9
  insert next_free 16 compare 20 s 3

three_walked :
    (three_keys >>= λ s.
    observe compare 20 s
      (to_first ∷ forward ∷ forward ∷ forward ∷ to_key 4 ∷ backward ∷ to_last ∷ [])
      make_iterator)
    ≡ some (some 3 ∷ some 5 ∷ some 9 ∷ none ∷ some 5 ∷ some 3 ∷ some 9 ∷ [])
unfolding make_skip_list insert rounds set_next set_prev get_prev find_greater_or_equal
    find_greater_or_equal_round find_less_than find_less_than_round find_last find_last_round
    key_is_after_node equal random_height random_height_loop raise_prev link link_loop clear_loop
    new_node allocate_aligned allocate_fallback allocate_new_block bump make_random one_in next
    perform Iterator.valid Iterator.unless_head Iterator.key Iterator.next Iterator.seek_to_first
    Iterator.seek_to_last Iterator.prev Iterator.seek
three_walked = refl

-- The search has two turns before each store, and the rest behind them.
abbrev turns : List Turn
turns =
    reader_turn ∷ reader_turn ∷ writer_turn ∷ reader_turn ∷ reader_turn ∷ writer_turn ∷ reader_turn
    ∷ reader_turn ∷ reader_turn ∷ reader_turn ∷ reader_turn ∷ reader_turn ∷ reader_turn
    ∷ reader_turn ∷ reader_turn ∷ reader_turn ∷ []

insert_beside-key_from_example :
    (after : Shared ℕ (Round (Option ℕ × Prev))) × (found : Option ℕ) × (prev : Prev)
    × (insert_beside next_free 16 compare
          (search_step compare 2)
          (search_start 0)
          13
          five_made.0
          3
          turns
        ≡ some after)
    × (after.reader ≡ done (found, prev))
    × ((key_at after.list.keys found ≡ some 5) ⊎ (key_at after.list.keys found ≡ some 3))
insert_beside-key_from_example =
    insert_beside-key_from next_free next_free-IsAllocator 16 (omega arith) (omega arith) compare
      compare-IsKeyOrder 13 five_made.0 (5 ∷ []) 3 2 0 turns five_made.2 (omega arith) refl
      (omega arith) (omega arith)

insert_beside-scan_example :
    (after : Shared ℕ (Scan ℕ)) × (it : Iterator) × (seen : List ℕ) × (insert_beside next_free 16
        compare scan_step
        (λ head. begin)
        13
        five_made.0
        3
        turns
      ≡ some after)
    × (after.reader ≡ walk it seen)
    × (it.node ≡ none)
    × ((seen ≡ 5 ∷ []) ⊎ (seen ≡ 3 ∷ 5 ∷ []))
insert_beside-scan_example =
    insert_beside-scan next_free next_free-IsAllocator 16 (omega arith) (omega arith) compare
      compare-IsKeyOrder 13 five_made.0 (5 ∷ []) 3 turns five_made.2 (omega arith) refl
      (omega arith)

abbrev five_nine_three : List ℕ
five_nine_three = 5 ∷ 9 ∷ 3 ∷ []

scan-insert_all_example :
    (after : SkipList ℕ) × (sorted : List ℕ) × (insert_all next_free 16 compare 15 empty_made.0
        five_nine_three
      ≡ some after)
    × (scan 15 after ≡ some sorted)
    × IsSorted compare sorted
    × Perm sorted five_nine_three
scan-insert_all_example =
    scan-insert_all next_free next_free-IsAllocator 16 (omega arith) (omega arith) compare
      compare-IsKeyOrder 15 empty_made.0 five_nine_three empty_made.2
      ((refl, (refl, tt)), ((refl, tt), (tt, tt))) (omega arith)
