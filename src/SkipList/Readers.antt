-- ===== src/SkipList/Readers.antt =====
-- Readers of src/database/skiplist.h that run while another thread links a node: the two stores
-- of a level and the loads of the reader one at a time, in any order. A round of a search and a step
-- of an iterator load one pointer each, and keys do not change.
pub mod Turns
pub mod Search
pub mod Rounds
pub mod Answers
pub mod Visible
pub mod Insertion
pub mod Scans
pub mod Together
use distributed_kvstorage.Common.{
  ℕ, zero, suc, ◌+◌, Ordering, Bool, true, false, Option, none, some, List, [], ◌∷◌, ◌++◌, ltb,
  if◌then◌else◌, ◌>>=◌, ◌>>◌, ◌-◌, not, assert,
}
use distributed_kvstorage.SkipList.{
  SkipList, Prev, Place, Round, go, done, next_of, set_next, get_prev, find_greater_or_equal_round,
  link, find_greater_or_equal, equal, raise_prev, new_node, random_height,
}
use distributed_kvstorage.Arena.{Block}
use distributed_kvstorage.SkipList.Iterator.{Iterator, valid, key, next, seek_to_first}

-- The two statements of the loop that links a node.
module _ {K : Type 0} where
  unfoldable pub link_own : SkipList K → (x i : ℕ) → Prev → Option (SkipList K)
  link_own s x i prev = do p ← get_prev prev i; next ← next_of s p i; set_next s x i next

  unfoldable pub link_publish : SkipList K → (x i : ℕ) → Prev → Option (SkipList K)
  link_publish s x i prev = do p ← get_prev prev i; set_next s p i (some x)

-- The list with the level that is being linked, whether the node has its own pointer there, and what
-- the reader knows.
pub record Shared (K R : Type 0) : Type 0 where
  pub list : SkipList K
  pub level : ℕ
  pub has_own : Bool
  pub reader : R

pub data Turn : Type 0 where
  writer_turn reader_turn : Turn

-- `look` is what the reader does in a turn.
module _ {K R : Type 0} (look : SkipList K → R → Option R) (x height : ℕ) (prev : Prev) where
  -- The next store, if one is left.
  unfoldable pub writer_step : Shared K R → Option (Shared K R)
  writer_step s =
      if ltb s.level height
      then (if s.has_own
          then (do
            list ← link_publish s.list x s.level prev
            some (record s { list = list; level = s.level + 1; has_own = false }))
          else (do
            list ← link_own s.list x s.level prev
            some (record s { list = list; has_own = true })))
      else some s

  unfoldable pub take_turn : Turn → Shared K R → Option (Shared K R)
  take_turn writer_turn s = writer_step s
  take_turn reader_turn s = do r ← look s.list s.reader; some (record s { reader = r })

  unfoldable pub take_turns : List Turn → Shared K R → Option (Shared K R)
  take_turns [] s = some s
  take_turns (t ∷ ts) s = do s ← take_turn t s; take_turns ts s

-- `insert` with its loop taken in turns with a reader that starts from `start`.
module _ {K R : Type 0} (new_array : List Block → ℕ → ℕ) (node_size : ℕ) (cmp : K → K → Ordering)
    (look : SkipList K → R → Option R) where
  unfoldable pub insert_beside :
      (start : ℕ → R) → (fuel : ℕ) → SkipList K → K → List Turn → Option (Shared K R)
  insert_beside start fuel s key ts = do
    (x, prev) ← find_greater_or_equal cmp fuel s key (some (λ _. none))
    assert (elim x [ none ↦ true | some n ↦ not (equal cmp key (s.keys n)) ])
    (height, rnd) ← random_height s.rnd
    let prev = raise_prev (height - s.max_height) s.max_height s.head prev
    let s = record s {
      rnd = rnd;
      max_height = if ltb s.max_height height then height else s.max_height;
    }
    (x, s) ← new_node new_array node_size s key height
    take_turns look x height prev ts
        (record { list = s; level = 0; has_own = false; reader = start s.head })

-- A search, which returns or has the next round before it. It begins at a level of the head: it may
-- have read the height from before or after the insertion set it.
module _ {K : Type 0} where
  unfoldable pub search_step :
      (K → K → Ordering)
      → K
      → SkipList K
      → Round (Option ℕ × Prev)
      → Option (Round (Option ℕ × Prev))
  search_step cmp target s (go p) = find_greater_or_equal_round cmp s target p
  search_step cmp target s (done a) = some (done a)

abbrev pub search_start : (level head : ℕ) → Round (Option ℕ × Prev)
search_start level head = go (record { node = head; level = level; prev = none })

-- for (it.seekToFirst(); it.valid(); it.next()), and the keys that were seen.
pub data Scan (K : Type 0) : Type 0 where
  begin : Scan K
  walk : Iterator → (seen : List K) → Scan K

module _ {K : Type 0} where
  unfoldable pub scan_step : SkipList K → Scan K → Option (Scan K)
  scan_step s begin = do it ← seek_to_first s; some (walk it [])
  scan_step s (walk it seen) = elim (valid it) [
    | true ↦ (do k ← key s it; it ← next s it; some (walk it (seen ++ (k ∷ []))))
    | false ↦ some (walk it seen)
  ]
