-- ===== src/SkipList.antt =====
-- src/database/skiplist.h: the class template SkipList. A node is its address, nullptr is `none`. The
-- key type is a parameter, with the comparator, the size of a node and `new` for the arena. The outer
-- `none` of an operation is a failed assertion, a read of a pointer that was never written, an access
-- outside `nexts_`, or a search that ran out of fuel.
pub mod Order
pub mod Chains
pub mod State
pub mod Tasks
pub mod Search
pub mod Find
pub mod Link
pub mod Insert
pub mod Represents
pub mod Sorted
pub mod Allocated
pub mod Insertion
pub mod Laws
pub mod Readers
pub mod Iterator
pub mod Sequence
use distributed_kvstorage.Common.{
  ℕ, zero, suc, ◌+◌, ◌-◌, ◌*◌, Ordering, Bool, true, false, not, ◌&&◌, Option, none, some, List,
  ltb, leb, ◌==◌, if◌then◌else◌, ◌>>=◌, ◌>>◌, assert,
}
use distributed_kvstorage.Slice.{is_eq, is_lt}
use distributed_kvstorage.Arena.{Block, Arena, allocate_aligned}
use distributed_kvstorage.Random.{Random, make_random, one_in}

abbrev pub max_level_count : ℕ
max_level_count = 12

-- The fields of the list, and the memory of its nodes: their keys, how many pointers each was
-- allocated for, and the pointers, `none` where nothing was written.
pub record SkipList (K : Type 0) : Type 0 where
  pub arena : Arena
  pub head : ℕ
  pub max_height : ℕ
  pub rnd : Random
  pub keys : ℕ → K
  pub sizes : ℕ → ℕ
  pub nexts : ℕ → ℕ → Option (Option ℕ)

abbrev pub update {ℓ} : {A : Type ℓ} → (ℕ → A) → ℕ → A → ℕ → A
update f n v m = if n == m then v else f m

abbrev pub update_cell :
    (ℕ → ℕ → Option (Option ℕ)) → (n level : ℕ) → Option (Option ℕ) → ℕ → ℕ → Option (Option ℕ)
update_cell f n level v m i = if n == m then (if level == i then v else f m i) else f m i

-- The array `prev` of a search: nullptr, or its entries, where one may be unset.
abbrev pub Prev : Type 0
Prev = Option (ℕ → Option ℕ)

unfoldable pub set_prev : Prev → (level x : ℕ) → Prev
set_prev none level x = none
set_prev (some entries) level x = some (update entries level (some x))

unfoldable pub get_prev : Prev → ℕ → Option ℕ
get_prev none level = none
get_prev (some entries) level = entries level

-- Where a search stands: the node, the level and the array.
pub record Place : Type 0 where
  pub node : ℕ
  pub level : ℕ
  pub prev : Prev

-- One round of a search goes on, or returns.
pub data Round (A : Type 0) : Type 0 where
  go : Place → Round A
  done : A → Round A

-- A `while (true)` loop of rounds.
unfoldable pub rounds : {A : Type 0} → (Place → Option (Round A)) → (fuel : ℕ) → Place → Option A
rounds round zero p = none
rounds round (suc fuel) p = do r ← round p; elim r [ go q ↦ rounds round fuel q | done a ↦ some a ]

module _ {K : Type 0} where
  -- next(level) and noBarrierNext(level)
  abbrev pub next_of : SkipList K → (n level : ℕ) → Option (Option ℕ)
  next_of s n level = s.nexts n level

  -- setNext(level, x) and noBarrierSetNext(level, x)
  unfoldable pub set_next : SkipList K → (n level : ℕ) → Option ℕ → Option (SkipList K)
  set_next s n level x = do
    assert (ltb level (s.sizes n))
    some (record s { nexts = update_cell s.nexts n level (some x) })

  module _ (cmp : K → K → Ordering) where
    unfoldable pub equal : K → K → Bool
    equal a b = is_eq (cmp a b)

    unfoldable pub key_is_after_node : SkipList K → K → Option ℕ → Bool
    key_is_after_node s key none = false
    key_is_after_node s key (some n) = is_lt (cmp (s.keys n) key)

    unfoldable pub find_greater_or_equal_round :
        SkipList K → K → Place → Option (Round (Option ℕ × Prev))
    find_greater_or_equal_round s key p = do
      next ← next_of s p.node p.level
      let prev = set_prev p.prev p.level p.node
      if key_is_after_node s key next
          then (do x ← next; some (go (record p { node = x })))
          else some (
              if p.level == 0
              then done (next, prev)
              else go (record p { level = p.level - 1; prev = prev }))

    unfoldable pub find_greater_or_equal :
        (fuel : ℕ) → SkipList K → K → Prev → Option (Option ℕ × Prev)
    find_greater_or_equal fuel s key prev =
        rounds (find_greater_or_equal_round s key) fuel
          (record { node = s.head; level = s.max_height - 1; prev = prev })

    unfoldable pub find_less_than_round : SkipList K → K → Place → Option (Round ℕ)
    find_less_than_round s key p = do
      assert (if p.node == s.head then true else is_lt (cmp (s.keys p.node) key))
      next ← next_of s p.node p.level
      elim next [
        | none ↦ some (if p.level == 0 then done p.node else go (record p { level = p.level - 1 }))
        | some x ↦ some (
            if is_lt (cmp (s.keys x) key)
            then go (record p { node = x })
            else if p.level == 0
            then done p.node
            else go (record p { level = p.level - 1 }))
      ]

    unfoldable pub find_less_than : (fuel : ℕ) → SkipList K → K → Option ℕ
    find_less_than fuel s key =
        rounds (find_less_than_round s key) fuel
          (record { node = s.head; level = s.max_height - 1; prev = none })

    unfoldable pub contains : (fuel : ℕ) → SkipList K → K → Option Bool
    contains fuel s key = do
      (x, _) ← find_greater_or_equal fuel s key none
      some (elim x [ none ↦ false | some n ↦ equal key (s.keys n) ])

  unfoldable pub find_last_round : SkipList K → Place → Option (Round ℕ)
  find_last_round s p = do
    next ← next_of s p.node p.level
    some (elim next [
      | none ↦ if p.level == 0 then done p.node else go (record p { level = p.level - 1 })
      | some x ↦ go (record p { node = x })
    ])

  unfoldable pub find_last : (fuel : ℕ) → SkipList K → Option ℕ
  find_last fuel s =
      rounds (find_last_round s) fuel
        (record { node = s.head; level = s.max_height - 1; prev = none })

-- randomHeight(): `left` is how far `height` is below the bound.
unfoldable pub random_height_loop : (left height : ℕ) → Random → Option (ℕ × Random)
random_height_loop zero height rnd = some (height, rnd)
random_height_loop (suc left) height rnd = do
  (hit, rnd) ← one_in rnd 4
  elim hit [ true ↦ random_height_loop left (height + 1) rnd | false ↦ some (height, rnd) ]

unfoldable pub random_height : Random → Option (ℕ × Random)
random_height rnd = do
  (height, rnd) ← random_height_loop (max_level_count - 1) 1 rnd
  assert (ltb 0 height)
  assert (leb height max_level_count)
  some (height, rnd)

-- The loop that takes the head for the levels from `i` on.
unfoldable pub raise_prev : (count i head : ℕ) → Prev → Prev
raise_prev zero i head prev = prev
raise_prev (suc count) i head prev = raise_prev count (i + 1) head (set_prev prev i head)

module _ {K : Type 0} where
  -- The body of the loop that links a new node at level `i`: first its own pointer, then the
  -- predecessor's.
  unfoldable pub link : SkipList K → (x i : ℕ) → Prev → Option (SkipList K)
  link s x i prev = do
    p ← get_prev prev i
    next ← next_of s p i
    s ← set_next s x i next
    set_next s p i (some x)

  unfoldable pub link_loop : (count i : ℕ) → SkipList K → (x : ℕ) → Prev → Option (SkipList K)
  link_loop zero i s x prev = some s
  link_loop (suc count) i s x prev = do s ← link s x i prev; link_loop count (i + 1) s x prev

  unfoldable pub clear_loop : (count i : ℕ) → SkipList K → Option (SkipList K)
  clear_loop zero i s = some s
  clear_loop (suc count) i s = do s ← set_next s s.head i none; clear_loop count (i + 1) s

  module _ (new_array : List Block → ℕ → ℕ) (node_size : ℕ) where
    -- newNode(key, height); sizeof(Node) holds the first of its pointers.
    unfoldable pub new_node : SkipList K → K → (height : ℕ) → Option (ℕ × SkipList K)
    new_node s key height = do
      (x, arena) ← allocate_aligned new_array s.arena (node_size + 8 * (height - 1))
      some (
        x,
        record s {
          arena = arena;
          keys = update s.keys x key;
          sizes = update s.sizes x height;
          nexts = update s.nexts x (λ _. none);
        },
      )

    -- SkipList(cmp, arena)
    unfoldable pub make_skip_list : Arena → (zero_key : K) → Option (SkipList K)
    make_skip_list arena zero_key = do
      let blank : SkipList K = record {
        arena = arena;
        head = 0;
        max_height = 1;
        rnd = make_random 0xdeadbeef;
        keys = λ _. zero_key;
        sizes = λ _. 0;
        nexts = λ _ _. none;
      }
      (x, s) ← new_node blank zero_key max_level_count
      clear_loop max_level_count 0 (record s { head = x })

    module _ (cmp : K → K → Ordering) where
      unfoldable pub insert : (fuel : ℕ) → SkipList K → K → Option (SkipList K)
      insert fuel s key = do
        (x, prev) ← find_greater_or_equal cmp fuel s key (some (λ _. none))
        assert (elim x [ none ↦ true | some n ↦ not (equal cmp key (s.keys n)) ])
        (height, rnd) ← random_height s.rnd
        let prev = raise_prev (height - s.max_height) s.max_height s.head prev
        let s = record s {
          rnd = rnd;
          max_height = if ltb s.max_height height then height else s.max_height;
        }
        (x, s) ← new_node s key height
        link_loop height 0 s x prev
