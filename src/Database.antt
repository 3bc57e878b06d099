-- ===== src/Database.antt =====
-- The interfaces of src/include/database.h and src/include/iterator.h. The state of the outside world
-- is a type `W`; an object of a class that nothing implements is its address.
use distributed_kvstorage.Common.{ℕ, Bool, true, false, not, Option, none, some, List, ◌>>◌, assert}
use distributed_kvstorage.Slice.{Slice}
use distributed_kvstorage.Status.{Status}
use distributed_kvstorage.Options.{ReadOptions, WriteOptions}

pub record Range : Type 0 where
  pub start : Slice
  pub limit : Slice

abbrev pub make_range : (s l : Slice) → Range
make_range s l = record { start = s; limit = l }

-- The virtual methods. A method that stores to a pointer or a reference gives the value stored; the
-- `n` ranges of an array are a list.
pub record DataBase (W : Type 0) : Type 0 where
  pub put_key : WriteOptions → (key value : Slice) → W → Status × W
  pub delete_key : WriteOptions → (key : Slice) → W → Status × W
  pub write : WriteOptions → (updates : ℕ) → W → Status × W
  pub get_value : ReadOptions → (key : Slice) → W → Status × List ℕ × W
  pub new_iterator : ReadOptions → W → ℕ × W
  pub get_snapshot : W → ℕ × W
  pub release_snapshot : (snapshot : ℕ) → W → W
  pub get_property : (property : Slice) → W → Bool × List ℕ × W
  pub get_approximate_sizes : List Range → W → List ℕ × W
  pub compact_range : (begin end : Option Slice) → W → W

-- A function that runs when an iterator is done, or nullptr, with its arguments. `next` is the
-- address of another node.
pub record CleanupNode (W : Type 0) : Type 0 where
  pub func : Option ((arg1 arg2 : ℕ) → W → W)
  pub arg1 : ℕ
  pub arg2 : ℕ
  pub next : Option ℕ

module _ {W : Type 0} where
  unfoldable pub is_empty : CleanupNode W → Bool
  is_empty node = elim node.func [ none ↦ true | some func ↦ false ]

  unfoldable pub run : CleanupNode W → W → Option W
  unfolding is_empty
  run node w = do
    assert (not (is_empty node))
    elim node.func [ none ↦ none | some func ↦ some (func node.arg1 node.arg2 w) ]
