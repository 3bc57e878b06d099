-- ===== src/Comparator.antt =====
-- The class Comparator of src/include/comparator.h, and the default one of src/util/comparator.cc.
-- Keys are byte lists, and a result of `compare` is the sign of the source's int.
pub mod Separator
pub mod Successor
pub mod Bytewise
use distributed_kvstorage.Common.{
  ℕ, zero, suc, ◌+◌, ◌≡◌, ◌≢◌, ◌<◌, Ordering, Bool, ◌&&◌, Option, none, some, List, [], ◌∷◌, length,
  get_or, set, take, ltb, leb, ◌==◌, if◌then◌else◌, ◌>>=◌, u8, All, IsByte,
}
use distributed_kvstorage.Slice.{Slice, size}
use distributed_kvstorage.Slice
use distributed_kvstorage.Slice.Order.{flip}

-- The virtual methods. The `std::string*` that a method changes is its result; `none` is a failed
-- assertion. (`name` is a constant text.)
pub record Comparator : Type 0 where
  pub compare : Slice → Slice → Ordering
  pub find_shortest_separator : List ℕ → Slice → Option (List ℕ)
  pub find_short_successor : List ℕ → Option (List ℕ)

-- What the interface promises: `compare` is a total preorder, no method aborts, the separator of
-- `start` below `limit` is at or above `start` and below `limit`, where `start` is not below `limit`
-- it is left alone, and the successor is at or above the key.
pub record IsComparator (c : Comparator) : Type 0 where
  pub compare_refl : (a : Slice) → c.compare a a ≡ Ordering.eq
  pub compare-flip : (a b : Slice) → c.compare b a ≡ flip (c.compare a b)
  pub compare_trans :
      (a b d : Slice)
      → c.compare a b ≢ Ordering.gt
      → c.compare b d ≢ Ordering.gt
      → c.compare a d ≢ Ordering.gt
  pub separator_between :
      (start limit : Slice)
      → All IsByte start
      → All IsByte limit
      → c.compare start limit ≡ Ordering.lt
      → (s : List ℕ) × (c.find_shortest_separator start limit ≡ some s)
        × All IsByte s
        × (c.compare start s ≢ Ordering.gt)
        × (c.compare s limit ≡ Ordering.lt)
  pub separator_outside :
      (start limit : Slice)
      → All IsByte start
      → All IsByte limit
      → c.compare start limit ≢ Ordering.lt
      → c.find_shortest_separator start limit ≡ some start
  pub successor_above :
      (key : Slice)
      → All IsByte key
      → (s : List ℕ) × (c.find_short_successor key ≡ some s)
        × All IsByte s
        × (c.compare key s ≢ Ordering.gt)

-- The index of the first byte in which the two differ, or of the end of the shorter one. The loop
-- of the source at `diff_index` sees the two from there on.
unfoldable pub diff_index_loop : ℕ → List ℕ → List ℕ → ℕ
diff_index_loop i [] ys = i
diff_index_loop i (x ∷ xs) [] = i
diff_index_loop i (x ∷ xs) (y ∷ ys) =
    let next = diff_index_loop (i + 1) xs ys in if x == y then next else i

-- `resize` to a smaller size keeps the front.
unfoldable pub find_shortest_separator : List ℕ → Slice → Option (List ℕ)
unfolding diff_index_loop size
find_shortest_separator start limit =
    let min_length = if ltb (size limit) (size start) then size limit else size start in
    let diff_index = diff_index_loop 0 start limit in
    if leb min_length diff_index
    then some start
    else (let diff_byte = get_or start diff_index 0 in
        if ltb diff_byte 0xff && ltb (diff_byte + 1) (get_or limit diff_index 0)
        then (let start' = take (diff_index + 1) (set start diff_index (u8 (diff_byte + 1))) in
            if Slice.is_lt (Slice.compare start' limit) then some start' else none)
        else some start)

-- The loop at `i`, with the bytes from there on; `key` is the whole.
find_short_successor_loop : (key : List ℕ) → ℕ → List ℕ → List ℕ
find_short_successor_loop key i [] = key
find_short_successor_loop key i (byte ∷ rest) =
    let next = find_short_successor_loop key (i + 1) rest in
    if byte == 0xff then next else take (i + 1) (set key i (u8 (byte + 1)))

unfoldable pub find_short_successor : List ℕ → Option (List ℕ)
unfolding find_short_successor_loop
find_short_successor key = some (find_short_successor_loop key 0 key)

-- BytewiseComparator()
abbrev pub bytewise_comparator : Comparator
bytewise_comparator = record {
  compare = Slice.compare;
  find_shortest_separator = find_shortest_separator;
  find_short_successor = find_short_successor;
}
