-- ===== src/Tests/Comparators.antt =====
-- The default comparator: runs, and the theorems at concrete inputs.
use distributed_kvstorage.Common.{◌≡◌, refl, some, [], ◌∷◌}
use distributed_kvstorage.Slice.{compare}
use distributed_kvstorage.Comparator.{find_shortest_separator}

separator_run :
    find_shortest_separator (b'a' ∷ b'b' ∷ b'c' ∷ []) (b'a' ∷ b'f' ∷ []) ≡ some (b'a' ∷ b'c' ∷ [])
unfolding find_shortest_separator compare
separator_run = refl

-- Nothing is shortened where one key is a prefix of the other, or where no byte lies between.
separator_prefix : find_shortest_separator (b'a' ∷ []) (b'a' ∷ b'f' ∷ []) ≡ some (b'a' ∷ [])
unfolding find_shortest_separator
separator_prefix = refl

separator_adjacent :
    find_shortest_separator (b'a' ∷ b'c' ∷ []) (b'b' ∷ []) ≡ some (b'a' ∷ b'c' ∷ [])
unfolding find_shortest_separator
separator_adjacent = refl
