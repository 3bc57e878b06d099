-- ===== src/Tests/Slices.antt =====
-- Slices: runs, and the theorems at concrete inputs.
use distributed_kvstorage.Common.{◌≡◌, ◌↔◌, ◌<◌, refl, Ordering, true, none, some, [], ◌∷◌}
use distributed_kvstorage.Slice.{Slice, size, of_c_string, compare, equal, remove_prefix}
use distributed_kvstorage.Slice.Order.{flip, compare-lex, compare-flip, equal_iff}
use distributed_kvstorage.Slice.Prefix.{remove_prefix-none}

abbrev abc : Slice
abc = b'a' ∷ b'b' ∷ b'c' ∷ []

abbrev abd : Slice
abd = b'a' ∷ b'b' ∷ b'd' ∷ []

abbrev ab : Slice
ab = b'a' ∷ b'b' ∷ []

of_c_string_stops : of_c_string (b'a' ∷ b'b' ∷ 0 ∷ b'c' ∷ []) ≡ ab
unfolding of_c_string
of_c_string_stops = refl

compare_shorter : compare ab abc ≡ Ordering.lt
unfolding compare
compare_shorter = refl

remove_prefix_run : remove_prefix 2 abc ≡ some (b'c' ∷ [])
unfolding remove_prefix
remove_prefix_run = refl

compare-lex_example : compare abc abd ≡ Ordering.lt
compare-lex_example = compare-lex abc abd

compare-flip_example : compare abd abc ≡ flip (compare abc abd)
compare-flip_example = compare-flip abc abd

equal_iff_example : (equal ab abc ≡ true) ↔ (ab ≡ abc)
equal_iff_example = equal_iff ab abc

remove_prefix-none_example : (remove_prefix 4 abc ≡ none) ↔ (size abc < 4)
remove_prefix-none_example = remove_prefix-none 4 abc
