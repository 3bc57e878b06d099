-- ===== src/Slice.antt =====
-- The class Slice of src/include/slice.h: a pointer and a size, read as the bytes that they
-- delimit. A `std::string` is the list of its bytes too. `none` is an assertion that fails.
pub mod Order
pub mod Prefix
use distributed_kvstorage.Common.{
  ℕ, zero, suc, ◌<◌, compare as compare_nat, Ordering, Bool, true, false, not, ◌&&◌, Option, none,
  some, List, [], ◌∷◌, length, get_elem?, drop, ltb, leb, ◌==◌ as eq_nat, if◌then◌else◌,
}

abbrev pub Slice : Type 0
Slice = List ℕ

-- Slice(const char* s): the bytes before the first NUL, as `strlen` counts them.
unfoldable pub of_c_string : List ℕ → Slice
of_c_string [] = []
of_c_string (c ∷ cs) = if eq_nat c 0 then [] else c ∷ of_c_string cs

unfoldable pub size : Slice → ℕ
size s = length s

unfoldable pub empty : Slice → Bool
unfolding size
empty s = eq_nat (size s) 0

-- memcmp(a, b, n) by the sign of its result. Every call has `n` bytes on both sides, so a list
-- that ends early is never met.
unfoldable pub memcmp : List ℕ → List ℕ → ℕ → Ordering
memcmp (x ∷ xs) (y ∷ ys) (suc n) =
    let rest = memcmp xs ys n in
    elim (compare_nat x y) [
      | Ordering.lt ↦ Ordering.lt
      | Ordering.eq ↦ rest
      | Ordering.gt ↦ Ordering.gt
    ]
memcmp _ _ _ = Ordering.eq

abbrev pub is_eq : Ordering → Bool
is_eq Ordering.eq = true
is_eq _ = false

abbrev pub is_lt : Ordering → Bool
is_lt Ordering.lt = true
is_lt _ = false

unfoldable pub starts_with : Slice → Slice → Bool
unfolding size memcmp
starts_with s x = leb (size x) (size s) && is_eq (memcmp s x (size x))

-- operator[]
unfoldable pub at : Slice → ℕ → Option ℕ
at s i = get_elem? s i

unfoldable pub clear : Slice → Slice
clear s = []

unfoldable pub remove_prefix : ℕ → Slice → Option Slice
unfolding size
remove_prefix n s = if leb n (size s) then some (drop n s) else none

unfoldable pub to_string : Slice → List ℕ
to_string s = s

-- The negative, zero and positive results are `lt`, `eq` and `gt`.
unfoldable pub compare : Slice → Slice → Ordering
unfolding size memcmp
compare a b =
    let min_len = if ltb (size a) (size b) then size a else size b in
    let res = memcmp a b min_len in
    if is_eq res
    then (if ltb (size a) (size b)
        then Ordering.lt
        else if ltb (size b) (size a)
        then Ordering.gt
        else res)
    else res

-- operator== and operator!=
unfoldable pub equal : Slice → Slice → Bool
unfolding size memcmp
equal a b = eq_nat (size a) (size b) && is_eq (memcmp a b (size a))

unfoldable pub not_equal : Slice → Slice → Bool
unfolding equal
not_equal a b = not (equal a b)
