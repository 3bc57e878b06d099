-- ===== src/Comparator/Separator.antt =====
-- `findShortestSeparator` of the default comparator, as a recursion on both keys.
use distributed_kvstorage.Common.{
  ℕ, suc, ◌+◌, ◌<◌, ◌≤◌, ◌≡◌, ◌≢◌, refl, ap, ◌∙◌, Ordering, ◌&&◌, some, List, [], ◌∷◌, length,
  get_or, set, take, ltb, leb, ◌==◌, if◌then◌else◌, ==_iff, subst, u8, All, IsByte, arith,
}
use distributed_kvstorage.Slice.Order.{lex, compare-lex, lex_refl}
use distributed_kvstorage.Comparator.{diff_index_loop, find_shortest_separator}
use native.Mathlib.Nat.{add_comm}
use native.Mathlib.Decide.{ℕ_discrete as dec_eq}

-- The separator by recursion on both keys at once.
pub separator : List ℕ → List ℕ → List ℕ
separator [] ys = []
separator (x ∷ xs) [] = x ∷ xs
separator (x ∷ xs) (y ∷ ys) =
    let rest = separator xs ys in
    if x == y then x ∷ rest else if ltb x 0xff && ltb (x + 1) y then (x + 1) ∷ [] else x ∷ xs

diff_index_loop-add :
    (i : ℕ) (xs ys : List ℕ) → diff_index_loop i xs ys ≡ i + diff_index_loop 0 xs ys
unfolding diff_index_loop
diff_index_loop-add i [] ys = omega arith
diff_index_loop-add i (x ∷ xs) [] = omega arith
diff_index_loop-add i (x ∷ xs) (y ∷ ys) =
    ground (arith, diff_index_loop-add (i + 1) xs ys, diff_index_loop-add 1 xs ys)

-- What the source computes, before its assertion, with the index as an argument.
abbrev candidate : (start limit : List ℕ) → ℕ → List ℕ
candidate start limit d =
    if leb (if ltb (length limit) (length start) then length limit else length start) d
    then start
    else if ltb (get_or start d 0) 0xff && ltb (get_or start d 0 + 1) (get_or limit d 0)
    then take (d + 1) (set start d (u8 (get_or start d 0 + 1)))
    else start

candidate-suc :
    (x : ℕ) (xs ys : List ℕ) (d : ℕ) → candidate (x ∷ xs) (x ∷ ys) (suc d) ≡ x ∷ candidate xs ys d
candidate-suc x xs ys d = let e : suc d + 1 ≡ suc (d + 1) = omega arith in rw e (ground arith)

candidate_same :
    (x : ℕ) (xs ys : List ℕ)
    → candidate xs ys (diff_index_loop 0 xs ys) ≡ separator xs ys
    → candidate (x ∷ xs) (x ∷ ys) (diff_index_loop 0 (x ∷ xs) (x ∷ ys))
      ≡ separator (x ∷ xs) (x ∷ ys)
unfolding diff_index_loop separator
candidate_same x xs ys ih = rw ((==_iff x x).1 refl) (
    ap (candidate (x ∷ xs) (x ∷ ys)) index
    ∙ candidate-suc x xs ys (diff_index_loop 0 xs ys)
    ∙ ap (λ t. x ∷ t) ih)
  where
    index : diff_index_loop 1 xs ys ≡ suc (diff_index_loop 0 xs ys)
    index = omega (arith, diff_index_loop-add 1 xs ys)

candidate_ne :
    (x y : ℕ) (xs ys : List ℕ)
    → x ≢ y
    → candidate (x ∷ xs) (y ∷ ys) (diff_index_loop 0 (x ∷ xs) (y ∷ ys))
      ≡ separator (x ∷ xs) (y ∷ ys)
unfolding diff_index_loop separator
candidate_ne x y xs ys ne = ground arith

candidate-separator : (xs ys : List ℕ) → candidate xs ys (diff_index_loop 0 xs ys) ≡ separator xs ys
candidate-separator [] ys = unfold diff_index_loop separator in ground arith
candidate-separator (x ∷ xs) [] = unfold diff_index_loop separator in ground arith
candidate-separator (x ∷ xs) (y ∷ ys) = elim (dec_eq x y) [
  | yes e ↦
      subst
        (λ t.
          candidate (x ∷ xs) (t ∷ ys) (diff_index_loop 0 (x ∷ xs) (t ∷ ys))
          ≡ separator (x ∷ xs) (t ∷ ys))
        e (candidate_same x xs ys (candidate-separator xs ys))
  | no ne ↦ candidate_ne x y xs ys ne
]

-- The separator is at least the start.
pub le-separator : (xs ys : List ℕ) → lex xs (separator xs ys) ≢ Ordering.gt
unfolding separator
le-separator [] ys = λ e. cc
le-separator (x ∷ xs) [] = λ e. cc (e, lex_refl (x ∷ xs))
le-separator (x ∷ xs) (y ∷ ys) = ground (arith, le-separator xs ys, lex_refl (x ∷ xs))

pub separator-lt :
    (xs ys : List ℕ) → lex xs ys ≡ Ordering.lt → lex (separator xs ys) ys ≡ Ordering.lt
unfolding separator
separator-lt [] ys h = h
separator-lt (x ∷ xs) [] h = cc
separator-lt (x ∷ xs) (y ∷ ys) h = ground (arith, separator-lt xs ys)

pub separator_outside : (xs ys : List ℕ) → lex xs ys ≢ Ordering.lt → separator xs ys ≡ xs
unfolding separator
separator_outside [] ys h = refl
separator_outside (x ∷ xs) [] h = refl
separator_outside (x ∷ xs) (y ∷ ys) h = ground (arith, separator_outside xs ys)

pub separator-IsByte : (xs ys : List ℕ) → All IsByte xs → All IsByte (separator xs ys)
unfolding separator
separator-IsByte [] ys h = tt
separator-IsByte (x ∷ xs) [] h = h
separator-IsByte (x ∷ xs) (y ∷ ys) h = ground (arith, separator-IsByte xs ys h.1)

-- A start that is less at the first difference is less.
diff_index-lt :
    (xs ys : List ℕ)
    → get_or xs (diff_index_loop 0 xs ys) 0 < get_or ys (diff_index_loop 0 xs ys) 0
    → lex xs ys ≡ Ordering.lt
unfolding diff_index_loop
diff_index-lt [] [] h = absurd (omega arith)
diff_index-lt [] (y ∷ ys) h = refl
diff_index-lt (x ∷ xs) [] h = absurd (omega arith)
diff_index-lt (x ∷ xs) (y ∷ ys) h =
    ground (
      arith,
      diff_index_loop-add 1 xs ys,
      add_comm 1 (diff_index_loop 0 xs ys),
      diff_index-lt xs ys,
    )

-- The separator is the start, or passes the assertion of the source.
pub find_shortest_separator-separator :
    (start limit : List ℕ) → find_shortest_separator start limit ≡ some (separator start limit)
unfolding find_shortest_separator
find_shortest_separator-separator start limit = ground (
  arith,
  candidate-separator start limit,
  diff_index-lt start limit,
  separator-lt start limit,
  compare-lex (separator start limit) limit,
)

length-separator : (xs ys : List ℕ) → length (separator xs ys) ≤ length xs
unfolding separator
length-separator [] ys = omega arith
length-separator (x ∷ xs) [] = omega arith
length-separator (x ∷ xs) (y ∷ ys) = ground (arith, length-separator xs ys)
