-- ===== src/Comparator/Successor.antt =====
-- `findShortSuccessor` of the default comparator, as a recursion on the key.
use distributed_kvstorage.Common.{
  ℕ, suc, ◌+◌, ◌≤◌, ◌≡◌, ◌≢◌, ◌⊎◌, refl, ap, inr, Ordering, some, List, [], ◌∷◌, ◌++◌, append_assoc,
  length, length-append, set, take, ◌==◌, if◌then◌else◌, All, IsByte, arith,
}
use distributed_kvstorage.Slice.{compare}
use distributed_kvstorage.Slice.Order.{lex, compare-lex}
use distributed_kvstorage.Comparator.{find_short_successor_loop, find_short_successor}

pub successor : List ℕ → List ℕ
successor [] = []
successor (x ∷ xs) = let rest = successor xs in if x == 0xff then x ∷ rest else (x + 1) ∷ []

-- Writing the byte behind `front` and cutting there.
take-set-append :
    (front back : List ℕ) (x v : ℕ)
    → take (suc (length front)) (set (front ++ (x ∷ back)) (length front) v) ≡ front ++ (v ∷ [])
take-set-append [] back x v = refl
take-set-append (f ∷ front) back x v = ap (λ t. f ∷ t) (take-set-append front back x v)

-- The loop behind `front`.
loop-successor :
    (front rest : List ℕ)
    → All IsByte rest
    → find_short_successor_loop (front ++ rest) (length front) rest ≡ front ++ successor rest
unfolding find_short_successor_loop successor
loop-successor front [] h = refl
loop-successor front (x ∷ rest) h = ground (
  arith,
  take-set-append front rest x (x + 1),
  append_assoc front (x ∷ []) rest,
  append_assoc front (x ∷ []) (successor rest),
  length-append front (x ∷ []),
  loop-successor (front ++ (x ∷ [])) rest h.1,
)

pub find_short_successor-successor :
    (key : List ℕ) → All IsByte key → find_short_successor key ≡ some (successor key)
unfolding find_short_successor
find_short_successor-successor key h = ap some (loop-successor [] key h)

pub successor-IsByte : (key : List ℕ) → All IsByte key → All IsByte (successor key)
unfolding successor
successor-IsByte [] h = tt
successor-IsByte (x ∷ xs) h = ground (arith, successor-IsByte xs h.1)

pub le-successor : (key : List ℕ) → lex key (successor key) ≢ Ordering.gt
unfolding successor
le-successor [] = λ e. cc
le-successor (x ∷ xs) = ground (arith, le-successor xs)

abbrev IsMaximal : ℕ → Type 0
IsMaximal b = b ≡ 0xff

lt-successor :
    (key : List ℕ)
    → (lex key (successor key) ≡ Ordering.lt) ⊎ ((successor key ≡ key) × All IsMaximal key)
unfolding successor
lt-successor [] = inr (refl, tt)
lt-successor (x ∷ xs) = ground (arith, lt-successor xs)

length-successor : (key : List ℕ) → length (successor key) ≤ length key
unfolding successor
length-successor [] = omega arith
length-successor (x ∷ xs) = ground (arith, length-successor xs)

-- FindShortSuccessor of the default comparator gives, for a key of bytes, a key that is no longer and
-- strictly greater, unless every byte is 0xff; then it leaves the key alone.
find_short_successor-lt :
    (key : List ℕ)
    → All IsByte key
    → (s : List ℕ) × (find_short_successor key ≡ some s)
      × (length s ≤ length key)
      × ((compare key s ≡ Ordering.lt) ⊎ ((s ≡ key) × All IsMaximal key))
find_short_successor-lt key h = (
  successor key,
  find_short_successor-successor key h,
  length-successor key,
  rw (compare-lex key (successor key)) (lt-successor key),
)
