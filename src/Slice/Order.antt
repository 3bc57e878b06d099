-- ===== src/Slice/Order.antt =====
-- `compare` and the two equality tests of slices.
use distributed_kvstorage.Common.{
  ℕ, compare as compare_nat, Ordering, true, ◌≡◌, refl, ◌∙◌, ◌↔◌, ◌≢◌, List, [], ◌∷◌, length, arith,
}
use distributed_kvstorage.Slice.{Slice, memcmp, compare, equal}

-- The other way round.
abbrev pub flip : Ordering → Ordering
flip Ordering.lt = Ordering.gt
flip Ordering.eq = Ordering.eq
flip Ordering.gt = Ordering.lt

-- The lexicographic order, a proper prefix first.
abbrev pub lex : List ℕ → List ℕ → Ordering
lex [] [] = Ordering.eq
lex [] (y ∷ ys) = Ordering.lt
lex (x ∷ xs) [] = Ordering.gt
lex (x ∷ xs) (y ∷ ys) = elim (compare_nat x y) [
  | Ordering.lt ↦ Ordering.lt
  | Ordering.eq ↦ lex xs ys
  | Ordering.gt ↦ Ordering.gt
]

-- The comparison by `memcmp` and by sizes is the lexicographic order.
pub compare-lex : (a b : Slice) → compare a b ≡ lex a b
unfolding compare
compare-lex [] [] = refl
compare-lex [] (y ∷ ys) = ground arith
compare-lex (x ∷ xs) [] = ground arith
compare-lex (x ∷ xs) (y ∷ ys) = ground (arith, compare-lex xs ys)

lex-eq : (a b : List ℕ) → lex a b ≡ Ordering.eq → a ≡ b
lex-eq [] [] h = refl
lex-eq [] (y ∷ ys) h = cc
lex-eq (x ∷ xs) [] h = cc
lex-eq (x ∷ xs) (y ∷ ys) h = ground (arith, lex-eq xs ys)

pub lex_refl : (a : List ℕ) → lex a a ≡ Ordering.eq
lex_refl [] = refl
lex_refl (x ∷ xs) = ground (arith, lex_refl xs)

lex-flip : (a b : List ℕ) → lex b a ≡ flip (lex a b)
lex-flip [] [] = refl
lex-flip [] (y ∷ ys) = refl
lex-flip (x ∷ xs) [] = refl
lex-flip (x ∷ xs) (y ∷ ys) = ground (arith, lex-flip xs ys)

lex_trans : (a b c : List ℕ) → lex a b ≢ Ordering.gt → lex b c ≢ Ordering.gt → lex a c ≢ Ordering.gt
lex_trans [] b [] h k = λ e. cc
lex_trans [] b (z ∷ zs) h k = λ e. cc
lex_trans (x ∷ xs) [] c h k = absurd (h refl)
lex_trans (x ∷ xs) (y ∷ ys) [] h k = absurd (k refl)
lex_trans (x ∷ xs) (y ∷ ys) (z ∷ zs) h k = ground (arith, lex_trans xs ys zs)

-- `compare` is zero exactly on equal slices.
compare-eq_iff : (a b : Slice) → (compare a b ≡ Ordering.eq) ↔ (a ≡ b)
compare-eq_iff a b = rw compare-lex (lex-eq a b, λ e. rw e (lex_refl b))

pub compare_refl : (a : Slice) → compare a a ≡ Ordering.eq
compare_refl a = compare-lex a a ∙ lex_refl a

-- Swapping the arguments of `compare` swaps the sign.
pub compare-flip : (a b : Slice) → compare b a ≡ flip (compare a b)
compare-flip a b = rw (compare-lex b a, compare-lex a b) (lex-flip a b)

-- "At most" is transitive for `compare`.
pub compare_trans :
    (a b c : Slice)
    → compare a b ≢ Ordering.gt
    → compare b c ≢ Ordering.gt
    → compare a c ≢ Ordering.gt
compare_trans a b c = rw (compare-lex a b, compare-lex b c, compare-lex a c) (lex_trans a b c)

memcmp-eq : (a b : List ℕ) → length a ≡ length b → memcmp a b (length a) ≡ Ordering.eq → a ≡ b
unfolding memcmp
memcmp-eq [] [] h k = refl
memcmp-eq [] (y ∷ ys) h k = absurd (omega arith)
memcmp-eq (x ∷ xs) [] h k = absurd (omega arith)
memcmp-eq (x ∷ xs) (y ∷ ys) h k = ground (arith, memcmp-eq xs ys)

memcmp_refl : (a : List ℕ) → memcmp a a (length a) ≡ Ordering.eq
unfolding memcmp
memcmp_refl [] = refl
memcmp_refl (x ∷ xs) = ground (arith, memcmp_refl xs)

-- `==` holds exactly of equal slices.
pub equal_iff : (a b : Slice) → (equal a b ≡ true) ↔ (a ≡ b)
unfolding equal
equal_iff a b = (λ h. ground (arith, memcmp-eq a b), λ e. rw e (ground (arith, memcmp_refl b)))

-- `==` agrees with a zero `compare`.
equal-compare_iff : (a b : Slice) → (equal a b ≡ true) ↔ (compare a b ≡ Ordering.eq)
equal-compare_iff a b = (
  λ h. (compare-eq_iff a b).1 ((equal_iff a b).0 h),
  λ h. (equal_iff a b).1 ((compare-eq_iff a b).0 h),
)
