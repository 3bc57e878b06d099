-- ===== src/Slice/Prefix.antt =====
-- `startsWith` and `removePrefix`.
use distributed_kvstorage.Common.{
  ℕ, ◌≤◌, ◌<◌, Ordering, true, none, some, ◌≡◌, refl, ◌↔◌, [], ◌∷◌, ◌++◌, length, length-append,
  drop, arith,
}
use distributed_kvstorage.Slice.{Slice, memcmp, starts_with, remove_prefix, size}

memcmp-append : (p rest : Slice) → memcmp (p ++ rest) p (length p) ≡ Ordering.eq
unfolding memcmp
memcmp-append [] [] = refl
memcmp-append [] (r ∷ rest) = refl
memcmp-append (x ∷ p) rest = ground (arith, memcmp-append p rest)

memcmp-drop :
    (s p : Slice)
    → length p ≤ length s
    → memcmp s p (length p) ≡ Ordering.eq
    → s ≡ p ++ drop (length p) s
unfolding memcmp
memcmp-drop s [] h e = refl
memcmp-drop [] (x ∷ p) h e = absurd (omega arith)
memcmp-drop (y ∷ s) (x ∷ p) h e = ground (arith, memcmp-drop s p)

-- `startsWith` holds exactly when the slice is the prefix and some rest, and then
-- `removePrefix` by the prefix's size leaves that rest.
starts_with_iff :
    (s p : Slice)
    → (starts_with s p ≡ true)
      ↔ ((rest : Slice) × (s ≡ p ++ rest) × (remove_prefix (size p) s ≡ some rest))
unfolding starts_with remove_prefix
starts_with_iff s p = (
  λ h. (drop (length p) s, ground (arith, memcmp-drop s p), ground arith),
  λ (rest, e, r). rw e (ground (arith, memcmp-append p rest, length-append p rest)),
)

-- `removePrefix` aborts exactly when more bytes are to go than there are.
pub remove_prefix-none : (n : ℕ) (s : Slice) → (remove_prefix n s ≡ none) ↔ (size s < n)
unfolding remove_prefix
remove_prefix-none n s = ground arith
