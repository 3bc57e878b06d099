-- ===== src/SkipList/Chains.antt =====
-- The linked lists of the levels: what a pointer at a level leads to.
use distributed_kvstorage.Common.{
  ℕ, suc, ◌≤◌, ◌<◌, ◌≡◌, ◌⊎◌, inl, inr, refl, ap, Option, none, some, List, [], ◌∷◌, ◌++◌, All, ltb,
  if◌then◌else◌, arith, subst,
}
use native.Mathlib.Decide.{dec_lt}

-- The nodes that are linked at a level; `h` says how many levels of a node are linked.
abbrev pub at_level : (h : ℕ → ℕ) → ℕ → List ℕ → List ℕ
at_level h i [] = []
at_level h i (n ∷ ns) = let rest = at_level h i ns in if ltb i (h n) then n ∷ rest else rest

abbrev pub last_or : ℕ → List ℕ → ℕ
last_or x [] = x
last_or x (n ∷ ns) = last_or n ns

abbrev pub head_of : List ℕ → Option ℕ
head_of [] = none
head_of (n ∷ ns) = some n

-- From `x` on the pointers lead through these nodes, and then to nullptr.
abbrev pub Chain : (nexts : ℕ → ℕ → Option (Option ℕ)) → (i x : ℕ) → List ℕ → Type 0
Chain nexts i x [] = nexts x i ≡ some none
Chain nexts i x (n ∷ ns) = (nexts x i ≡ some (some n)) × Chain nexts i n ns

pub at_level-append :
    (h : ℕ → ℕ) (i : ℕ) (ls rs : List ℕ)
    → at_level h i (ls ++ rs) ≡ at_level h i ls ++ at_level h i rs
at_level-append h i [] rs = refl
at_level-append h i (n ∷ ls) rs = ground (arith, at_level-append h i ls rs)

pub All-at_level :
    (P : ℕ → Type 0) (h : ℕ → ℕ) (i : ℕ) (ns : List ℕ) → All P ns → All P (at_level h i ns)
All-at_level P h i [] all = tt
All-at_level P h i (n ∷ ns) all = ground (arith, All-at_level P h i ns all.1)

-- The first pointer of a chain.
pub Chain-first :
    (nexts : ℕ → ℕ → Option (Option ℕ)) (i x : ℕ) (ns : List ℕ)
    → Chain nexts i x ns
    → nexts x i ≡ some (head_of ns)
Chain-first nexts i x [] c = c
Chain-first nexts i x (n ∷ ns) c = c.0

-- The chain behind one of its nodes.
pub Chain-after :
    (nexts : ℕ → ℕ → Option (Option ℕ)) (i x : ℕ) (ls : List ℕ) (y : ℕ) (rs : List ℕ)
    → Chain nexts i x (ls ++ (y ∷ rs))
    → Chain nexts i y rs
Chain-after nexts i x [] y rs c = c.1
Chain-after nexts i x (n ∷ ls) y rs c = Chain-after nexts i n ls y rs c.1

pub Chain-at_last :
    (nexts : ℕ → ℕ → Option (Option ℕ)) (i x : ℕ) (ls rs : List ℕ)
    → Chain nexts i x (ls ++ rs)
    → nexts (last_or x ls) i ≡ some (head_of rs)
Chain-at_last nexts i x [] rs c = Chain-first nexts i x rs c
Chain-at_last nexts i x (n ∷ ls) rs c = Chain-at_last nexts i n ls rs c.1

-- Every level below `bound` is linked behind `x`.
abbrev pub IsLinked :
    (nexts : ℕ → ℕ → Option (Option ℕ)) → (h : ℕ → ℕ) → (bound x : ℕ) → List ℕ → Type 0
IsLinked nexts h bound x ns = (i : ℕ) → i < bound → Chain nexts i x (at_level h i ns)

-- A step from `x` to a node that is linked at `level`: the levels up to it are linked behind that
-- node.
pub IsLinked-step :
    (nexts : ℕ → ℕ → Option (Option ℕ)) (h : ℕ → ℕ) (level x : ℕ) (ls : List ℕ) (y : ℕ)
    (rs : List ℕ)
    → IsLinked nexts h (suc level) x (ls ++ (y ∷ rs))
    → level < h y
    → IsLinked nexts h (suc level) y rs
IsLinked-step nexts h level x ls y rs linked tall i le =
    Chain-after nexts i x (at_level h i ls) y (at_level h i rs)
      (subst (Chain nexts i x) split (linked i le))
  where
    split : at_level h i (ls ++ (y ∷ rs)) ≡ at_level h i ls ++ (y ∷ at_level h i rs)
    split = ground (arith, at_level-append h i ls (y ∷ rs))

-- The first node of some that is linked at a level, with what stands before and behind it.
pub record FirstAt (h : ℕ → ℕ) (level : ℕ) (ns : List ℕ) : Type 0 where
  pub skipped : List ℕ
  pub node : ℕ
  pub rest : List ℕ
  pub whole : ns ≡ skipped ++ (node ∷ rest)
  pub tall : level < h node
  pub low : (i : ℕ) → level ≤ i → at_level h i skipped ≡ []

-- Level 0 links every node.
pub at_level-zero : (h : ℕ → ℕ) (ns : List ℕ) → All (λ n. 0 < h n) ns → at_level h 0 ns ≡ ns
at_level-zero h [] pos = refl
at_level-zero h (n ∷ ns) pos = ground (arith, at_level-zero h ns pos.1)

-- No node is linked above all of them.
pub at_level-none : (h : ℕ → ℕ) (i : ℕ) (ns : List ℕ) → All (λ n. h n ≤ i) ns → at_level h i ns ≡ []
at_level-none h i [] low = refl
at_level-none h i (n ∷ ns) low = ground (arith, at_level-none h i ns low.1)

pub find_first :
    (h : ℕ → ℕ) (level : ℕ) (ns : List ℕ) → (at_level h level ns ≡ []) ⊎ FirstAt h level ns
find_first h level [] = inl refl
find_first h level (n ∷ ns) = elim (dec_lt level (h n)) [
  | yes tall ↦
      inr (record {
        skipped = [];
        node = n;
        rest = ns;
        whole = refl;
        tall = tall;
        low = λ i le. refl;
      })
  | no low ↦ elim (find_first h level ns) [
    | inl nothing ↦ inl (ground (arith, nothing))
    | inr f ↦ inr (record {
      skipped = n ∷ f.skipped;
      node = f.node;
      rest = f.rest;
      whole = ap (λ t. n ∷ t) f.whole;
      tall = f.tall;
      low = λ i le. ground (arith, f.low i le);
    })
  ]
]
