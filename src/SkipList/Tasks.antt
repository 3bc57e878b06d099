-- ===== src/SkipList/Tasks.antt =====
-- What a search does in a round, and what is left for it to find.
use distributed_kvstorage.Common.{
  ℕ, zero, suc, ◌<◌, ◌≡◌, refl, ap, ◌∙◌, Option, some, List, [], ◌∷◌, ◌++◌, All, arith,
}
use distributed_kvstorage.SkipList.{SkipList, Prev, Place, Round, go, done, rounds}
use distributed_kvstorage.SkipList.Chains.{
  at_level, last_or, head_of, at_level-append, Chain-first, IsLinked,
}

pub last_or-append :
    (x : ℕ) (us : List ℕ) (y : ℕ) (vs : List ℕ) → last_or x (us ++ (y ∷ vs)) ≡ last_or y vs
last_or-append x [] y vs = refl
last_or-append x (a ∷ us) y vs = last_or-append a us y vs

last-step :
    (h : ℕ → ℕ) (i x : ℕ) (us : List ℕ) (y : ℕ) (vs : List ℕ)
    → i < h y
    → last_or x (at_level h i (us ++ (y ∷ vs))) ≡ last_or y (at_level h i vs)
last-step h i x us y vs tall =
    ap (last_or x) (at_level-append h i us (y ∷ vs))
    ∙ ground (arith, last_or-append x (at_level h i us) y (at_level h i vs))

-- What a search meets: where nothing of `ls` is linked at the level, the first node of the others.
module _ {K : Type 0} (s : SkipList K) (h : ℕ → ℕ) where
  pub next-down :
      (level x : ℕ) (ls rs : List ℕ)
      → IsLinked s.nexts h (suc level) x (ls ++ rs)
      → at_level h level ls ≡ []
      → s.nexts x level ≡ some (head_of (at_level h level rs))
  next-down level x ls rs linked nothing =
      Chain-first s.nexts level x (at_level h level (ls ++ rs)) (linked level (omega arith))
      ∙ ap (λ t. some (head_of t))
          (at_level-append h level ls rs ∙ ap (λ t. t ++ at_level h level rs) nothing)

  pub next-forward :
      (level x : ℕ) (us : List ℕ) (y : ℕ) (vs : List ℕ)
      → IsLinked s.nexts h (suc level) x (us ++ (y ∷ vs))
      → level < h y
      → at_level h level us ≡ []
      → s.nexts x level ≡ some (some y)
  next-forward level x us y vs linked tall nothing =
      next-down level x us (y ∷ vs) linked nothing ∙ ground arith

  IsLinked-lower :
      (level x : ℕ) (ns : List ℕ)
      → IsLinked s.nexts h (suc (suc level)) x ns
      → IsLinked s.nexts h (suc level) x ns
  IsLinked-lower level x ns linked i le = linked i (omega arith)

abbrev pub place : (x level : ℕ) → Prev → Place
place x level prev = record { node = x; level = level; prev = prev }

-- Where the loop of a search goes after a round.
module _ {A : Type 0} (round : Place → Option (Round A)) (fuel : ℕ) (p : Place) where
  pub rounds-go :
      (q : Place) → round p ≡ some (go q) → rounds round (suc fuel) p ≡ rounds round fuel q
  unfolding rounds
  rounds-go q e = rw e refl

  pub rounds-done : (a : A) → round p ≡ some (done a) → rounds round (suc fuel) p ≡ some a
  unfolding rounds
  rounds-done a e = rw e refl

-- What a search does with the array and what it returns, for the pointer and the node it ends at.
pub record Task (A : Type 0) : Type 0 where
  pub note : Prev → (level x : ℕ) → Prev
  pub answer : Option ℕ → Prev → ℕ → A

-- What the three searches share: they walk from a node to the next while it is in `Go`, and turn to
-- the level below at a pointer to a node in `Stop` and at nullptr.
pub record IsSearch {K : Type 0} {A : Type 0} (s : SkipList K) (round : Place → Option (Round A))
    (task : Task A) (Go Stop Here : ℕ → Type 0) : Type 0 where
  pub arrive : (n : ℕ) → Go n → Here n
  pub forward :
      (x level y : ℕ) (prev : Prev)
      → Here x
      → s.nexts x level ≡ some (some y)
      → Go y
      → round (place x level prev) ≡ some (go (place y level prev))
  pub down :
      (x level : ℕ) (prev : Prev) (ns : List ℕ)
      → Here x
      → s.nexts x (suc level) ≡ some (head_of ns)
      → All Stop ns
      → round (place x (suc level) prev) ≡ some (go (place x level (task.note prev (suc level) x)))
  pub finish :
      (x : ℕ) (prev : Prev) (ns : List ℕ)
      → Here x
      → s.nexts x 0 ≡ some (head_of ns)
      → All Stop ns
      → round (place x 0 prev) ≡ some (done (task.answer (head_of ns) (task.note prev 0 x) x))

module _ (h : ℕ → ℕ) (note : Prev → (level x : ℕ) → Prev) where
  -- The array after a search from `x` over `ls` on the levels up to `level`.
  abbrev pub noted : (level : ℕ) → Prev → (x : ℕ) → List ℕ → Prev
  noted zero prev x ls = note prev 0 (last_or x (at_level h 0 ls))
  noted (suc l) prev x ls = noted l (note prev (suc l) (last_or x (at_level h (suc l) ls))) x ls

  pub noted-step :
      (level : ℕ) (prev : Prev) (x : ℕ) (us : List ℕ) (y : ℕ) (vs : List ℕ)
      → level < h y
      → noted level prev x (us ++ (y ∷ vs)) ≡ noted level prev y vs
  noted-step zero prev x us y vs tall = ap (note prev 0) (last-step h 0 x us y vs tall)
  noted-step (suc l) prev x us y vs tall =
      ap (λ p. noted l (note prev (suc l) p) x (us ++ (y ∷ vs)))
        (last-step h (suc l) x us y vs tall)
      ∙ noted-step l (note prev (suc l) (last_or y (at_level h (suc l) vs))) x us y vs (omega arith)
