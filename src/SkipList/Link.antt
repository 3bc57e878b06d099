-- ===== src/SkipList/Link.antt =====
-- The stores that link a new node at one level, and what the levels are after each of them.
use distributed_kvstorage.Common.{
  ℕ, suc, ◌≤◌, ◌<◌, ◌≡◌, ◌≢◌, refl, sym, ◌∙◌, subst, Option, some, List, [], ◌∷◌, ◌++◌, All,
  All-append, All-part, arith,
}
use distributed_kvstorage.SkipList.{update, update_cell}
use distributed_kvstorage.SkipList.Chains.{
  at_level, All-at_level, at_level-append, last_or, head_of, Chain, IsLinked,
}
use distributed_kvstorage.SkipList.State.{IsDistinct}
use native.Mathlib.Decide.{dec_lt, ℕ_discrete}

-- Pointers that read the same lead the same way.
pub Chain-frame :
    (nexts nexts' : ℕ → ℕ → Option (Option ℕ)) (i x : ℕ) (ns : List ℕ)
    → All (λ n. nexts' n i ≡ nexts n i) (x ∷ ns)
    → Chain nexts i x ns
    → Chain nexts' i x ns
Chain-frame nexts nexts' i x [] same c = same.0 ∙ c
Chain-frame nexts nexts' i x (n ∷ ns) same c =
    (same.0 ∙ c.0, Chain-frame nexts nexts' i n ns same.1 c.1)

pub last_or-member : (P : ℕ → Type 0) (x : ℕ) (ns : List ℕ) → All P (x ∷ ns) → P (last_or x ns)
last_or-member P x [] all = all.0
last_or-member P x (n ∷ ns) all = last_or-member P n ns all.1

-- The other cells of a level read the same after a store.
cell-same :
    (nexts : ℕ → ℕ → Option (Option ℕ)) (p i : ℕ) (v : Option (Option ℕ)) (ns : List ℕ)
    → All (λ n. p ≢ n) ns
    → All (λ n. update_cell nexts p i v n i ≡ nexts n i) ns
cell-same nexts p i v [] apart = tt
cell-same nexts p i v (n ∷ ns) apart = (ground (arith, apart.0), cell-same nexts p i v ns apart.1)

level-same :
    (nexts : ℕ → ℕ → Option (Option ℕ)) (p i j : ℕ) (v : Option (Option ℕ)) (ns : List ℕ)
    → i ≢ j
    → All (λ n. update_cell nexts p i v n j ≡ nexts n j) ns
level-same nexts p i j v [] other = tt
level-same nexts p i j v (n ∷ ns) other = (ground arith, level-same nexts p i j v ns other)

-- A node whose pointer leads to the rest of a chain is put into it by one store, behind the last of
-- `us`.
Chain-insert :
    (nexts : ℕ → ℕ → Option (Option ℕ)) (i a : ℕ) (us : List ℕ) (x : ℕ) (vs : List ℕ)
    → Chain nexts i a (us ++ vs)
    → nexts x i ≡ some (head_of vs)
    → IsDistinct (a ∷ (us ++ (x ∷ vs)))
    → Chain (update_cell nexts (last_or a us) i (some (some x))) i a (us ++ (x ∷ vs))
Chain-insert nexts i a [] x [] c own d = (ground arith, ground (arith, d.0.0))
Chain-insert nexts i a [] x (v ∷ vs) c own d = (
  ground arith,
  (
    ground (arith, d.0.0),
    Chain-frame nexts (update_cell nexts a i (some (some x))) i v vs
        (cell-same nexts a i (some (some x)) (v ∷ vs) d.0.1) c.1,
  ),
)
Chain-insert nexts i a (u ∷ us) x vs c own d =
    let far : last_or u us ≢ a =
      last_or-member (λ n. n ≢ a) u us
        (All-flip a (u ∷ us) (All-part (λ n. a ≢ n) (u ∷ us) (x ∷ vs) d.0).0) in
    (ground (arith, c.0, far), Chain-insert nexts i u us x vs c.1 own d.1)
  where
    All-flip : (a : ℕ) (ns : List ℕ) → All (λ n. a ≢ n) ns → All (λ n. n ≢ a) ns
    All-flip a [] all = tt
    All-flip a (n ∷ ns) all = (λ e. all.0 (sym e), All-flip a ns all.1)

IsDistinct-level : (h : ℕ → ℕ) (i : ℕ) (ns : List ℕ) → IsDistinct ns → IsDistinct (at_level h i ns)
IsDistinct-level h i [] d = tt
IsDistinct-level h i (n ∷ ns) d =
    ground (arith, All-at_level (λ m. n ≢ m) h i ns, IsDistinct-level h i ns d.1)

-- Nodes other than `x` do not see how many levels of `x` are linked.
at_level-update :
    (h : ℕ → ℕ) (x m i : ℕ) (ns : List ℕ)
    → All (λ n. x ≢ n) ns
    → at_level (update h x m) i ns ≡ at_level h i ns
at_level-update h x m i [] apart = refl
at_level-update h x m i (n ∷ ns) apart = ground (arith, apart.0, at_level-update h x m i ns apart.1)

-- A new node between `ls` and `rs`, in a list that starts at `head`.
pub record IsNew (head x : ℕ) (ls rs : List ℕ) : Type 0 where
  pub distinct : IsDistinct (head ∷ (ls ++ (x ∷ rs)))
  pub off_head : x ≢ head
  pub off_ls : All (λ n. x ≢ n) ls
  pub off_rs : All (λ n. x ≢ n) rs

module _ (h : ℕ → ℕ) (head x : ℕ) (ls rs : List ℕ) (new : IsNew head x ls rs) where
  pub level-in :
      (m i : ℕ)
      → i < m
      → at_level (update h x m) i (ls ++ (x ∷ rs)) ≡ at_level h i ls ++ (x ∷ at_level h i rs)
  level-in m i lt =
      at_level-append (update h x m) i ls (x ∷ rs)
      ∙ ground (arith, at_level-update h x m i ls new.off_ls, at_level-update h x m i rs new.off_rs)

  pub level-out :
      (m i : ℕ)
      → m ≤ i
      → at_level (update h x m) i (ls ++ (x ∷ rs)) ≡ at_level h i ls ++ at_level h i rs
  level-out m i le =
      at_level-append (update h x m) i ls (x ∷ rs)
      ∙ ground (arith, at_level-update h x m i ls new.off_ls, at_level-update h x m i rs new.off_rs)

  -- The levels with the node linked at the lowest `m`.
  abbrev pub IsLinkedTo : (ℕ → ℕ → Option (Option ℕ)) → ℕ → Type 0
  IsLinkedTo nexts m = IsLinked nexts (update h x m) 12 head (ls ++ (x ∷ rs))

  off_level : (i : ℕ) → All (λ n. x ≢ n) (head ∷ (at_level h i ls ++ at_level h i rs))
  off_level i = (
    new.off_head,
    All-append (λ n. x ≢ n) (at_level h i ls) (at_level h i rs)
        (All-at_level (λ n. x ≢ n) h i ls new.off_ls) (All-at_level (λ n. x ≢ n) h i rs new.off_rs),
  )

  -- A store to the node's own pointer at a level where it is not linked is not seen.
  pub own-IsLinkedTo :
      (nexts : ℕ → ℕ → Option (Option ℕ)) (m : ℕ) (v : Option (Option ℕ))
      → IsLinkedTo nexts m
      → IsLinkedTo (update_cell nexts x m v) m
  own-IsLinkedTo nexts m v linked i le = elim (ℕ_discrete m i) [
    | yes same ↦ rw (level-out m i (omega arith)) (
        Chain-frame nexts (update_cell nexts x m v) i head (at_level h i ls ++ at_level h i rs)
          (subst
            (λ j.
              All (λ n. update_cell nexts x j v n i ≡ nexts n i)
                (head ∷ (at_level h i ls ++ at_level h i rs)))
            (sym same)
            (cell-same nexts x i v (head ∷ (at_level h i ls ++ at_level h i rs)) (off_level i)))
          (subst (Chain nexts i head) (level-out m i (omega arith)) (linked i le)))
    | no other ↦
        Chain-frame nexts (update_cell nexts x m v) i head
          (at_level (update h x m) i (ls ++ (x ∷ rs)))
          (level-same nexts x m i v (head ∷ at_level (update h x m) i (ls ++ (x ∷ rs))) other)
          (linked i le)
  ]

  level-other :
      (m i : ℕ)
      → m ≢ i
      → at_level (update h x m) i (ls ++ (x ∷ rs))
        ≡ at_level (update h x (suc m)) i (ls ++ (x ∷ rs))
  level-other m i other = elim (dec_lt i m) [
    | yes lt ↦ level-in m i lt ∙ sym (level-in (suc m) i (omega arith))
    | no le ↦ level-out m i (omega arith) ∙ sym (level-out (suc m) i (omega arith))
  ]

  -- The store to the predecessor links the node at one more level.
  pub publish-IsLinkedTo :
      (nexts : ℕ → ℕ → Option (Option ℕ)) (m : ℕ)
      → m < 12
      → IsLinkedTo nexts m
      → nexts x m ≡ some (head_of (at_level h m rs))
      → IsLinkedTo (update_cell nexts (last_or head (at_level h m ls)) m (some (some x))) (suc m)
  publish-IsLinkedTo nexts m small linked own i le = elim (ℕ_discrete m i) [
    | yes same ↦
        subst
          (λ j.
            Chain (update_cell nexts (last_or head (at_level h m ls)) m (some (some x))) j head
              (at_level (update h x (suc m)) j (ls ++ (x ∷ rs))))
          same here
    | no other ↦ subst (Chain nexts' i head) (level-other m i other) (
        Chain-frame nexts nexts' i head (at_level (update h x m) i (ls ++ (x ∷ rs)))
          (level-same nexts (last_or head (at_level h m ls)) m i (some (some x))
            (head ∷ at_level (update h x m) i (ls ++ (x ∷ rs))) other)
          (linked i le))
  ]
    where
      nexts' : ℕ → ℕ → Option (Option ℕ)
      nexts' = update_cell nexts (last_or head (at_level h m ls)) m (some (some x))

      distinct : IsDistinct (head ∷ (at_level h m ls ++ (x ∷ at_level h m rs)))
      distinct =
          subst (λ t. IsDistinct (head ∷ t)) (level-in (suc m) m (omega arith))
            (
              All-at_level (λ n. head ≢ n) (update h x (suc m)) m (ls ++ (x ∷ rs)) new.distinct.0,
              IsDistinct-level (update h x (suc m)) m (ls ++ (x ∷ rs)) new.distinct.1,
            )

      here :
          Chain
            (update_cell nexts (last_or head (at_level h m ls)) m (some (some x)))
            m
            head
            (at_level (update h x (suc m)) m (ls ++ (x ∷ rs)))
      here = rw (level-in (suc m) m (omega arith)) (
          Chain-insert nexts m head (at_level h m ls) x (at_level h m rs)
            (subst (Chain nexts m head) (level-out m m (omega arith)) (linked m small)) own
            distinct)
