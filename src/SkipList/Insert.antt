-- ===== src/SkipList/Insert.antt =====
-- The parts of `insert`: the array of predecessors, the height, the new node, and the loop that
-- links.
use distributed_kvstorage.Common.{
  ℕ, zero, suc, ◌+◌, ◌%◌, ◌≤◌, ◌<◌, ◌≡◌, refl, ◌∙◌, subst, Bool, true, false, Option, some, List,
  ◌==◌, arith,
}
use distributed_kvstorage.Random.{Random, next, one_in}
use distributed_kvstorage.SkipList.{
  SkipList, Prev, set_prev, get_prev, set_next, update, update_cell, link, link_loop, raise_prev,
  random_height_loop, random_height,
}
use distributed_kvstorage.SkipList.Chains.{at_level, last_or, head_of, Chain, Chain-at_last}
use distributed_kvstorage.SkipList.Tasks.{noted}
use distributed_kvstorage.SkipList.Link.{
  IsNew, IsLinkedTo, own-IsLinkedTo, publish-IsLinkedTo, level-out,
}
use native.Mathlib.Decide.{ℕ_discrete}

-- The entries of `prev` after a search.
noted-above :
    (h : ℕ → ℕ) (level : ℕ) (f : ℕ → Option ℕ) (x : ℕ) (ls : List ℕ) (j : ℕ)
    → level < j
    → get_prev (noted h set_prev level (some f) x ls) j ≡ f j
unfolding get_prev set_prev
noted-above h zero f x ls j lt = ground arith
noted-above h (suc l) f x ls j lt =
    noted-above h l (update f (suc l) (some (last_or x (at_level h (suc l) ls)))) x ls j
      (omega arith)
    ∙ ground arith

pub noted-entry :
    (h : ℕ → ℕ) (level : ℕ) (f : ℕ → Option ℕ) (x : ℕ) (ls : List ℕ) (j : ℕ)
    → j ≤ level
    → get_prev (noted h set_prev level (some f) x ls) j ≡ some (last_or x (at_level h j ls))
unfolding get_prev set_prev
noted-entry h zero f x ls j le =
    subst
      (λ i. update f 0 (some (last_or x (at_level h 0 ls))) i ≡ some (last_or x (at_level h i ls)))
      zero_only (ground arith)
  where
    zero_only : 0 ≡ j
    zero_only = omega arith
noted-entry h (suc l) f x ls j le = elim (ℕ_discrete (suc l) j) [
  | yes same ↦
      noted-above h l (update f (suc l) (some (last_or x (at_level h (suc l) ls)))) x ls j
        (omega (arith, same))
      ∙ subst
          (λ i.
            update f (suc l) (some (last_or x (at_level h (suc l) ls))) i
            ≡ some (last_or x (at_level h i ls)))
          same (ground arith)
  | no other ↦
      noted-entry h l (update f (suc l) (some (last_or x (at_level h (suc l) ls)))) x ls j
        (omega arith)
]

pub noted-some :
    (h : ℕ → ℕ) (level : ℕ) (f : ℕ → Option ℕ) (x : ℕ) (ls : List ℕ)
    → (g : ℕ → Option ℕ) × (noted h set_prev level (some f) x ls ≡ some g)
unfolding set_prev
noted-some h zero f x ls = (update f 0 (some (last_or x (at_level h 0 ls))), refl)
noted-some h (suc l) f x ls =
    noted-some h l (update f (suc l) (some (last_or x (at_level h (suc l) ls)))) x ls

-- The levels from `i` on, `count` of them, take the head; the others keep their entry.
pub raise_prev-out :
    (count i head : ℕ) (f : ℕ → Option ℕ) (j : ℕ)
    → j < i
    → get_prev (raise_prev count i head (some f)) j ≡ f j
unfolding raise_prev get_prev set_prev
raise_prev-out zero i head f j lt = refl
raise_prev-out (suc count) i head f j lt =
    raise_prev-out count (i + 1) head (update f i (some head)) j (omega arith) ∙ ground arith

pub raise_prev-in :
    (count i head : ℕ) (f : ℕ → Option ℕ) (j : ℕ)
    → i ≤ j
    → j < i + count
    → get_prev (raise_prev count i head (some f)) j ≡ some head
unfolding raise_prev set_prev
raise_prev-in zero i head f j le lt = absurd (omega arith)
raise_prev-in (suc count) i head f j le lt = elim (ℕ_discrete i j) [
  | yes same ↦
      raise_prev-out count (i + 1) head (update f i (some head)) j (omega arith)
      ∙ ground (arith, same)
  | no other ↦
      raise_prev-in count (i + 1) head (update f i (some head)) j (omega arith) (omega arith)
]

-- randomHeight() stays in its bounds, whatever the generator gives.
one_in-some :
    (r : Random) (n : ℕ)
    → 0 < n
    → (hit : Bool) × (after : Random) × (one_in r n ≡ some (hit, after))
unfolding one_in
one_in-some r n pos = ((next r).0 % n == 0, (next r).1, ground arith)

abbrev HasHeight : Option (ℕ × Random) → (low high : ℕ) → Type 0
HasHeight result low high =
    (out : ℕ) × (after : Random) × (result ≡ some (out, after)) × (low ≤ out) × (out ≤ high)

height-round :
    (left height : ℕ) (r r' : Random) (hit : Bool)
    → one_in r 4 ≡ some (hit, r')
    → HasHeight (random_height_loop left (height + 1) r') (height + 1) (height + 1 + left)
    → HasHeight (random_height_loop (suc left) height r) height (height + suc left)
unfolding random_height_loop
height-round left height r r' true e (out, after, e', low, high) =
    (out, after, rw e e', omega arith, omega arith)
height-round left height r r' false e later = (height, r', rw e refl, omega arith, omega arith)

random_height_loop-bounds :
    (left height : ℕ) (r : Random)
    → HasHeight (random_height_loop left height r) height (height + left)
unfolding random_height_loop
random_height_loop-bounds zero height r = (height, r, refl, omega arith, omega arith)
random_height_loop-bounds (suc left) height r =
    let (hit, r', e) = one_in-some r 4 (omega arith) in
    height-round left height r r' hit e (random_height_loop-bounds left (height + 1) r')

pub random_height-bounds :
    (r : Random)
    → (out : ℕ) × (after : Random) × (random_height r ≡ some (out, after)) × (1 ≤ out) × (out ≤ 12)
unfolding random_height
random_height-bounds r =
    let (out, after, e, low, high) = random_height_loop-bounds 11 1 r in
    (out, after, rw e (ground arith), low, high)

module _ {K : Type 0} (s : SkipList K) (h : ℕ → ℕ) (x : ℕ) (ls rs : List ℕ)
    (new : IsNew s.head x ls rs) where
  -- The list with other pointers.
  abbrev pub with_nexts : (ℕ → ℕ → Option (Option ℕ)) → SkipList K
  with_nexts nexts = record s { nexts = nexts }

  abbrev pub predecessor : ℕ → ℕ
  predecessor i = last_or s.head (at_level h i ls)

  -- One round of the loop: the node is linked at one more level.
  link-IsLinkedTo :
      (nexts : ℕ → ℕ → Option (Option ℕ)) (m : ℕ) (prev : Prev)
      → m < 12
      → m < s.sizes x
      → m < s.sizes (predecessor m)
      → get_prev prev m ≡ some (predecessor m)
      → IsLinkedTo h s.head x ls rs new nexts m
      → (after : ℕ → ℕ → Option (Option ℕ)) × (link (with_nexts nexts) x m prev
          ≡ some (with_nexts after))
        × IsLinkedTo h s.head x ls rs new after (suc m)
  unfolding link set_next
  link-IsLinkedTo nexts m prev small room room' entry linked =
      let next = some (head_of (at_level h m rs)) in
      let own = update_cell nexts x m next in
      let read : nexts (predecessor m) m ≡ next =
        Chain-at_last nexts m s.head (at_level h m ls) (at_level h m rs) (
          subst (Chain nexts m s.head) (level-out h s.head x ls rs new m m (omega arith))
            (linked m small)) in
      (
        update_cell own (predecessor m) m (some (some x)),
        rw (entry, read) (ground arith),
        publish-IsLinkedTo h s.head x ls rs new own m small
            (own-IsLinkedTo h s.head x ls rs new nexts m next linked) (ground arith),
      )

  -- The whole loop.
  pub link_loop-IsLinkedTo :
      (count : ℕ) (nexts : ℕ → ℕ → Option (Option ℕ)) (m : ℕ) (prev : Prev)
      → m + count ≤ 12
      → m + count ≤ s.sizes x
      → ((i : ℕ)
          → i < m + count
          → (i < s.sizes (predecessor i)) × (get_prev prev i ≡ some (predecessor i)))
      → IsLinkedTo h s.head x ls rs new nexts m
      → (after : ℕ → ℕ → Option (Option ℕ)) × (link_loop count m (with_nexts nexts) x prev
          ≡ some (with_nexts after))
        × IsLinkedTo h s.head x ls rs new after (m + count)
  unfolding link_loop
  link_loop-IsLinkedTo zero nexts m prev small room entries linked =
      (nexts, refl, subst (IsLinkedTo h s.head x ls rs new nexts) (omega arith) linked)
  link_loop-IsLinkedTo (suc count) nexts m prev small room entries linked =
      let (tall, entry) = entries m (omega arith) in
      let (next, e, linked') =
        link-IsLinkedTo nexts m prev (omega arith) (omega arith) tall entry linked in
      let (after, e', linked'') =
        link_loop-IsLinkedTo count next (m + 1) prev (omega arith) (omega arith)
          (λ i lt. entries i (omega arith))
          (subst (IsLinkedTo h s.head x ls rs new next) (omega arith) linked') in
      (after, rw e e', subst (IsLinkedTo h s.head x ls rs new after) (omega arith) linked'')
