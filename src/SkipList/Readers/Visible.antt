-- ===== src/SkipList/Readers/Visible.antt =====
-- What a client sees of a list while a node is being linked.
use distributed_kvstorage.Common.{
  ℕ, suc, ◌<◌, ◌≡◌, refl, sym, ◌∙◌, Ordering, Option, some, none, List, [], ◌∷◌, ◌++◌, All,
  All-part, ap₂, arith, ◌⊎◌,
}
use distributed_kvstorage.SkipList.{Prev, Round, done, update}
use distributed_kvstorage.SkipList.Chains.{at_level, at_level-append, at_level-zero, head_of}
use distributed_kvstorage.SkipList.Order.{highs}
use distributed_kvstorage.SkipList.Link.{IsNew, level-in, level-out}
use distributed_kvstorage.SkipList.State.{key_from, keys_of, insert_key}
use distributed_kvstorage.SkipList.Readers.{Shared, Scan, walk}
use distributed_kvstorage.SkipList.Iterator.{Iterator}

-- The key of what a search returns.
abbrev pub key_at : {K : Type 0} → (ℕ → K) → Option ℕ → Option K
key_at keys none = none
key_at keys (some n) = some (keys n)

pub key_at-highs :
    {K : Type 0} (cmp : K → K → Ordering) (keys : ℕ → K) (k : K) (ns : List ℕ)
    → key_at keys (head_of (highs cmp keys k ns)) ≡ key_from cmp k (keys_of keys ns)
key_at-highs cmp keys k [] = refl
key_at-highs cmp keys k (n ∷ ns) = ground (arith, key_at-highs cmp keys k ns)

module _ (h : ℕ → ℕ) (head x : ℕ) (ls rs : List ℕ) (new : IsNew head x ls rs)
    (pos : All (λ n. 0 < h n) (ls ++ rs)) where
  -- Level 0 holds the node as soon as one of its levels is linked.
  pub visible-before : at_level (update h x 0) 0 (ls ++ (x ∷ rs)) ≡ ls ++ rs
  visible-before =
      level-out h head x ls rs new 0 0 (omega arith)
      ∙ sym (at_level-append h 0 ls rs)
      ∙ at_level-zero h (ls ++ rs) pos

  pub visible-after : (j : ℕ) → at_level (update h x (suc j)) 0 (ls ++ (x ∷ rs)) ≡ ls ++ (x ∷ rs)
  visible-after j =
      let (left, right) = All-part (λ n. 0 < h n) ls rs pos in
      level-in h head x ls rs new (suc j) 0 (omega arith)
      ∙ ap₂ (λ l r. l ++ (x ∷ r)) (at_level-zero h ls left) (at_level-zero h rs right)

-- The search has returned, and found the first key from its target on, of the keys before the
-- insertion of `key` or of those after it.
abbrev pub IsReturned :
    {K : Type 0}
    → (K → K → Ordering)
    → List K
    → (key target : K) → Option (Shared K (Round (Option ℕ × Prev)))
    → Type 0
IsReturned cmp ks key target result =
    (after : Shared _ _) × (found : Option ℕ) × (prev : Prev) × (result ≡ some after)
    × (after.reader ≡ done (found, prev))
    × ((key_at after.list.keys found ≡ key_from cmp target ks)
        ⊎ (key_at after.list.keys found ≡ key_from cmp target (insert_key cmp key ks)))

-- The scan has come to the end, and saw the keys before the insertion of `key` or those after it.
abbrev pub IsScanned :
    {K : Type 0} → (K → K → Ordering) → List K → K → Option (Shared K (Scan K)) → Type 0
IsScanned cmp ks key result =
    (after : Shared _ _) × (it : Iterator) × (seen : List _) × (result ≡ some after)
    × (after.reader ≡ walk it seen)
    × (it.node ≡ none)
    × ((seen ≡ ks) ⊎ (seen ≡ insert_key cmp key ks))
