-- ===== src/SkipList/State.antt =====
-- When the memory of a skip list holds an ascending list of nodes.
use distributed_kvstorage.Common.{
  ℕ, ◌≤◌, ◌<◌, ◌≡◌, ◌≢◌, Ordering, Option, none, some, List, [], ◌∷◌, All, Bool, false, ◌||◌,
  if◌then◌else◌,
}
use distributed_kvstorage.Slice.{is_eq, is_lt}
use distributed_kvstorage.Arena.{Block}
use distributed_kvstorage.Arena.Regions.{Covered}
use distributed_kvstorage.Arena.Regions
use distributed_kvstorage.SkipList.{SkipList, max_level_count}
use distributed_kvstorage.SkipList.Chains.{IsLinked}
use distributed_kvstorage.SkipList.Order.{IsAscending}

abbrev pub IsDistinct : List ℕ → Type 0
IsDistinct [] = Unit {0}
IsDistinct (n ∷ ns) = All (λ m. n ≢ m) ns × IsDistinct ns

-- The list holds `nodes`, each linked at its lowest `h` levels, in memory that the arena gave.
pub record IsSkipList {K : Type 0} (cmp : K → K → Ordering) (s : SkipList K) (given : List Block)
    (h : ℕ → ℕ) (nodes : List ℕ) : Type 0 where
  pub arena : Regions.IsGood s.arena given
  pub linked : IsLinked s.nexts h max_level_count s.head nodes
  pub ascending : IsAscending cmp s.keys nodes
  pub some_level : 1 ≤ s.max_height
  pub few_levels : s.max_height ≤ max_level_count
  pub head_size : s.sizes s.head ≡ max_level_count
  pub heights : All (λ n. (0 < h n) × (h n ≤ s.max_height) × (h n ≤ s.sizes n)) nodes
  pub distinct : IsDistinct (s.head ∷ nodes)
  pub owned : All (Covered given) (s.head ∷ nodes)

-- The keys that a list holds, in its order: what a client sees of it.
abbrev pub keys_of {ℓ} : {K : Type ℓ} → (ℕ → K) → List ℕ → List K
keys_of keys [] = []
keys_of keys (n ∷ ns) = keys n ∷ keys_of keys ns

module _ {K : Type 0} (cmp : K → K → Ordering) where
  -- The abstract list: a key goes before the first that is not below it.
  abbrev pub insert_key : K → List K → List K
  insert_key k [] = k ∷ []
  insert_key k (a ∷ as') =
      let rest = insert_key k as' in if is_lt (cmp a k) then a ∷ rest else k ∷ a ∷ as'

  abbrev pub is_member : K → List K → Bool
  is_member k [] = false
  is_member k (a ∷ as') = is_eq (cmp k a) || is_member k as'

  -- The abstract search: the first key that is not below.
  abbrev pub key_from : K → List K → Option K
  key_from k [] = none
  key_from k (a ∷ as') = let rest = key_from k as' in if is_lt (cmp a k) then rest else some a

  -- Keys that ascend, no two of them equal.
  abbrev pub IsSorted : List K → Type 0
  IsSorted [] = Unit {0}
  IsSorted (a ∷ as') = All (λ b. cmp a b ≡ Ordering.lt) as' × IsSorted as'
