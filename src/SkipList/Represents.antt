-- ===== src/SkipList/Represents.antt =====
-- `insert` as the client sees it: a skip list stands for an ascending list of keys.
use distributed_kvstorage.Common.{
  ℕ, ◌≤◌, ◌<◌, ◌≡◌, ◌≢◌, refl, sym, subst, Ordering, Bool, true, false, not, Option, none, some,
  List, [], ◌∷◌, ◌++◌, All, All-part, All-append, arith,
}
use distributed_kvstorage.Arena.{Block}
use distributed_kvstorage.Arena.Regions.{Covered}
use distributed_kvstorage.SkipList.{SkipList, update}
use distributed_kvstorage.SkipList.Order.{placed}
use distributed_kvstorage.SkipList.Chains.{at_level}
use distributed_kvstorage.SkipList.State.{IsSkipList, IsDistinct, keys_of, insert_key}

-- A skip list holds these keys, in this order.
pub record Represents {K : Type 0} (cmp : K → K → Ordering) (s : SkipList K) (ks : List K)
    : Type 0 where
  pub given : List Block
  pub levels : ℕ → ℕ
  pub nodes : List ℕ
  pub is : IsSkipList cmp s given levels nodes
  pub same : keys_of s.keys nodes ≡ ks

-- A new address is none of the old ones.
pub fresh-nodes :
    (given : List Block) (x : ℕ) (ns : List ℕ)
    → ¬ (Covered given x)
    → All (Covered given) ns
    → All (λ n. x ≢ n) ns
fresh-nodes given x [] new owned = tt
fresh-nodes given x (n ∷ ns) new owned =
    (λ e. new (subst (Covered given) (sym e) owned.0), fresh-nodes given x ns new owned.1)

pub IsDistinct-insert :
    (ls : List ℕ) (x : ℕ) (rs : List ℕ)
    → IsDistinct (ls ++ rs)
    → All (λ n. x ≢ n) (ls ++ rs)
    → IsDistinct (ls ++ (x ∷ rs))
IsDistinct-insert [] x rs d off = (off, d)
IsDistinct-insert (n ∷ ls) x rs d off =
    let (l, r) = All-part (λ m. n ≢ m) ls rs d.0 in
    (
      All-append (λ m. n ≢ m) ls (x ∷ rs) l ((λ e. off.0 (sym e)), r),
      IsDistinct-insert ls x rs d.1 off.1,
    )

-- Functions that are updated at a new address read the same at the old ones.
pub update-same :
    {A : Type 0} (f : ℕ → A) (x : ℕ) (v : A) (ns : List ℕ)
    → All (λ n. x ≢ n) ns
    → All (λ n. update f x v n ≡ f n) ns
update-same f x v [] off = tt
update-same f x v (n ∷ ns) off = (ground (arith, off.0), update-same f x v ns off.1)

pub keys_of-same :
    {K : Type 0} (cmp : K → K → Ordering) (keys : ℕ → K) (x : ℕ) (key : K) (ns : List ℕ)
    → All (λ n. x ≢ n) ns
    → keys_of (update keys x key) ns ≡ keys_of keys ns
keys_of-same cmp keys x key [] off = refl
keys_of-same cmp keys x key (n ∷ ns) off =
    ground (arith, off.0, keys_of-same cmp keys x key ns off.1)

pub keys_of-placed :
    {K : Type 0} (cmp : K → K → Ordering) (keys : ℕ → K) (x : ℕ) (key : K) (ns : List ℕ)
    → All (λ n. x ≢ n) ns
    → keys_of (update keys x key) (placed cmp keys key x ns) ≡ insert_key cmp key (keys_of keys ns)
keys_of-placed cmp keys x key [] off = ground arith
keys_of-placed cmp keys x key (n ∷ ns) off =
    ground
      (arith, off.0, keys_of-placed cmp keys x key ns off.1, keys_of-same cmp keys x key ns off.1)

-- The nodes of a level are taller than it.
pub tall-level :
    (h sizes : ℕ → ℕ) (i : ℕ) (ns : List ℕ)
    → All (λ n. h n ≤ sizes n) ns
    → All (λ n. i < sizes n) (at_level h i ns)
tall-level h sizes i [] all = tt
tall-level h sizes i (n ∷ ns) all = ground (arith, all.0, tall-level h sizes i ns all.1)

pub All-map : {P Q : ℕ → Type 0} (ns : List ℕ) → ((n : ℕ) → P n → Q n) → All P ns → All Q ns
All-map [] f all = tt
All-map (n ∷ ns) f all = (f n all.0, All-map ns f all.1)

-- The assertion of an insertion.
pub not-found :
    (o : Option ℕ) (f : ℕ → Bool)
    → ◌≡◌ {A = Bool}
        (elim o [ none ↦ true | some n ↦ not (f n) ])
        (not (elim o [ none ↦ false | some n ↦ f n ]))
not-found none f = refl
not-found (some n) f = refl
