-- ===== src/SkipList/Iterator/Positions.antt =====
-- Positions in the list of keys, and what is found there.
use distributed_kvstorage.Common.{
  ℕ, zero, suc, ◌+◌, ◌-◌, ◌≤◌, ◌<◌, ◌≡◌, refl, ap, ◌∙◌, subst, Ordering, Option, none, some, List,
  [], ◌∷◌, All, get_elem?, take, length, ltb, ◌==◌, if◌then◌else◌, ◌>>=◌, arith,
}
use distributed_kvstorage.Slice.{is_lt}
use mathlib.Core.Option.{some-injective}
use distributed_kvstorage.SkipList.{SkipList}
use distributed_kvstorage.SkipList.Order.{IsKeyOrder, IsAscending, lows, highs}
use distributed_kvstorage.SkipList.Chains.{head_of, last_or, Chain, Chain-first}
use distributed_kvstorage.SkipList.State.{keys_of}
use distributed_kvstorage.SkipList.Iterator.{
  Iterator, valid, key, next, seek_to_first, seek_to_last, prev, seek,
}

-- What a client calls on an iterator.
pub data Command (K : Type 0) : Type 0 where
  to_first to_last forward backward : Command K
  to_key : K → Command K

-- How many keys at the start are below a key.
abbrev pub count_below : {K : Type 0} → (K → K → Ordering) → K → List K → ℕ
count_below cmp k [] = 0
count_below cmp k (a ∷ rest) =
    let n = count_below cmp k rest in if is_lt (cmp a k) then n + 1 else 0

module _ {K : Type 0} (cmp : K → K → Ordering) where
  -- A position in a list of keys; the length of the list stands for no position.
  abbrev pub move : List K → Command K → ℕ → Option ℕ
  move ks to_first i = some 0
  move ks to_last i = some (length ks - 1)
  move ks (to_key k) i = some (count_below cmp k ks)
  move ks forward i = if ltb i (length ks) then some (i + 1) else none
  move ks backward i =
      if ltb i (length ks) then some (if i == 0 then length ks else i - 1) else none

  -- The keys under the position after each command, `none` for no position.
  abbrev pub observe_list : List K → List (Command K) → ℕ → Option (List (Option K))
  observe_list ks [] i = some []
  observe_list ks (c ∷ cs) i = do
    i ← move ks c i
    rest ← observe_list ks cs i
    some (get_elem? ks i ∷ rest)

  unfoldable pub perform : (fuel : ℕ) → SkipList K → Command K → Iterator → Option Iterator
  perform fuel s to_first it = seek_to_first s
  perform fuel s to_last it = seek_to_last fuel s
  perform fuel s (to_key k) it = seek cmp fuel s k
  perform fuel s forward it = next s it
  perform fuel s backward it = prev cmp fuel s it

  abbrev pub current : SkipList K → Iterator → Option K
  current s it = if valid it then key s it else none

  abbrev pub observe :
      (fuel : ℕ) → SkipList K → List (Command K) → Iterator → Option (List (Option K))
  observe fuel s [] it = some []
  observe fuel s (c ∷ cs) it = do
    it ← perform fuel s c it
    rest ← observe fuel s cs it
    some (current s it ∷ rest)

pub get_elem?-beyond : {A : Type 0} (xs : List A) (i : ℕ) → length xs ≤ i → get_elem? xs i ≡ none
get_elem?-beyond [] i le = ground arith
get_elem?-beyond (x ∷ xs) zero le = absurd (omega arith)
get_elem?-beyond (x ∷ xs) (suc i) le = get_elem?-beyond xs i (omega arith)

pub get_elem?-within :
    {A : Type 0} (xs : List A) (i : ℕ) → i < length xs → (x : A) × (get_elem? xs i ≡ some x)
get_elem?-within [] i lt = absurd (omega arith)
get_elem?-within (x ∷ xs) zero lt = (x, refl)
get_elem?-within (x ∷ xs) (suc i) lt = get_elem?-within xs i (omega arith)

pub All-get_elem? :
    (P : ℕ → Type 0) (ns : List ℕ) (i n : ℕ) → All P ns → get_elem? ns i ≡ some n → P n
All-get_elem? P [] i n all e = absurd (none-ne-some i e)
  where
    none-ne-some : (i : ℕ) → get_elem? [] i ≡ some n → ⊥
    none-ne-some zero e = cc
    none-ne-some (suc i) e = cc
All-get_elem? P (m ∷ ns) zero n all e = subst P (some-injective _ _ e) all.0
All-get_elem? P (m ∷ ns) (suc i) n all e = All-get_elem? P ns i n all.1 e

pub head_of-get_elem? : (ns : List ℕ) → head_of ns ≡ get_elem? ns 0
head_of-get_elem? [] = refl
head_of-get_elem? (n ∷ ns) = refl

pub Chain-get_elem? :
    (nexts : ℕ → ℕ → Option (Option ℕ)) (x : ℕ) (ns : List ℕ) (i n : ℕ)
    → Chain nexts 0 x ns
    → get_elem? ns i ≡ some n
    → nexts n 0 ≡ some (get_elem? ns (suc i))
Chain-get_elem? nexts x [] zero n c e = cc
Chain-get_elem? nexts x [] (suc i) n c e = cc
Chain-get_elem? nexts x (m ∷ ns) zero n c e =
    subst (λ t. nexts t 0 ≡ some (get_elem? ns 0)) (some-injective _ _ e)
      (Chain-first nexts 0 m ns c.1 ∙ ap some (head_of-get_elem? ns))
Chain-get_elem? nexts x (m ∷ ns) (suc i) n c e = Chain-get_elem? nexts m ns i n c.1 e

pub last_or-take :
    (x : ℕ) (ns : List ℕ) (i n : ℕ) → get_elem? ns i ≡ some n → last_or x (take (suc i) ns) ≡ n
last_or-take x [] zero n e = cc
last_or-take x [] (suc i) n e = cc
last_or-take x (m ∷ ns) zero n e = cc
last_or-take x (m ∷ ns) (suc i) n e = last_or-take m ns i n e

pub get_elem?-keys_of :
    {K : Type 0} (keys : ℕ → K) (ns : List ℕ) (i : ℕ)
    → get_elem? (keys_of keys ns) i
      ≡ (elim (get_elem? ns i) [ none ↦ none | some n ↦ some (keys n) ])
get_elem?-keys_of keys [] zero = refl
get_elem?-keys_of keys [] (suc i) = refl
get_elem?-keys_of keys (n ∷ ns) zero = refl
get_elem?-keys_of keys (n ∷ ns) (suc i) = get_elem?-keys_of keys ns i

module _ {K : Type 0} (cmp : K → K → Ordering) (keys : ℕ → K) where
  pub highs-count_below :
      (k : K) (ns : List ℕ)
      → head_of (highs cmp keys k ns) ≡ get_elem? ns (count_below cmp k (keys_of keys ns))
  highs-count_below k [] = refl
  highs-count_below k (n ∷ ns) = ground (arith, highs-count_below k ns)

  pub lows-take :
      IsKeyOrder cmp
      → (ns : List ℕ) (i n : ℕ) → IsAscending cmp keys ns
      → get_elem? ns i ≡ some n
      → lows cmp keys (keys n) ns ≡ take i ns
  lows-take laws [] zero n up e = refl
  lows-take laws [] (suc i) n up e = refl
  lows-take laws (m ∷ ns) zero n up e =
      ground (arith, laws.reflexive (keys n), some-injective _ _ e)
  lows-take laws (m ∷ ns) (suc i) n up e = ground (
    arith,
    lows-take laws ns i n up.1 e,
    All-get_elem? (λ n. cmp (keys m) (keys n) ≡ Ordering.lt) ns i n up.0 e,
  )
