-- ===== src/DbFormat/Filter.antt =====
-- The class InternalFilterPolicy over the user's filter policy. The interface FilterPolicy
-- (filter_policy.h) is not part of the repository, so it is a parameter.
use distributed_kvstorage.Common.{
  ℕ, ◌-◌, ◌≤◌, refl, arith, take, All, ◌≡◌, sym, ap, ◌∙◌, ◌≢◌, subst, Option-cases, >>=-eq-some,
  Bool, true, Option, none, some, List, [], ◌∷◌, ◌++◌, ◌>>=◌, inl, inr,
}
use distributed_kvstorage.Slice.{Slice, size}
use distributed_kvstorage.DbFormat.{extract_user_key}
use mathlib.Core.List.{Mem, Mem-prop, mem-cons, mem-cons_of_mem, not-mem-nil}
use mathlib.Core.Logic.Or
use mathlib.Core.HLevel.{¬_prop}
use mathlib.Core.Option.{some-injective}

-- The two virtual methods; `create_filter` appends to a string.
pub record FilterPolicy : Type 0 where
  pub create_filter : List Slice → List ℕ → List ℕ
  pub key_may_match : Slice → Slice → Bool

-- Its documented promise: every key that was passed in matches what was appended.
abbrev pub HasNoFalseNegatives : FilterPolicy → Type 0
HasNoFalseNegatives p =
    (keys : List Slice) (dst filter : List ℕ) (key : Slice)
    → p.create_filter keys dst ≡ dst ++ filter
    → Mem key keys
    → p.key_may_match key filter ≡ true

-- The other: it appends.
abbrev pub IsAppending : FilterPolicy → Type 0
IsAppending p =
    (keys : List Slice) (dst : List ℕ)
    → (filter : List ℕ) × (p.create_filter keys dst ≡ dst ++ filter)

abbrev IsLong : Slice → Type 0
IsLong key = 8 ≤ size key

-- The loop over the keys, which overwrites each in the caller's array.
extract_all : List Slice → Option (List Slice)
extract_all [] = some []
extract_all (k ∷ ks) = do u ← extract_user_key k; us ← extract_all ks; some (u ∷ us)

-- A loop that ends extracted the user key of every key, in order.
extract_all-cons :
    (k : Slice) (ks us : List Slice)
    → extract_all (k ∷ ks) ≡ some us
    → (v : Slice) × (vs : List Slice) × (extract_user_key k ≡ some v)
      × (extract_all ks ≡ some vs)
      × (us ≡ v ∷ vs)
unfolding extract_all
extract_all-cons k ks us e =
    let (v, ev, rest) = >>=-eq-some (extract_user_key k) _ e in
    let (vs, evs, last) = >>=-eq-some (extract_all ks) _ rest in
    (v, vs, ev, evs, sym (some-injective _ _ last))

extract_all-some :
    (keys : List Slice) → All IsLong keys → (us : List Slice) × (extract_all keys ≡ some us)
unfolding extract_all extract_user_key
extract_all-some [] long = ([], refl)
extract_all-some (k ∷ ks) long =
    let (us, e) = extract_all-some ks long.1 in
    (take (size k - 8) k ∷ us, ground (arith, e, long.0))

extract_all-ne-none :
    (keys us : List Slice) (key : Slice)
    → extract_all keys ≡ some us
    → Mem key keys
    → extract_user_key key ≢ none
extract_all-ne-none [] us key e m = absurd (not-mem-nil m)
extract_all-ne-none (k ∷ ks) us key e m =
    let (v, vs, ev, evs, _) = extract_all-cons k ks us e in
    Or.elim ¬_prop (mem-cons.0 m) (λ same. λ bad. cc (ap extract_user_key same))
      (extract_all-ne-none ks vs key evs)

extract_all-mem :
    (keys us : List Slice) (key u : Slice)
    → extract_all keys ≡ some us
    → Mem key keys
    → extract_user_key key ≡ some u
    → Mem u us
extract_all-mem [] us key u e m eu = absurd (not-mem-nil m)
extract_all-mem (k ∷ ks) us key u e m eu =
    let (v, vs, ev, evs, whole) = extract_all-cons k ks us e in
    subst (Mem u) (sym whole) (
      Or.elim Mem-prop (mem-cons.0 m)
        (λ same. mem-cons.1 (Or.inl (some-injective _ _ (sym eu ∙ ap extract_user_key same ∙ ev))))
        (λ later. mem-cons_of_mem v (extract_all-mem ks vs key u evs later eu)))

module _ (p : FilterPolicy) where
  -- The caller's array and the string after the call.
  unfoldable pub create_filter : List Slice → List ℕ → Option (List Slice × List ℕ)
  unfolding extract_all
  create_filter keys dst = do mkey ← extract_all keys; some (mkey, p.create_filter mkey dst)

  unfoldable pub key_may_match : Slice → Slice → Option Bool
  key_may_match key filter = do u ← extract_user_key key; some (p.key_may_match u filter)

  -- Where the call ran through.
  matched :
      HasNoFalseNegatives p
      → (keys users : List Slice) (dst filter : List ℕ) (key : Slice)
      → create_filter keys dst ≡ some (users, dst ++ filter)
      → Mem key keys
      → key_may_match key filter ≡ some true
  unfolding create_filter key_may_match
  matched sound keys users dst filter key e m =
      let (us, all, rest) = >>=-eq-some (extract_all keys) _ e in
      let appended : p.create_filter us dst ≡ dst ++ filter =
        ap (λ t. t.1) (some-injective _ _ rest) in
      elim (Option-cases (extract_user_key key)) [
        | inl bad ↦ absurd (extract_all-ne-none keys us key all m bad)
        | inr (u, eu) ↦
            rw eu
              (ap some (sound us dst filter u appended (extract_all-mem keys us key u all m eu)))
      ]

  -- With a user policy that appends and has no false negatives, CreateFilter fails no assertion on an
  -- array of keys of 8 bytes or more, and on each of them KeyMayMatch answers true for the filter
  -- that was appended.
  pub key_may_match-create_filter :
      IsAppending p
      → HasNoFalseNegatives p
      → (keys : List Slice) (dst : List ℕ) (key : Slice) → All IsLong keys
      → Mem key keys
      → (users : List Slice) × (filter : List ℕ) × (create_filter keys dst
          ≡ some (users, dst ++ filter))
        × (key_may_match key filter ≡ some true)
  unfolding create_filter
  key_may_match-create_filter appends sound keys dst key long m =
      let (us, e) = extract_all-some keys long in
      let (filter, appended) = appends us dst in
      let ran : create_filter keys dst ≡ some (us, dst ++ filter) =
        rw e (ap (λ t. some (us, t)) appended) in
      (us, filter, ran, matched sound keys us dst filter key ran m)
