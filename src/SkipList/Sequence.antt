-- ===== src/SkipList/Sequence.antt =====
-- Keys inserted one after the other, and the list read from its first node to its last.
use distributed_kvstorage.Common.{
  ℕ, zero, suc, ◌+◌, ◌^◌, ◌≤◌, ◌<◌, ◌≡◌, refl, ap, ◌∙◌, subst, Ordering, true, false, Option, none,
  some, List, [], ◌∷◌, ◌++◌, append-nil, All, length, ◌>>=◌, ◌||◌, Bool-cases, inl, inr, arith,
}
use mathlib.Core.List.Perm
use mathlib.Core.List.{Perm, perm_middle}
use distributed_kvstorage.Slice.{is_eq, is_lt}
use distributed_kvstorage.Arena.{Block}
use distributed_kvstorage.Arena.Regions.{IsAllocator}
use distributed_kvstorage.SkipList.{SkipList, insert}
use distributed_kvstorage.SkipList.Order.{IsKeyOrder}
use distributed_kvstorage.SkipList.Chains.{Chain, Chain-first, at_level-zero, head_of}
use distributed_kvstorage.SkipList.State.{keys_of, insert_key, is_member, IsSorted}
use distributed_kvstorage.SkipList.Represents.{Represents, All-map}
use distributed_kvstorage.SkipList.Sorted.{Represents-IsSorted}
use distributed_kvstorage.SkipList.Laws.{insert-insert_key}
use distributed_kvstorage.SkipList.Insertion.{length-keys_of}
use distributed_kvstorage.SkipList.Iterator.{Iterator, valid, key, next, seek_to_first}

-- for (it.seekToFirst(); it.valid(); it.next()) with the keys on the way.
module _ {K : Type 0} where
  scan_from : (fuel : ℕ) → SkipList K → Iterator → Option (List K)
  scan_from zero s it = none
  scan_from (suc fuel) s it = elim (valid it) [
    | true ↦ (do k ← key s it; it ← next s it; rest ← scan_from fuel s it; some (k ∷ rest))
    | false ↦ some []
  ]

  pub scan : (fuel : ℕ) → SkipList K → Option (List K)
  scan fuel s = do it ← seek_to_first s; scan_from fuel s it

  scan_from-keys_of :
      (fuel : ℕ) (s : SkipList K) (ns : List ℕ) (x : ℕ)
      → Chain s.nexts 0 x ns
      → length ns < fuel
      → scan_from fuel s (record { node = head_of ns }) ≡ some (keys_of s.keys ns)
  unfolding scan_from valid key next
  scan_from-keys_of zero s ns x c enough = absurd (omega arith)
  scan_from-keys_of (suc fuel) s [] x c enough = refl
  scan_from-keys_of (suc fuel) s (n ∷ ns) x c enough =
      rw (Chain-first s.nexts 0 n ns c.1, scan_from-keys_of fuel s ns n c.1 (omega arith)) refl

  -- The scan gives the keys that the list holds.
  scan-Represents :
      (cmp : K → K → Ordering) (fuel : ℕ) (s : SkipList K) (ks : List K)
      → Represents cmp s ks
      → length ks < fuel
      → scan fuel s ≡ some ks
  unfolding scan seek_to_first
  scan-Represents cmp fuel s ks r enough =
      let linked : Chain s.nexts 0 s.head r.nodes =
        subst (Chain s.nexts 0 s.head)
          (at_level-zero r.levels r.nodes (All-map r.nodes (λ n t. t.0) r.is.heights))
          (r.is.linked 0 (omega arith)) in
      rw (Chain-first s.nexts 0 s.head r.nodes linked) (
        scan_from-keys_of fuel s r.nodes s.head linked
          (omega (arith, length-keys_of s.keys r.nodes, ap length r.same))
        ∙ ap some r.same)

module _ {K : Type 0} (cmp : K → K → Ordering) where
  -- No two of the keys compare equal.
  abbrev AreDifferent : List K → Type 0
  AreDifferent [] = Unit {0}
  AreDifferent (k ∷ ks) = All (λ a. is_eq (cmp a k) ≡ false) ks × AreDifferent ks

  insert_key-perm : (k : K) (ks : List K) → Perm (insert_key cmp k ks) (k ∷ ks)
  insert_key-perm k [] = Perm.refl (k ∷ [])
  insert_key-perm k (a ∷ ks) = elim (Bool-cases (is_lt (cmp a k))) [
    | inl low ↦ rw low (Perm.trans (Perm.cons a (insert_key-perm k ks)) (Perm.swap k a ks))
    | inr high ↦ rw high (Perm.refl (k ∷ a ∷ ks))
  ]

  is_member-insert_key :
      (a k : K) (ks : List K)
      → is_member cmp a (insert_key cmp k ks) ≡ (is_eq (cmp a k) || is_member cmp a ks)
  is_member-insert_key a k [] = refl
  is_member-insert_key a k (b ∷ ks) = ground (arith, is_member-insert_key a k ks)

  length-insert_key : (k : K) (ks : List K) → length (insert_key cmp k ks) ≡ suc (length ks)
  length-insert_key k [] = refl
  length-insert_key k (a ∷ ks) = ground (arith, length-insert_key k ks)

  -- A key that differs from those inserted before is new.
  still_new :
      (k : K) (keys ks : List K)
      → All (λ a. is_eq (cmp a k) ≡ false) keys
      → All (λ a. is_member cmp a ks ≡ false) keys
      → All (λ a. is_member cmp a (insert_key cmp k ks) ≡ false) keys
  still_new k [] ks apart new = tt
  still_new k (a ∷ keys) ks apart new =
      (rw (is_member-insert_key a k ks, apart.0) new.0, still_new k keys ks apart.1 new.1)

  all_new : (keys : List K) → All (λ a. is_member cmp a [] ≡ false) keys
  all_new [] = tt
  all_new (a ∷ keys) = (refl, all_new keys)

module _ {K : Type 0} (new_array : List Block → ℕ → ℕ) (node_size : ℕ)
    (cmp : K → K → Ordering) where
  pub insert_all : (fuel : ℕ) → SkipList K → List K → Option (SkipList K)
  insert_all fuel s [] = some s
  insert_all fuel s (k ∷ keys) = do
    s ← insert new_array node_size cmp fuel s k
    insert_all fuel s keys

module _ {K : Type 0} (new_array : List Block → ℕ → ℕ) (memory : IsAllocator new_array)
    (node_size : ℕ) (sized : 0 < node_size) (fits : node_size + 104 < 2 ^ 64)
    (cmp : K → K → Ordering) (laws : IsKeyOrder cmp) where
  insert_all-Represents :
      (fuel : ℕ) (keys : List K) (s : SkipList K) (ks : List K)
      → Represents cmp s ks
      → AreDifferent cmp keys
      → All (λ a. is_member cmp a ks ≡ false) keys
      → length keys + length ks + 12 ≤ fuel
      → (after : SkipList K) × (sorted : List K) × (insert_all new_array node_size cmp fuel s keys
          ≡ some after)
        × Represents cmp after sorted
        × Perm sorted (keys ++ ks)
        × (length sorted ≡ length keys + length ks)
  unfolding insert_all
  insert_all-Represents fuel [] s ks r apart new enough =
      (s, ks, refl, r, Perm.refl ks, omega arith)
  insert_all-Represents fuel (k ∷ keys) s ks r apart new enough =
      let (s', e, r') =
        insert-insert_key new_array memory node_size sized fits cmp laws fuel s ks k r (omega arith)
          new.0 in
      let (after, sorted, e', r'', perm, size) =
        insert_all-Represents fuel keys s' (insert_key cmp k ks) r' apart.1
          (still_new cmp k keys ks apart.0 new.1) (omega (arith, length-insert_key cmp k ks)) in
      (
        after,
        sorted,
        rw e e',
        r'',
        Perm.trans perm
            (Perm.trans (Perm.append_left keys (insert_key-perm cmp k ks)) (perm_middle keys ks)),
        omega (arith, size, length-insert_key cmp k ks),
      )

  -- On a sound allocator and a total preorder of keys, and with fuel for all keys and 12 levels: keys
  -- of which no two compare equal are inserted into an empty list in any order, and no assertion
  -- fails. The scan from the first node to the last then gives these keys, each as often, in
  -- ascending order.
  pub scan-insert_all :
      (fuel : ℕ) (s : SkipList K) (keys : List K)
      → Represents cmp s []
      → AreDifferent cmp keys
      → length keys + 12 ≤ fuel
      → (after : SkipList K) × (sorted : List K) × (insert_all new_array node_size cmp fuel s keys
          ≡ some after)
        × (scan fuel after ≡ some sorted)
        × IsSorted cmp sorted
        × Perm sorted keys
  scan-insert_all fuel s keys r apart enough =
      let (after, sorted, e, r', perm, size) =
        insert_all-Represents fuel keys s [] r apart (all_new cmp keys) (omega arith) in
      let perm : Perm sorted keys = rw append-nil at perm in
      (
        after,
        sorted,
        e,
        scan-Represents cmp fuel after sorted r' (omega (arith, size)),
        Represents-IsSorted cmp after sorted r',
        perm,
      )
