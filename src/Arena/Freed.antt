-- ===== src/Arena/Freed.antt =====
-- An arena from its construction to its destructor, beside other arrays on the heap.
use distributed_kvstorage.Common.{
  ℕ, ◌+◌, ◌-◌, ◌<◌, ◌≡◌, ◌≢◌, ◌⊎◌, inl, inr, sym, ap, subst, some, List, [], ◌∷◌, ◌++◌, append-nil,
  append_assoc, ◌∙◌, All, All-append, ◌==◌, if◌then◌else◌, arith, bit_and, leb, u64, Bool-cases,
  >>=-eq-some,
}
use mathlib.Core.Option.{some-injective}
use native.Mathlib.Decide.{dec_le, dec_lt}
use distributed_kvstorage.Arena.{
  Block, Arena, make_arena, align, block_size, allocate, allocate_aligned, allocate_fallback,
  allocate_new_block, bump, delete_array, destroy_loop, destroy,
}
use distributed_kvstorage.Arena.Regions.{
  Covered, Covered-left, IsAllocator, region, make_arena-IsGood,
}
use distributed_kvstorage.Arena.Requests.{
  Request, plain, aligned, IsLegal, wanted, serve, run, run-IsGood,
}

-- No array of `others` begins where the array does.
abbrev Elsewhere : List Block → Block → Type 0
Elsewhere others b = All (λ o. o.address ≢ b.address) others

delete_array-past :
    (others : List Block) (b : Block) (live : List Block)
    → Elsewhere others b
    → delete_array (others ++ (b ∷ live)) b.address ≡ some (others ++ live)
delete_array-past [] b live other = ground arith
delete_array-past (o ∷ others) b live other =
    ground (arith, other.0, delete_array-past others b live other.1)

destroy_loop-past :
    (others blocks : List Block)
    → All (Elsewhere others) blocks
    → destroy_loop blocks (others ++ blocks) ≡ some others
unfolding destroy_loop
destroy_loop-past others [] other = ap some (append-nil others)
destroy_loop-past others (b ∷ blocks) other =
    rw (delete_array-past others b blocks other.0) (destroy_loop-past others blocks other.1)

module _ (new_array : List Block → ℕ → ℕ) (memory : IsAllocator new_array) where
  fresh_address :
      (rest live : List Block) (n : ℕ)
      → All (λ o. 0 < o.bytes) rest
      → ((x : ℕ) → Covered rest x → Covered live x)
      → 0 < n
      → Elsewhere rest (region (new_array live n) n)
  fresh_address [] live n filled inside pos = tt
  fresh_address (o ∷ rest) live n filled inside pos = (
    λ e.
        memory.fresh live n o.address (omega (arith, e), omega (arith, e, pos))
          (inside o.address (inl (omega arith, omega (arith, filled.0)))),
    fresh_address rest live n filled.1 (λ x h. inside x (inr h)) pos,
  )

  -- A request leaves the heap and the arena's list alone, or adds one array from `new` to both.
  abbrev Grows : (a after : Arena) → Type 0
  Grows a after =
      ((after.blocks ≡ a.blocks) × (after.live ≡ a.live))
      ⊎ ((n : ℕ) × (0 < n)
          × (after.blocks ≡ a.blocks ++ (region (new_array a.live n) n ∷ []))
          × (after.live ≡ a.live ++ (region (new_array a.live n) n ∷ [])))

  allocate_fallback-Grows : (a : Arena) (n : ℕ) → Grows a (allocate_fallback new_array a n).1
  unfolding allocate_fallback allocate_new_block
  allocate_fallback-Grows a n = elim (dec_lt 1024 n) [
    | yes large ↦ inr (n, omega arith, ground arith, ground arith)
    | no small ↦ inr (block_size, omega arith, ground arith, ground arith)
  ]

  allocate-Grows :
      (a after : Arena) (n p : ℕ) → allocate new_array a n ≡ some (p, after) → Grows a after
  unfolding allocate bump
  allocate-Grows a after n p e = elim (dec_le n a.alloc_bytes_remaining) [
    | yes fits ↦ inl (ground (arith, e, fits), ground (arith, e, fits))
    | no more ↦
        let same : (allocate_fallback new_array a n).1 ≡ after = ground (arith, e, more) in
        subst (λ t. Grows a t) same (allocate_fallback-Grows a n)
  ]

  allocate_aligned-Grows :
      (a after : Arena) (n p : ℕ) → allocate_aligned new_array a n ≡ some (p, after) → Grows a after
  unfolding allocate_aligned bump
  allocate_aligned-Grows a after n p e =
      let current_mod = bit_and a.alloc_ptr (align - 1) in
      let slop = if current_mod == 0 then 0 else align - current_mod in
      elim (Bool-cases (leb (u64 (n + slop)) a.alloc_bytes_remaining)) [
        | inl fits ↦ inl (ground (arith, e, fits), ground (arith, e, fits))
        | inr more ↦
            let same : (allocate_fallback new_array a n).1 ≡ after = ground (arith, e, more) in
            subst (λ t. Grows a t) same (allocate_fallback-Grows a n)
      ]

  serve-Grows :
      (a after : Arena) (r : Request) (p : ℕ)
      → serve new_array a r ≡ some (p, after)
      → Grows a after
  serve-Grows a after (plain n) p e = allocate-Grows a after n p e
  serve-Grows a after (aligned n) p e = allocate_aligned-Grows a after n p e

  module _ (others : List Block) (filled : All (λ o. 0 < o.bytes) others) where
    -- The heap holds the others and what the arena lists, which lies elsewhere.
    abbrev IsKept : Arena → Type 0
    IsKept a = (a.live ≡ others ++ a.blocks) × All (Elsewhere others) a.blocks

    Grows-IsKept : (a after : Arena) → Grows a after → IsKept a → IsKept after
    Grows-IsKept a after (inl (same, heap)) (live, away) = (
      heap ∙ live ∙ ap (λ t. others ++ t) (sym same),
      subst (All (Elsewhere others)) (sym same) away,
    )
    Grows-IsKept a after (inr (n, pos, more, heap)) (live, away) =
        let new = region (new_array a.live n) n ∷ [] in
        (
          heap
              ∙ ap (λ t. t ++ new) live
              ∙ append_assoc others a.blocks new
              ∙ ap (λ t. others ++ t) (sym more),
          subst (All (Elsewhere others)) (sym more) (
              All-append (Elsewhere others) a.blocks new away (
                fresh_address others a.live n filled
                    (λ x h. subst (λ t. Covered t x) (sym live) (Covered-left others a.blocks x h))
                    pos,
                tt,
              )),
        )

    run-IsKept :
        (a after : Arena) (given out : List Block) (rs : List Request)
        → run new_array a given rs ≡ some (out, after)
        → IsKept a
        → IsKept after
    run-IsKept a after given out [] e kept =
        subst (λ t. IsKept t) (ap (λ t. t.1) (some-injective _ _ e)) kept
    run-IsKept a after given out (r ∷ rs) e kept =
        let ((p, next), served, later) = >>=-eq-some (serve new_array a r) _ e in
        run-IsKept next after (region p (wanted r) ∷ given) out rs later
          (Grows-IsKept a next (serve-Grows a next r p served) kept)

    -- With a sound allocator, and other arrays on the heap, none of them empty: a new arena serves
    -- every sequence of requests, plain ones for a byte at least and aligned ones for fewer than 2^64
    -- - 8. Its destructor then frees every array that `new` gave since the arena was made, each once,
    -- and exactly the other arrays are left on the heap.
    pub run-destroy :
        (rs : List Request)
        → All IsLegal rs
        → (out : List Block) × (after : Arena) × (run new_array (make_arena others) [] rs
            ≡ some (out, after))
          × (destroy after ≡ some others)
    unfolding destroy
    run-destroy rs legal =
        let (out, after, e, is) =
          run-IsGood new_array memory (make_arena others) [] rs (make_arena-IsGood others) legal in
        let (live, away) =
          run-IsKept (make_arena others) after [] out rs e (sym (append-nil others), tt) in
        (
          out,
          after,
          e,
          ap (destroy_loop after.blocks) live ∙ destroy_loop-past others after.blocks away,
        )
