-- ===== src/Arena/Requests.antt =====
-- An arena from its construction on, under any sequence of requests.
use distributed_kvstorage.Common.{
  ℕ, ◌+◌, ◌<◌, ◌^◌, ◌≡◌, refl, Option, some, List, [], ◌∷◌, ◌>>=◌, All, u64,
}
use distributed_kvstorage.Arena.{Block, Arena, make_arena, allocate, allocate_aligned, memory_usage}
use distributed_kvstorage.Arena.Laws.{allocate-IsGood, allocate_aligned-IsGood}
use distributed_kvstorage.Arena.Regions.{
  Covered, IsAllocator, Apart, total, region, IsGood, make_arena-IsGood,
}

pub data Request : Type 0 where
  plain aligned : ℕ → Request

abbrev pub wanted : Request → ℕ
wanted (plain n) = n
wanted (aligned n) = n

-- What the caller must keep to.
abbrev pub IsLegal : Request → Type 0
IsLegal (plain n) = 0 < n
IsLegal (aligned n) = n + 8 < 2 ^ 64

module _ (new_array : List Block → ℕ → ℕ) where
  abbrev pub serve : Arena → Request → Option (ℕ × Arena)
  serve a (plain n) = allocate new_array a n
  serve a (aligned n) = allocate_aligned new_array a n

  -- The regions given out, the newest first, and the arena after.
  abbrev pub run : Arena → (given : List Block) → List Request → Option (List Block × Arena)
  run a given [] = some (given, a)
  run a given (r ∷ rs) = do (p, a) ← serve a r; run a (region p (wanted r) ∷ given) rs

  module _ (memory : IsAllocator new_array) where
    serve-IsGood :
        (a : Arena) (given : List Block) (r : Request)
        → IsGood a given
        → IsLegal r
        → (p : ℕ) × (after : Arena) × (serve a r ≡ some (p, after))
          × IsGood after (region p (wanted r) ∷ given)
    serve-IsGood a given (plain n) good legal =
        allocate-IsGood new_array memory a given n good legal
    serve-IsGood a given (aligned n) good legal =
        let (p, after, e, is, _) = allocate_aligned-IsGood new_array memory a given n good legal in
        (p, after, e, is)

    pub run-IsGood :
        (a : Arena) (given : List Block) (rs : List Request)
        → IsGood a given
        → All IsLegal rs
        → (out : List Block) × (after : Arena) × (run a given rs ≡ some (out, after))
          × IsGood after out
    run-IsGood a given [] good legal = (given, a, refl, good)
    run-IsGood a given (r ∷ rs) good legal =
        let (p, next, e, is) = serve-IsGood a given r good legal.0 in
        let (out, after, e', is') = run-IsGood next (region p (wanted r) ∷ given) rs is legal.1 in
        (out, after, rw e e', is')

    -- With a sound allocator, on any heap a new arena serves every sequence of requests, plain ones
    -- for a byte at least and aligned ones for fewer than 2^64 - 8, without a failed assertion. No
    -- two of the regions given out overlap, all lie in the blocks that the destructor frees, and
    -- `memoryUsage` is the size of those blocks and their pointers, as a size_t.
    pub run-Apart :
        (live : List Block) (rs : List Request)
        → All IsLegal rs
        → (out : List Block) × (after : Arena) × (run (make_arena live) [] rs ≡ some (out, after))
          × Apart out
          × ((x : ℕ) → Covered out x → Covered after.blocks x)
          × (memory_usage after ≡ u64 (total after.blocks))
    unfolding memory_usage
    run-Apart live rs legal =
        let (out, after, e, is) =
          run-IsGood (make_arena live) [] rs (make_arena-IsGood live) legal in
        (out, after, e, is.apart, is.given_live, is.usage)
