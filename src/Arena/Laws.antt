-- ===== src/Arena/Laws.antt =====
-- What `allocate` and `allocateAligned` keep: the regions given out never overlap.
use distributed_kvstorage.Common.{
  ℕ, ◌+◌, ◌-◌, ◌<◌, ◌≤◌, ◌%◌, ◌≡◌, inl, inr, some, List, [], ◌∷◌, ◌++◌, bit_and, ◌==◌,
  if◌then◌else◌, u64, arith, refl, ◌^◌,
}
use distributed_kvstorage.Common.Bits.{and_mask}
use native.Mathlib.Decide.{dec_lt, dec_le}
use distributed_kvstorage.Arena.{
  Block, Arena, block_size, align, allocate_new_block, bump, allocate_fallback, allocate,
  allocate_aligned,
}
use distributed_kvstorage.Arena.Regions.{
  IsAllocator, IsGood, Covered-left, Covered-last, Covered-grow, total-last, region,
}

-- Cutting `size` bytes off the part that is left, and giving out the last `n` of them.
bump-IsGood :
    (a : Arena) (given : List Block) (p n size : ℕ)
    → IsGood a given
    → a.alloc_ptr ≤ p
    → p + n ≡ a.alloc_ptr + size
    → size ≤ a.alloc_bytes_remaining
    → IsGood (bump a (a.alloc_ptr + size) size) (region p n ∷ given)
unfolding bump
bump-IsGood a given p n size good above ends fits = record {
  free_live = λ x h. good.free_live x (omega arith, omega arith);
  given_live = λ x h. elim h [
    | inl new ↦ good.free_live x (omega arith, omega arith)
    | inr old ↦ good.given_live x old
  ];
  unused = λ x h k. elim k [
    | inl new ↦ omega arith
    | inr old ↦ good.unused x (omega arith, omega arith) old
  ];
  apart = (λ x h k. good.unused x (omega arith, omega arith) k, good.apart);
  usage = good.usage;
  on_heap = good.on_heap;
}

module _ (new_array : List Block → ℕ → ℕ) (memory : IsAllocator new_array) where
  new_block-IsGood :
      (a : Arena) (given : List Block) (n : ℕ)
      → IsGood a given
      → IsGood
          (allocate_new_block new_array a n).1
          (region (allocate_new_block new_array a n).0 n ∷ given)
  unfolding allocate_new_block
  new_block-IsGood a given n good =
      let new = region (new_array a.live n) n in
      record {
        free_live = λ x h. Covered-left a.blocks (new ∷ []) x (good.free_live x h);
        given_live = λ x h. elim h [
          | inl here ↦ Covered-last a.blocks new x here
          | inr old ↦ Covered-left a.blocks (new ∷ []) x (good.given_live x old)
        ];
        unused = λ x h k. elim k [
          | inl here ↦ memory.fresh a.live n x here (good.on_heap x (good.free_live x h))
          | inr old ↦ good.unused x h old
        ];
        apart =
            (λ x h k. memory.fresh a.live n x h (good.on_heap x (good.given_live x k)), good.apart);
        usage = omega (arith, good.usage, total-last a.blocks new);
        on_heap = Covered-grow a.blocks a.live new good.on_heap;
      }

  -- A fresh block of which the first `n` bytes are given out.
  block_start-IsGood :
      (a : Arena) (given : List Block) (n : ℕ)
      → IsGood a given
      → n ≤ block_size
      → IsGood
          (record {
            alloc_ptr = new_array a.live block_size + n;
            alloc_bytes_remaining = block_size - n;
            blocks = a.blocks ++ (region (new_array a.live block_size) block_size ∷ []);
            memory_usage = u64 (a.memory_usage + (block_size + 8));
            live = a.live ++ (region (new_array a.live block_size) block_size ∷ []);
          })
          (region (new_array a.live block_size) n ∷ given)
  block_start-IsGood a given n good small =
      let new = region (new_array a.live block_size) block_size in
      record {
        free_live = λ x h. Covered-last a.blocks new x (omega arith, omega arith);
        given_live = λ x h. elim h [
          | inl here ↦ Covered-last a.blocks new x (omega arith, omega arith)
          | inr old ↦ Covered-left a.blocks (new ∷ []) x (good.given_live x old)
        ];
        unused = λ x h k. elim k [
          | inl here ↦ omega arith
          | inr old ↦
              memory.fresh a.live block_size x (omega arith, omega arith)
                (good.on_heap x (good.given_live x old))
        ];
        apart = (
          λ x h k.
              memory.fresh a.live block_size x (omega arith, omega arith)
                (good.on_heap x (good.given_live x k)),
          good.apart,
        );
        usage = omega (arith, good.usage, total-last a.blocks new);
        on_heap = Covered-grow a.blocks a.live new good.on_heap;
      }

  -- `allocateFallback` gives a region that overlaps no other, at an aligned address.
  allocate_fallback-IsGood :
      (a : Arena) (given : List Block) (n : ℕ)
      → IsGood a given
      → (p : ℕ) × (after : Arena) × (allocate_fallback new_array a n ≡ (p, after))
        × IsGood after (region p n ∷ given)
        × (p % align ≡ 0)
  unfolding allocate_fallback allocate_new_block
  allocate_fallback-IsGood a given n good = elim (dec_lt 1024 n) [
    | yes large ↦ (
      (allocate_new_block new_array a n).0,
      (allocate_new_block new_array a n).1,
      ground arith,
      new_block-IsGood a given n good,
      memory.aligned a.live n (omega arith),
    )
    | no small ↦ (
      new_array a.live block_size,
      _,
      ground arith,
      block_start-IsGood a given n good (omega arith),
      memory.aligned a.live block_size (omega arith),
    )
  ]

  -- With a sound allocator, from a good state, `allocate` of at least one byte fails no assertion and
  -- gives a region that lies in the arena's blocks and overlaps no region given before.
  pub allocate-IsGood :
      (a : Arena) (given : List Block) (n : ℕ)
      → IsGood a given
      → 0 < n
      → (p : ℕ) × (after : Arena) × (allocate new_array a n ≡ some (p, after))
        × IsGood after (region p n ∷ given)
  unfolding allocate
  allocate-IsGood a given n good pos = elim (dec_le n a.alloc_bytes_remaining) [
    | yes fits ↦ (
      a.alloc_ptr,
      bump a (a.alloc_ptr + n) n,
      ground arith,
      bump-IsGood a given a.alloc_ptr n n good (omega arith) refl (omega arith),
    )
    | no more ↦
        let (p, after, e, is, _) = allocate_fallback-IsGood a given n good in
        (p, after, rw e (ground arith), is)
  ]

  -- With a sound allocator, from a good state, `allocateAligned` of fewer than 2^64 - 8 bytes fails
  -- no assertion and gives a region at an address that is a multiple of 8, which lies in the arena's
  -- blocks and overlaps no region given before.
  pub allocate_aligned-IsGood :
      (a : Arena) (given : List Block) (n : ℕ)
      → IsGood a given
      → n + 8 < 2 ^ 64
      → (p : ℕ) × (after : Arena) × (allocate_aligned new_array a n ≡ some (p, after))
        × IsGood after (region p n ∷ given)
        × (p % align ≡ 0)
  unfolding allocate_aligned
  allocate_aligned-IsGood a given n good small = elim (dec_le (n + slop) a.alloc_bytes_remaining) [
    | yes fits ↦ (
      a.alloc_ptr + slop,
      bump a (a.alloc_ptr + (n + slop)) (n + slop),
      ground (arith, masked a.alloc_ptr, masked (a.alloc_ptr + slop), up),
      bump-IsGood a given (a.alloc_ptr + slop) n (n + slop) good (omega arith) (omega arith) fits,
      up,
    )
    | no more ↦
        let (p, after, e, is, up') = allocate_fallback-IsGood a given n good in
        (p, after, rw e (ground (arith, masked a.alloc_ptr, masked p, up')), is, up')
  ]
    where
      masked : (x : ℕ) → bit_and x 7 ≡ x % 8
      masked = and_mask 3

      slop : ℕ
      slop = if a.alloc_ptr % 8 == 0 then 0 else 8 - a.alloc_ptr % 8

      slop-lt : slop < 8
      slop-lt = ground arith

      up : (a.alloc_ptr + slop) % 8 ≡ 0
      up = ground arith
