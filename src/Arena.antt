-- ===== src/Arena.antt =====
-- The class Arena of src/util/arena.h and arena.cc. A pointer is its address, nullptr is 0; `none` is
-- a failed assertion. `new char[n]` is a parameter: the address it gives, by the arrays that are live
-- on the heap. Between two calls the heap grows, so every run of an allocator is such a function.
pub mod Regions
pub mod Laws
pub mod Requests
pub mod Freed
use distributed_kvstorage.Common.{
  ℕ, ◌+◌, ◌-◌, ◌/◌, ◌<◌, ◌≤◌, ◌%◌, ◌≡◌, Option, none, some, List, [], ◌∷◌, ◌++◌, bit_and, ltb, leb,
  ◌==◌, if◌then◌else◌, ◌>>=◌, ◌>>◌, assert, u64,
}

-- An array from `new`, with the size that `delete[]` knows.
pub record Block : Type 0 where
  pub address : ℕ
  pub bytes : ℕ

-- The fields of the class, and the heap: the arrays of the whole program that are live.
pub record Arena : Type 0 where
  pub alloc_ptr : ℕ
  pub alloc_bytes_remaining : ℕ
  pub blocks : List Block
  pub memory_usage : ℕ
  pub live : List Block

abbrev pub block_size : ℕ
block_size = 4096

-- alignof the pointers, of 8 bytes.
abbrev pub align : ℕ
align = 8

-- Arena(), on a heap with these arrays.
abbrev pub make_arena : (live : List Block) → Arena
make_arena live = record {
  alloc_ptr = 0;
  alloc_bytes_remaining = 0;
  blocks = [];
  memory_usage = 0;
  live = live;
}

-- `bytes` is at most what remains.
unfoldable pub bump : Arena → (ptr bytes : ℕ) → Arena
bump a ptr bytes = record {
  alloc_ptr = ptr;
  alloc_bytes_remaining = a.alloc_bytes_remaining - bytes;
  blocks = a.blocks;
  memory_usage = a.memory_usage;
  live = a.live;
}

module _ (new_array : List Block → ℕ → ℕ) where
  unfoldable pub allocate_new_block : Arena → ℕ → ℕ × Arena
  allocate_new_block a block_bytes =
      let res = new_array a.live block_bytes in
      (
        res,
        record {
          alloc_ptr = a.alloc_ptr;
          alloc_bytes_remaining = a.alloc_bytes_remaining;
          blocks = a.blocks ++ (record { address = res; bytes = block_bytes } ∷ []);
          memory_usage = u64 (a.memory_usage + (block_bytes + 8));
          live = a.live ++ (record { address = res; bytes = block_bytes } ∷ []);
        },
      )

  unfoldable pub allocate_fallback : Arena → ℕ → ℕ × Arena
  unfolding allocate_new_block
  allocate_fallback a bytes =
      if ltb (block_size / 4) bytes
      then allocate_new_block a bytes
      else (let (result, fresh) = allocate_new_block a block_size in
          (
            result,
            record {
              alloc_ptr = result + bytes;
              alloc_bytes_remaining = block_size - bytes;
              blocks = fresh.blocks;
              memory_usage = fresh.memory_usage;
              live = fresh.live;
            },
          ))

  unfoldable pub allocate : Arena → ℕ → Option (ℕ × Arena)
  unfolding bump
  allocate a bytes = do
    assert (ltb 0 bytes)
    some (
        if leb bytes a.alloc_bytes_remaining
        then (a.alloc_ptr, bump a (a.alloc_ptr + bytes) bytes)
        else allocate_fallback a bytes)

  unfoldable pub allocate_aligned : Arena → ℕ → Option (ℕ × Arena)
  unfolding bump
  allocate_aligned a bytes = do
    let current_mod = bit_and a.alloc_ptr (align - 1)
    let slop = if current_mod == 0 then 0 else align - current_mod
    let needed = u64 (bytes + slop)
    let (res, a) =
        if leb needed a.alloc_bytes_remaining
        then (a.alloc_ptr + slop, bump a (a.alloc_ptr + needed) needed)
        else allocate_fallback a bytes
    assert (bit_and res (align - 1) == 0)
    some (res, a)

-- delete[] of an array by its address: `none` is an address at which no live array begins.
abbrev pub delete_array : (live : List Block) → ℕ → Option (List Block)
delete_array [] p = none
delete_array (b ∷ live) p =
    let rest = delete_array live p in
    if b.address == p then some live else (do rest ← rest; some (b ∷ rest))

unfoldable pub destroy_loop : (blocks live : List Block) → Option (List Block)
destroy_loop [] live = some live
destroy_loop (b ∷ blocks) live = do live ← delete_array live b.address; destroy_loop blocks live

-- ~Arena(): the arrays that are still live behind it.
unfoldable pub destroy : Arena → Option (List Block)
destroy a = destroy_loop a.blocks a.live

-- memoryUsage()
unfoldable pub memory_usage : Arena → ℕ
memory_usage a = a.memory_usage
