-- ===== src/Arena/Regions.antt =====
-- The regions that an arena gave out, and the invariant that they never overlap.
use distributed_kvstorage.Common.{
  ℕ, ◌+◌, ◌<◌, ◌≤◌, ◌%◌, ◌≡◌, ◌⊎◌, inl, inr, List, [], ◌∷◌, ◌++◌, u64, arith,
}
use distributed_kvstorage.Arena.{Block, Arena, align, make_arena}

-- The addresses of a block, and of some blocks.
abbrev In : ℕ → Block → Type 0
In x b = (b.address ≤ x) × (x < b.address + b.bytes)

abbrev pub Covered : List Block → ℕ → Type 0
Covered [] x = ⊥
Covered (b ∷ bs) x = In x b ⊎ Covered bs x

-- What `new` is documented to do: it gives memory that is not in use, at an address that is aligned
-- for every object that fits.
pub record IsAllocator (new_array : List Block → ℕ → ℕ) : Type 0 where
  pub fresh :
      (live : List Block) (n x : ℕ)
      → In x (record { address = new_array live n; bytes = n })
      → ¬ (Covered live x)
  pub aligned : (live : List Block) (n : ℕ) → align ≤ n → new_array live n % align ≡ 0

-- No two of the blocks have an address in common.
abbrev pub Apart : List Block → Type 0
Apart [] = Unit {0}
Apart (b ∷ bs) = ((x : ℕ) → In x b → ¬ (Covered bs x)) × Apart bs

abbrev pub total : List Block → ℕ
total [] = 0
total (b ∷ bs) = b.bytes + 8 + total bs

-- The part of the current block that is left.
abbrev pub free : Arena → Block
free a = record { address = a.alloc_ptr; bytes = a.alloc_bytes_remaining }

-- The arena after the regions `given`, the newest first.
pub record IsGood (a : Arena) (given : List Block) : Type 0 where
  pub free_live : (x : ℕ) → In x (free a) → Covered a.blocks x
  pub given_live : (x : ℕ) → Covered given x → Covered a.blocks x
  pub unused : (x : ℕ) → In x (free a) → ¬ (Covered given x)
  pub apart : Apart given
  pub usage : a.memory_usage ≡ u64 (total a.blocks)
  pub on_heap : (x : ℕ) → Covered a.blocks x → Covered a.live x

pub make_arena-IsGood : (live : List Block) → IsGood (make_arena live) []
make_arena-IsGood live = record {
  free_live = λ x h. absurd (omega arith);
  given_live = λ x h. h;
  unused = λ x h k. k;
  apart = tt;
  usage = omega arith;
  on_heap = λ x h. absurd h;
}

pub Covered-left : (bs cs : List Block) (x : ℕ) → Covered bs x → Covered (bs ++ cs) x
Covered-left [] cs x h = absurd h
Covered-left (b ∷ bs) cs x (inl h) = inl h
Covered-left (b ∷ bs) cs x (inr h) = inr (Covered-left bs cs x h)

pub Covered-last : (bs : List Block) (b : Block) (x : ℕ) → In x b → Covered (bs ++ (b ∷ [])) x
Covered-last [] b x h = inl h
Covered-last (c ∷ bs) b x h = inr (Covered-last bs b x h)

-- A list with the same block behind it.
pub Covered-grow :
    (bs live : List Block) (b : Block)
    → ((x : ℕ) → Covered bs x → Covered live x)
    → (x : ℕ) → Covered (bs ++ (b ∷ [])) x
    → Covered (live ++ (b ∷ [])) x
Covered-grow [] live b inside x (inl h) = Covered-last live b x h
Covered-grow [] live b inside x (inr h) = absurd h
Covered-grow (c ∷ bs) live b inside x (inl h) = Covered-left live (b ∷ []) x (inside x (inl h))
Covered-grow (c ∷ bs) live b inside x (inr h) = Covered-grow bs live b (λ y k. inside y (inr k)) x h

pub total-last : (bs : List Block) (b : Block) → total (bs ++ (b ∷ [])) ≡ total bs + (b.bytes + 8)
total-last [] b = omega arith
total-last (c ∷ bs) b = omega (arith, total-last bs b)

abbrev pub region : (address bytes : ℕ) → Block
region address bytes = record { address = address; bytes = bytes }
