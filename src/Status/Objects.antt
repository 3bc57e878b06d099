-- ===== src/Status/Objects.antt =====
-- The objects of the class Status in memory: constructing, copying, assigning, moving and destroying
-- them, with the arrays that their `state_` points to. `none` is undefined behaviour: a read of or a
-- `delete[]` of an array that is not live, and a use of an object that is not constructed or was
-- destroyed.
pub mod Owners
pub mod Moves
pub mod Laws
use distributed_kvstorage.Common.{
  ℕ, Bool, true, false, Option, none, some, List, [], ◌∷◌, ◌==◌, if◌then◌else◌, ◌>>=◌,
}
use distributed_kvstorage.Status.{Machine, Status, copy_state}

-- The live arrays by their address, and `state_` of each live object by the object's address: the
-- outer `none` is an address without an object, the inner one is nullptr.
pub record Memory : Type 0 where
  pub arrays : List (ℕ × List ℕ)
  pub objects : ℕ → Option (Option ℕ)

abbrev pub find_array : List (ℕ × List ℕ) → ℕ → Option (List ℕ)
find_array [] p = none
find_array ((q, bytes) ∷ rest) p = if q == p then some bytes else find_array rest p

abbrev pub remove_array : ℕ → List (ℕ × List ℕ) → List (ℕ × List ℕ)
remove_array p [] = []
remove_array p ((q, bytes) ∷ rest) =
    let others = remove_array p rest in if q == p then others else (q, bytes) ∷ others

abbrev pub put {ℓ} : {A : Type ℓ} → (ℕ → A) → ℕ → A → ℕ → A
put f n v m = if n == m then v else f m

abbrev pub same_pointer : Option ℕ → Option ℕ → Bool
same_pointer none none = true
same_pointer none (some q) = false
same_pointer (some p) none = false
same_pointer (some p) (some q) = p == q

-- delete[] p
unfoldable pub delete_array : Option ℕ → Memory → Option Memory
delete_array none mem = some mem
delete_array (some p) mem = do
  bytes ← find_array mem.arrays p
  some (record mem { arrays = remove_array p mem.arrays })

-- `state_ = ...` of an object, which is live from then on.
abbrev pub set_state : ℕ → Option ℕ → Memory → Memory
set_state object p mem = record mem { objects = put mem.objects object (some p) }

-- The end of an object's lifetime: nothing may read its `state_` any more.
abbrev pub end_object : ℕ → Memory → Memory
end_object object mem = record mem { objects = put mem.objects object none }

-- Status()
unfoldable pub construct : (this : ℕ) → Memory → Memory
construct this mem = set_state this none mem

-- `new char[]` gives an address by the arrays that are live.
module _ (m : Machine) (new_array : List (ℕ × List ℕ) → ℕ) where
  -- The pointer `(p == nullptr) ? nullptr : copyState(p)`.
  unfoldable pub copy_pointer : Option ℕ → Memory → Option (Option ℕ × Memory)
  copy_pointer none mem = some (none, mem)
  copy_pointer (some p) mem = do
    state ← find_array mem.arrays p
    result ← copy_state m state
    let q = new_array mem.arrays
    some (some q, record mem { arrays = (q, result) ∷ mem.arrays })

  -- Status(const Status& rhs), for a new object `this`.
  unfoldable pub copy_construct : (this rhs : ℕ) → Memory → Option Memory
  copy_construct this rhs mem = do
    q ← mem.objects rhs
    (p, mem) ← copy_pointer q mem
    some (set_state this p mem)

  -- operator=(const Status& rhs)
  unfoldable pub copy_assign : (this rhs : ℕ) → Memory → Option Memory
  copy_assign this rhs mem = do
    p ← mem.objects this
    q ← mem.objects rhs
    if same_pointer p q then some mem else (do
      mem ← delete_array p mem
      (p, mem) ← copy_pointer q mem
      some (set_state this p mem))

-- Status(Status&& rhs), for a new object `this`.
unfoldable pub move_construct : (this rhs : ℕ) → Memory → Option Memory
move_construct this rhs mem = do
  q ← mem.objects rhs
  some (set_state rhs none (set_state this q mem))

-- operator=(Status&& rhs): std::swap
unfoldable pub move_assign : (this rhs : ℕ) → Memory → Option Memory
move_assign this rhs mem = do
  p ← mem.objects this
  q ← mem.objects rhs
  some (set_state rhs p (set_state this q mem))

-- ~Status(): `delete[] state_`. It leaves the pointer as it is, and the object is no more.
unfoldable pub destroy : ℕ → Memory → Option Memory
destroy this mem = do p ← mem.objects this; mem ← delete_array p mem; some (end_object this mem)
