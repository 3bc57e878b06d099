-- ===== src/Tests/Statuses.antt =====
-- The class Status: a run, and the theorem at a concrete input.
use distributed_kvstorage.Common.{
  none, List, ℕ, zero, suc, ◌≤◌, ◌==◌, if◌then◌else◌, ◌+◌, ◌+◌, ◌*◌, ◌/◌, ◌%◌, ◌≡◌, refl, some, [],
  ◌∷◌, ◌++◌, get_or, arith,
}
use distributed_kvstorage.Slice.{Slice}
use distributed_kvstorage.Status.{
  not_found, io_error, Machine, Status, status_code, type_text, make_status, status_to_string,
  copy_status,
}
use distributed_kvstorage.Status.{copy_state}
use distributed_kvstorage.Common.{Option}
use distributed_kvstorage.Status.Objects.{
  Memory, find_array, destroy, delete_array, copy_assign, copy_construct,
}
use distributed_kvstorage.Status.Objects.Laws.{
  Command, construct_empty, construct_copy, construct_move, execute, assign_copy, assign_move,
  delete_object, apply_all, execute_all, execute_all-Owns,
}
use distributed_kvstorage.Status.Objects.Owners.{Owns, Shows}
use distributed_kvstorage.Common.{true, false}
use distributed_kvstorage.Status.{success}
use distributed_kvstorage.Status.Kinds.{
  tests, Answers, not_found_status, corruption_status, not_supported_status,
  invalid_argument_status, io_error_status, makers-tests,
}
use distributed_kvstorage.Status.RoundTrip.{IsMachine, joined, make_status-parts}

-- A machine that stores the lowest byte first.
abbrev little : Machine
little = record {
  store_u32 = λ n. n % 256 ∷ n / 256 % 256 ∷ n / 65536 % 256 ∷ n / 16777216 ∷ [];
  load_u32 =
      λ s. get_or s 0 0 + get_or s 1 0 * 256 + get_or s 2 0 * 65536 + get_or s 3 0 * 16777216;
  unknown_code = λ c. [];
}

little-IsMachine : IsMachine little
little-IsMachine = record { four = λ n. omega arith; load = λ n h. omega arith }

abbrev db : Slice
db = b'd' ∷ b'b' ∷ []

abbrev full : Slice
full = b'f' ∷ b'u' ∷ b'l' ∷ b'l' ∷ []

-- A second message stands behind a colon.
two_messages :
    make_status little io_error db full
    ≡ some (some (8 ∷ 0 ∷ 0 ∷ 0 ∷ 5 ∷ b'd' ∷ b'b' ∷ b':' ∷ b' ' ∷ full))
unfolding make_status
two_messages = refl

make_status-parts_example :
    (s : Status) × (make_status little not_found db full ≡ some s)
    × (status_code s ≡ some not_found)
    × (status_to_string little s ≡ some (type_text little.unknown_code not_found ++ joined db full))
    × (copy_status little s ≡ some s)
make_status-parts_example =
    make_status-parts little little-IsMachine not_found db full tt (omega arith)

makers-tests_example :
    (tests success
      ≡ some true ∷ some false ∷ some false ∷ some false ∷ some false ∷ some false ∷ [])
    × Answers
        (not_found_status little db full)
        (some false ∷ some true ∷ some false ∷ some false ∷ some false ∷ some false ∷ [])
    × Answers
        (corruption_status little db full)
        (some false ∷ some false ∷ some true ∷ some false ∷ some false ∷ some false ∷ [])
    × Answers
        (not_supported_status little db full)
        (some false ∷ some false ∷ some false ∷ some true ∷ some false ∷ some false ∷ [])
    × Answers
        (invalid_argument_status little db full)
        (some false ∷ some false ∷ some false ∷ some false ∷ some true ∷ some false ∷ [])
    × Answers
        (io_error_status little db full)
        (some false ∷ some false ∷ some false ∷ some false ∷ some false ∷ some true ∷ [])
makers-tests_example = makers-tests little little-IsMachine db full (omega arith)

-- An allocator that goes on above every live array.
abbrev above_all : List (ℕ × List ℕ) → ℕ
above_all [] = 1
above_all ((p, bytes) ∷ rest) = suc p + above_all rest

above_all-le :
    (arrays : List (ℕ × List ℕ)) (p : ℕ) → above_all arrays ≤ p → find_array arrays p ≡ none
above_all-le [] p le = refl
above_all-le ((q, bytes) ∷ rest) p le = ground (arith, above_all-le rest p)

above_all-fresh : (arrays : List (ℕ × List ℕ)) → find_array arrays (above_all arrays) ≡ none
above_all-fresh arrays = above_all-le arrays (above_all arrays) (omega arith)

abbrev error_bytes : List ℕ
error_bytes = 2 ∷ 0 ∷ 0 ∷ 0 ∷ 1 ∷ b'd' ∷ b'b' ∷ []

-- One object with an array; no other is live.
abbrev one_error : Memory
one_error = record {
  arrays = (9, error_bytes) ∷ [];
  objects = λ o. if o == 0 then some (some 9) else none;
}

abbrev one_value : ℕ → Option Status
one_value o = if o == 0 then some (some error_bytes) else none

one_error-Owns : Owns little one_error one_value
unfolding copy_state
one_error-Owns = record {
  held = held_at;
  apart = λ o o' p e e'. ground arith;
  used = λ p bytes e. (0, ground (arith, e));
}
  where
    held_at : (o : ℕ) → Shows little one_error.arrays (one_error.objects o) (one_value o)
    held_at zero = (error_bytes, refl, refl, refl)
    held_at (suc o) = ground arith

abbrev commands : List Command
commands =
    construct_copy 1 0
    ∷ assign_copy 0 0
    ∷ construct_empty 2
    ∷ assign_move 1 2
    ∷ assign_copy 1 2
    ∷ delete_object 0
    ∷ construct_move 0 1
    ∷ delete_object 1
    ∷ []

execute_all-Owns_example :
    (after : Memory) × (execute_all little above_all commands one_error ≡ some after)
    × Owns little after (apply_all commands one_value)
execute_all-Owns_example =
    execute_all-Owns little above_all above_all-fresh commands one_error one_value one_error-Owns (
      (refl, (_, refl)),
      (
        ((_, refl), (_, refl)),
        (
          refl,
          (
            ((_, refl), (_, refl)),
            (((_, refl), (_, refl)), ((_, refl), ((refl, (_, refl)), ((_, refl), tt)))),
          ),
        ),
      ),
    )

-- A second destruction, an assignment to a destroyed object, and a construction from the object
-- itself.
destroyed_twice :
    execute_all little above_all (delete_object 0 ∷ delete_object 0 ∷ []) one_error ≡ none
unfolding execute destroy delete_array
destroyed_twice = refl

assigned_after :
    execute_all little above_all (delete_object 0 ∷ assign_copy 0 0 ∷ []) one_error ≡ none
unfolding execute destroy delete_array copy_assign
assigned_after = refl

constructed_from_itself : execute_all little above_all (construct_copy 1 1 ∷ []) one_error ≡ none
unfolding execute copy_construct
constructed_from_itself = refl
