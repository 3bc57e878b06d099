-- ===== src/Status/Kinds.antt =====
-- The makers of a Status for each kind of error, and its tests, of src/include/status.h.
use distributed_kvstorage.Common.{
  ◌+◌, ◌<◌, ◌^◌, ◌≡◌, refl, sym, subst, Bool, true, false, Option, none, some, List, [], ◌∷◌,
  length, ◌==◌, ◌>>=◌,
}
use mathlib.Core.Option.{some-injective}
use distributed_kvstorage.Slice.{Slice}
use distributed_kvstorage.Status.{
  StatuCode, not_found, corruption, not_supported, invalid_argument, io_error, code_byte, Machine,
  Status, success, is_ok, status_code, make_status,
}
use distributed_kvstorage.Status.RoundTrip.{IsMachine, IsError, make_status-parts}

-- The static members of these names, without an `msg2` that is left out.
module _ (m : Machine) where
  unfoldable pub not_found_status : Slice → Slice → Option Status
  not_found_status msg msg2 = make_status m not_found msg msg2

  unfoldable pub corruption_status : Slice → Slice → Option Status
  corruption_status msg msg2 = make_status m corruption msg msg2

  unfoldable pub not_supported_status : Slice → Slice → Option Status
  not_supported_status msg msg2 = make_status m not_supported msg msg2

  unfoldable pub invalid_argument_status : Slice → Slice → Option Status
  invalid_argument_status msg msg2 = make_status m invalid_argument msg msg2

  unfoldable pub io_error_status : Slice → Slice → Option Status
  io_error_status msg msg2 = make_status m io_error msg msg2

-- Two values of the enum are compared as their numbers.
abbrev same_code : StatuCode → StatuCode → Bool
same_code c d = code_byte c == code_byte d

pub is_not_found : Status → Option Bool
is_not_found s = do c ← status_code s; some (same_code c not_found)

pub is_corruption : Status → Option Bool
is_corruption s = do c ← status_code s; some (same_code c corruption)

pub is_not_supported : Status → Option Bool
is_not_supported s = do c ← status_code s; some (same_code c not_supported)

pub is_invalid_argument : Status → Option Bool
is_invalid_argument s = do c ← status_code s; some (same_code c invalid_argument)

pub is_io_error : Status → Option Bool
is_io_error s = do c ← status_code s; some (same_code c io_error)

-- The answers of `ok` and of the five tests, in the order of the source.
abbrev pub tests : Status → List (Option Bool)
tests s =
    some (is_ok s)
    ∷ is_not_found s
    ∷ is_corruption s
    ∷ is_not_supported s
    ∷ is_invalid_argument s
    ∷ is_io_error s
    ∷ []

-- The maker returns a status, with these answers.
abbrev pub Answers : Option Status → List (Option Bool) → Type 0
Answers result answers = (s : Status) × (result ≡ some s) × (tests s ≡ answers)

tests-code :
    (s : Status) (c : StatuCode)
    → IsError c
    → status_code s ≡ some c
    → tests s
      ≡ some false
        ∷ some (same_code c not_found)
        ∷ some (same_code c corruption)
        ∷ some (same_code c not_supported)
        ∷ some (same_code c invalid_argument)
        ∷ some (same_code c io_error)
        ∷ []
unfolding is_ok is_not_found is_corruption is_not_supported is_invalid_argument is_io_error
    status_code
tests-code none c h e = absurd (subst IsError (sym (some-injective _ _ e)) h)
tests-code (some state) c h e = rw e refl

module _ (m : Machine) (sound : IsMachine m) where
  make_status-tests :
      (c : StatuCode) (msg msg2 : Slice)
      → IsError c
      → length msg + length msg2 + 7 < 2 ^ 32
      → Answers (make_status m c msg msg2) (
          some false
          ∷ some (same_code c not_found)
          ∷ some (same_code c corruption)
          ∷ some (same_code c not_supported)
          ∷ some (same_code c invalid_argument)
          ∷ some (same_code c io_error)
          ∷ [])
  make_status-tests c msg msg2 h small =
      let (s, made, has, _, _) = make_status-parts m sound c msg msg2 h small in
      (s, made, tests-code s c h has)

  -- On a sound machine, for messages of together fewer than 2^32 - 7 bytes: `success` and each of the
  -- five makers of an error return a status on which its own test answers true and each of the other
  -- five answers false.
  pub makers-tests :
      (msg msg2 : Slice)
      → length msg + length msg2 + 7 < 2 ^ 32
      → (tests success
          ≡ some true ∷ some false ∷ some false ∷ some false ∷ some false ∷ some false ∷ [])
        × Answers
            (not_found_status m msg msg2)
            (some false ∷ some true ∷ some false ∷ some false ∷ some false ∷ some false ∷ [])
        × Answers
            (corruption_status m msg msg2)
            (some false ∷ some false ∷ some true ∷ some false ∷ some false ∷ some false ∷ [])
        × Answers
            (not_supported_status m msg msg2)
            (some false ∷ some false ∷ some false ∷ some true ∷ some false ∷ some false ∷ [])
        × Answers
            (invalid_argument_status m msg msg2)
            (some false ∷ some false ∷ some false ∷ some false ∷ some true ∷ some false ∷ [])
        × Answers
            (io_error_status m msg msg2)
            (some false ∷ some false ∷ some false ∷ some false ∷ some false ∷ some true ∷ [])
  unfolding not_found_status corruption_status not_supported_status invalid_argument_status
      io_error_status is_ok is_not_found is_corruption is_not_supported is_invalid_argument
      is_io_error status_code
  makers-tests msg msg2 small = (
    refl,
    make_status-tests not_found msg msg2 tt small,
    make_status-tests corruption msg msg2 tt small,
    make_status-tests not_supported msg msg2 tt small,
    make_status-tests invalid_argument msg msg2 tt small,
    make_status-tests io_error msg msg2 tt small,
  )
