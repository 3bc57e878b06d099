-- ===== src/Status.antt =====
-- The class Status of src/include/status.h and status.cc. `state_` is nullptr, which is `none`, or
-- the bytes of an array. The outer `none` of an operation is a failed assertion, or an access outside
-- the array.
pub mod RoundTrip
pub mod Objects
pub mod Kinds
use distributed_kvstorage.Common.{
  ℕ, ◌+◌, ◌≡◌, Bool, true, false, not, Option, none, some, List, [], ◌∷◌, ◌++◌, length, take, drop,
  get_elem?, leb, ◌==◌, if◌then◌else◌, ◌>>=◌, ◌>>◌, assert, u32, IsU32,
}
use distributed_kvstorage.Slice.{Slice, size}

-- The enum, with the values that a cast of a char may give it and that have no name.
pub data StatuCode : Type 0 where
  ok not_found corruption not_supported invalid_argument io_error : StatuCode
  unnamed : ℕ → StatuCode

abbrev pub code_byte : StatuCode → ℕ
code_byte ok = 0
code_byte not_found = 1
code_byte corruption = 2
code_byte not_supported = 3
code_byte invalid_argument = 4
code_byte io_error = 5
code_byte (unnamed c) = c

-- static_cast<StatuCode>(c)
abbrev pub to_statu_code : ℕ → StatuCode
to_statu_code c =
    if c == 0
    then ok
    else if c == 1
    then not_found
    else if c == 2
    then corruption
    else if c == 3
    then not_supported
    else if c == 4
    then invalid_argument
    else if c == 5
    then io_error
    else unnamed c

-- What the code takes from the machine and from the C library: the bytes of a uint32_t in memory and
-- the number of such bytes, and the text that `snprintf` makes of a code without a name.
pub record Machine : Type 0 where
  pub store_u32 : ℕ → List ℕ
  pub load_u32 : List ℕ → ℕ
  pub unknown_code : ℕ → List ℕ

abbrev pub Status : Type 0
Status = Option (List ℕ)

-- Status() and success()
abbrev pub success : Status
success = none

unfoldable pub is_ok : Status → Bool
is_ok none = true
is_ok (some _) = false

-- code()
unfoldable pub status_code : Status → Option StatuCode
status_code none = some ok
status_code (some state) = do c ← get_elem? state 4; some (to_statu_code c)

abbrev pub type_text : (unknown_code : ℕ → List ℕ) → StatuCode → List ℕ
type_text unknown_code ok = b'O' ∷ b'K' ∷ []
type_text unknown_code not_found =
    b'N' ∷ b'o' ∷ b't' ∷ b'F' ∷ b'o' ∷ b'u' ∷ b'n' ∷ b'd' ∷ b':' ∷ b' ' ∷ []
type_text unknown_code corruption =
    b'C' ∷ b'o' ∷ b'r' ∷ b'r' ∷ b'u' ∷ b'p' ∷ b't' ∷ b'i' ∷ b'o' ∷ b'n' ∷ b':' ∷ b' ' ∷ []
type_text unknown_code not_supported =
    b'N' ∷ b'o' ∷ b't' ∷ b' ' ∷ b'i' ∷ b'm' ∷ b'p' ∷ b'l' ∷ b'e' ∷ b'm' ∷ b'e' ∷ b'n' ∷ b't' ∷ b'e'
    ∷ b'd' ∷ b':' ∷ b' ' ∷ []
type_text unknown_code invalid_argument =
    b'I' ∷ b'n' ∷ b'v' ∷ b'a' ∷ b'l' ∷ b'i' ∷ b'd' ∷ b' ' ∷ b'a' ∷ b'r' ∷ b'g' ∷ b'u' ∷ b'm' ∷ b'e'
    ∷ b'n' ∷ b't' ∷ b':' ∷ b' ' ∷ []
type_text unknown_code io_error =
    b'I' ∷ b'O' ∷ b' ' ∷ b'e' ∷ b'r' ∷ b'r' ∷ b'o' ∷ b'r' ∷ b':' ∷ b' ' ∷ []
type_text unknown_code (unnamed c) = unknown_code c

module _ (m : Machine) where
  -- Status(code, msg, msg2): what is written to the array of `size + 5` bytes, which must hold it.
  unfoldable pub make_status : StatuCode → Slice → Slice → Option Status
  unfolding size
  make_status code msg msg2 = do
    assert (not (code_byte code == 0))
    let len1 = u32 (size msg)
    let len2 = u32 (size msg2)
    let total = u32 (len1 + (if len2 == 0 then 0 else u32 (2 + len2)))
    let second = if len2 == 0 then [] else b':' ∷ b' ' ∷ take len2 msg2
    let result = m.store_u32 total ++ (code_byte code ∷ (take len1 msg ++ second))
    assert (leb (length result) (u32 (total + 5)))
    some (some result)

  -- toString()
  unfoldable pub status_to_string : Status → Option (List ℕ)
  status_to_string none = some (b'O' ∷ b'K' ∷ [])
  status_to_string (some state) = do
    code ← status_code (some state)
    let total = m.load_u32 (take 4 state)
    assert (leb (5 + total) (length state))
    some (type_text m.unknown_code code ++ take total (drop 5 state))

  -- copyState(state)
  unfoldable pub copy_state : List ℕ → Option (List ℕ)
  copy_state state = do
    let total = m.load_u32 (take 4 state)
    assert (leb (u32 (total + 5)) (length state))
    some (take (u32 (total + 5)) state)

  -- Status(const Status& rhs)
  unfoldable pub copy_status : Status → Option Status
  copy_status none = some none
  copy_status (some state) = do copied ← copy_state state; some (some copied)
