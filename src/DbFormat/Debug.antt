-- ===== src/DbFormat/Debug.antt =====
-- The texts that `debugString` of src/database/db_format.cc gives for an internal key.
use distributed_kvstorage.Common.{
  ℕ, Option, some, List, [], ◌∷◌, ◌++◌, ◌≡◌, ◌>>=◌, if◌then◌else◌, Bool, true, false, All, IsByte,
  refl,
}
use distributed_kvstorage.Slice.{to_string}
use distributed_kvstorage.Logging.{escape_string, append_escaped_string_to}
use distributed_kvstorage.DbFormat.{
  ParsedInternalKey, InternalKey, code, append_internal_key, parse_internal_key,
}
use distributed_kvstorage.DbFormat.Key.{IsKey, append_internal_key-bytes}
use distributed_kvstorage.DbFormat.Key.Parse.{
  parse_internal_key-append, parse_internal_key_iff, parse_internal_key-some,
}

-- `print` is how a stream writes an integer.
module _ (print : ℕ → List ℕ) where
  -- ParsedInternalKey::debugString
  parsed_debug_string : ParsedInternalKey → List ℕ
  parsed_debug_string key =
      (b'\'' ∷ [])
      ++ escape_string (to_string key.user_key)
      ++ (b'\'' ∷ b' ' ∷ b'@' ∷ b' ' ∷ [])
      ++ print key.sequence
      ++ (b' ' ∷ b':' ∷ b' ' ∷ [])
      ++ print (code key.type)

  -- InternalKey::debugString, with what the fields of `parsed` hold before they are set.
  debug_string : ParsedInternalKey → InternalKey → Option (List ℕ)
  debug_string parsed rep = do
    (ok, parsed) ← parse_internal_key rep parsed
    some (
        if ok
        then parsed_debug_string parsed
        else (b'(' ∷ b'b' ∷ b'a' ∷ b'd' ∷ b')' ∷ []) ++ escape_string rep)

  -- The text of a valid key that AppendInternalKey wrote is that of the key.
  debug_string-append :
      (key old : ParsedInternalKey)
      → IsKey key
      → (append_internal_key [] key >>= debug_string old) ≡ some (parsed_debug_string key)
  unfolding debug_string
  debug_string-append key old is =
      let bytes = append_internal_key-bytes [] key is in
      let e = rw bytes at (parse_internal_key-append key old is) in rw (bytes, e) refl

  -- The text of a string of bytes that AppendInternalKey writes for no valid key says that it is bad.
  debug_string-bad :
      (k : List ℕ) (old : ParsedInternalKey)
      → All IsByte k
      → ((key : ParsedInternalKey) → IsKey key → ¬ (append_internal_key [] key ≡ some k))
      → debug_string old k ≡ some ((b'(' ∷ b'b' ∷ b'a' ∷ b'd' ∷ b')' ∷ []) ++ k)
  unfolding debug_string escape_string append_escaped_string_to to_string
  debug_string-bad k old bytes bad = answer (parse_internal_key-some k old bytes)
    where
      answer :
          (b : Bool) × (key : ParsedInternalKey) × (parse_internal_key k old ≡ some (b, key))
          → debug_string old k ≡ some ((b'(' ∷ b'b' ∷ b'a' ∷ b'd' ∷ b')' ∷ []) ++ k)
      answer (true, key, e) =
          let (is, written) = (parse_internal_key_iff k old key bytes).0 e in
          absurd (bad key is written)
      answer (false, key, e) = rw e refl
