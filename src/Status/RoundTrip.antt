-- ===== src/Status/RoundTrip.antt =====
-- What a Status made from a code and two messages holds.
use distributed_kvstorage.Common.{
  ℕ, subst, append-nil, suc, ◌+◌, ◌<◌, ◌≤◌, ◌^◌, ◌≡◌, refl, some, List, [], ◌∷◌, ◌++◌, length, take,
  drop, get_elem?, IsU32, arith, length-append, take-append, take_all,
}
use distributed_kvstorage.Slice.{Slice, size}
use distributed_kvstorage.Status.{
  StatuCode, ok, not_found, corruption, not_supported, invalid_argument, io_error, unnamed,
  code_byte, to_statu_code, Machine, Status, status_code, type_text, make_status, status_to_string,
  copy_state, copy_status,
}

-- What is asked of the machine: a uint32_t takes 4 bytes, from which it is read back.
pub record IsMachine (m : Machine) : Type 0 where
  pub four : (n : ℕ) → length (m.store_u32 n) ≡ 4
  pub load : (n : ℕ) → IsU32 n → m.load_u32 (m.store_u32 n) ≡ n

abbrev pub IsError : StatuCode → Type 0
IsError not_found = Unit {0}
IsError corruption = Unit {0}
IsError not_supported = Unit {0}
IsError invalid_argument = Unit {0}
IsError io_error = Unit {0}
IsError _ = ⊥

-- The message of both parts.
abbrev pub joined : Slice → Slice → List ℕ
joined msg [] = msg
joined msg (c ∷ cs) = msg ++ (b':' ∷ b' ' ∷ c ∷ cs)

length-joined : (msg msg2 : Slice) → length (joined msg msg2) ≤ length msg + length msg2 + 2
length-joined msg [] = omega arith
length-joined msg (c ∷ cs) = omega (arith, length-append msg (b':' ∷ b' ' ∷ c ∷ cs))

to_statu_code-byte : (c : StatuCode) → IsError c → to_statu_code (code_byte c) ≡ c
to_statu_code-byte ok h = absurd h
to_statu_code-byte not_found h = refl
to_statu_code-byte corruption h = refl
to_statu_code-byte not_supported h = refl
to_statu_code-byte invalid_argument h = refl
to_statu_code-byte io_error h = refl
to_statu_code-byte (unnamed c) h = absurd h

code_byte-pos : (c : StatuCode) → IsError c → 0 < code_byte c
code_byte-pos ok h = absurd h
code_byte-pos not_found h = omega arith
code_byte-pos corruption h = omega arith
code_byte-pos not_supported h = omega arith
code_byte-pos invalid_argument h = omega arith
code_byte-pos io_error h = omega arith
code_byte-pos (unnamed c) h = absurd h

drop-past : (s : List ℕ) (c : ℕ) (t : List ℕ) → drop (suc (length s)) (s ++ (c ∷ t)) ≡ t
drop-past [] c t = refl
drop-past (x ∷ s) c t = drop-past s c t

get_elem?-past : (s : List ℕ) (c : ℕ) (t : List ℕ) → get_elem? (s ++ (c ∷ t)) (length s) ≡ some c
get_elem?-past [] c t = refl
get_elem?-past (x ∷ s) c t = get_elem?-past s c t

module _ (m : Machine) (sound : IsMachine m) where
  abbrev layout : StatuCode → List ℕ → List ℕ
  layout c text = m.store_u32 (length text) ++ (code_byte c ∷ text)

  make_status-layout :
      (c : StatuCode) (msg msg2 : Slice)
      → IsError c
      → length msg + length msg2 + 7 < 2 ^ 32
      → make_status m c msg msg2 ≡ some (some (layout c (joined msg msg2)))
  unfolding make_status size
  make_status-layout c msg [] h small = ground (
    arith,
    code_byte-pos c h,
    take_all (length msg) msg (omega arith),
    append-nil msg,
    sound.four (length msg),
    length-append (m.store_u32 (length msg)) (code_byte c ∷ msg),
  )
  make_status-layout c msg (x ∷ xs) h small =
      let text = msg ++ (b':' ∷ b' ' ∷ x ∷ xs) in
      let long : length text ≡ length msg + (2 + length (x ∷ xs)) =
        omega (arith, length-append msg (b':' ∷ b' ' ∷ x ∷ xs)) in
      ground (
        arith,
        code_byte-pos c h,
        take_all (length msg) msg (omega arith),
        take_all (length (x ∷ xs)) (x ∷ xs) (omega arith),
        long,
        sound.four (length text),
        length-append (m.store_u32 (length text)) (code_byte c ∷ text),
      )

  -- The parts of the bytes that a status holds.
  module _ (c : StatuCode) (text : List ℕ) (fits : length text + 5 < 2 ^ 32) where
    size-layout : take 4 (layout c text) ≡ m.store_u32 (length text)
    size-layout =
        subst (λ n. take n (layout c text) ≡ m.store_u32 (length text)) (sound.four (length text))
          (take-append (m.store_u32 (length text)) (code_byte c ∷ text))

    rest-layout : drop 5 (layout c text) ≡ text
    rest-layout =
        subst (λ n. drop (suc n) (layout c text) ≡ text) (sound.four (length text))
          (drop-past (m.store_u32 (length text)) (code_byte c) text)

    length-layout : length (layout c text) ≡ 5 + length text
    length-layout = omega (
      arith,
      length-append (m.store_u32 (length text)) (code_byte c ∷ text),
      sound.four (length text),
    )

    load-layout : m.load_u32 (take 4 (layout c text)) ≡ length text
    load-layout = rw size-layout (sound.load (length text) (omega arith))

    code-layout : IsError c → status_code (some (layout c text)) ≡ some c
    unfolding status_code
    code-layout h =
        let at_four : get_elem? (layout c text) 4 ≡ some (code_byte c) =
          subst (λ n. get_elem? (layout c text) n ≡ some (code_byte c)) (sound.four (length text))
            (get_elem?-past (m.store_u32 (length text)) (code_byte c) text) in
        rw (at_four, to_statu_code-byte c h)

    copy_status-layout : copy_status m (some (layout c text)) ≡ some (some (layout c text))
    unfolding copy_status copy_state
    copy_status-layout = rw load-layout (
        ground (
          arith,
          length-layout,
          take_all (length text + 5) (layout c text) (omega (arith, length-layout)),
        ))

    to_string-layout :
        IsError c
        → status_to_string m (some (layout c text)) ≡ some (type_text m.unknown_code c ++ text)
    unfolding status_to_string
    to_string-layout h =
        rw (code-layout h, load-layout)
          (ground (arith, length-layout, rest-layout, take_all (length text) text (omega arith)))

  -- On a sound machine, for a code other than Ok and messages of together fewer than 2^32 - 7 bytes,
  -- a Status is made inside its array. It has that code, its text is the code's name, the first
  -- message and, unless it is empty, a colon and the second one, and its copy holds the same bytes.
  pub make_status-parts :
      (c : StatuCode) (msg msg2 : Slice)
      → IsError c
      → length msg + length msg2 + 7 < 2 ^ 32
      → (s : Status) × (make_status m c msg msg2 ≡ some s)
        × (status_code s ≡ some c)
        × (status_to_string m s ≡ some (type_text m.unknown_code c ++ joined msg msg2))
        × (copy_status m s ≡ some s)
  make_status-parts c msg msg2 h small =
      let text = joined msg msg2 in
      let fits : length text + 5 < 2 ^ 32 = omega (arith, length-joined msg msg2) in
      (
        some (layout c text),
        make_status-layout c msg msg2 h small,
        code-layout c text fits h,
        to_string-layout c text fits h,
        copy_status-layout c text fits,
      )
