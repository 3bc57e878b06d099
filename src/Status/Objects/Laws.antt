-- ===== src/Status/Objects/Laws.antt =====
-- Every array has one owner, and the operations do to the objects' values what they say.
use distributed_kvstorage.Common.{
  ℕ, ◌≡◌, [], ◌∷◌, Bool-cases, inl, inr, refl, subst, true, Option, none, some, List, ◌>>=◌, arith,
}
use native.Mathlib.Decide.{ℕ_discrete}
use distributed_kvstorage.Status.{Machine, Status}
use distributed_kvstorage.Status.Objects.{
  Memory, find_array, put, same_pointer, set_state, end_object, construct, copy_pointer,
  copy_construct, copy_assign, move_construct, move_assign, destroy,
}
use distributed_kvstorage.Status.Objects.Owners.{
  Shows, Owns, live-object, construct-Owns, ended-Owns, delete-Deleted,
}
use distributed_kvstorage.Status.Objects.Moves.{move_assign-Owns, move_construct-Owns}

-- What a program does with Status objects.
pub data Command : Type 0 where
  construct_empty : (this : ℕ) → Command
  construct_copy assign_copy construct_move assign_move : (this rhs : ℕ) → Command
  delete_object : (this : ℕ) → Command

-- The same on the values of the live objects: a copy leaves the source, a move takes from it or
-- exchanges.
abbrev pub apply : Command → (ℕ → Option Status) → ℕ → Option Status
apply (construct_empty this) values = put values this (some none)
apply (construct_copy this rhs) values = put values this (values rhs)
apply (assign_copy this rhs) values = put values this (values rhs)
apply (construct_move this rhs) values = put (put values this (values rhs)) rhs (some none)
apply (assign_move this rhs) values = put (put values this (values rhs)) rhs (values this)
apply (delete_object this) values = put values this none

abbrev pub IsLive : (ℕ → Option Status) → ℕ → Type 0
IsLive values o = (v : Status) × (values o ≡ some v)

-- An object is constructed where none is live, from one that is; it is assigned to, assigned from and
-- destroyed only while it is live.
abbrev pub IsLegal : Command → (ℕ → Option Status) → Type 0
IsLegal (construct_empty this) values = values this ≡ none
IsLegal (construct_copy this rhs) values = (values this ≡ none) × IsLive values rhs
IsLegal (assign_copy this rhs) values = IsLive values this × IsLive values rhs
IsLegal (construct_move this rhs) values = (values this ≡ none) × IsLive values rhs
IsLegal (assign_move this rhs) values = IsLive values this × IsLive values rhs
IsLegal (delete_object this) values = IsLive values this

abbrev pub apply_all : List Command → (ℕ → Option Status) → ℕ → Option Status
apply_all [] values = values
apply_all (c ∷ cs) values = apply_all cs (apply c values)

abbrev AreLegal : List Command → (ℕ → Option Status) → Type 0
AreLegal [] values = Unit {0}
AreLegal (c ∷ cs) values = IsLegal c values × AreLegal cs (apply c values)

module _ (m : Machine) (new_array : List (ℕ × List ℕ) → ℕ) where
  unfoldable pub execute : Command → Memory → Option Memory
  execute (construct_empty this) mem = some (construct this mem)
  execute (construct_copy this rhs) mem = copy_construct m new_array this rhs mem
  execute (assign_copy this rhs) mem = copy_assign m new_array this rhs mem
  execute (construct_move this rhs) mem = move_construct this rhs mem
  execute (assign_move this rhs) mem = move_assign this rhs mem
  execute (delete_object this) mem = destroy this mem

  abbrev pub execute_all : List Command → Memory → Option Memory
  execute_all [] mem = some mem
  execute_all (c ∷ cs) mem = do mem ← execute c mem; execute_all cs mem

module _ (m : Machine) where
  module _ (new_array : List (ℕ × List ℕ) → ℕ)
      (fresh : (arrays : List (ℕ × List ℕ)) → find_array arrays (new_array arrays) ≡ none) where
    -- A new object gets a copy of what a pointer shows.
    record Copied (this : ℕ) (p : Option ℕ) (mem : Memory) (values : ℕ → Option Status) (v : Status)
        : Type 0 where
      pointer : Option ℕ
      after : Memory
      ran : copy_pointer m new_array p mem ≡ some (pointer, after)
      owns : Owns m (set_state this pointer after) (put values this (some v))

    copy-Copied :
        (this : ℕ) (p : Option ℕ) (mem : Memory) (values : ℕ → Option Status) (v : Status)
        → Owns m (end_object this mem) (put values this none)
        → Shows m mem.arrays (some p) (some v)
        → Copied this p mem values v
    unfolding copy_pointer
    copy-Copied this none mem values v owns shows = record {
      pointer = none;
      after = mem;
      ran = refl;
      owns = record {
        held = λ o. ground (arith, owns.held o, shows);
        apart = λ o o' r e e'. ground (arith, owns.apart o o' r);
        used = λ r bytes at. let (o, own) = owns.used r bytes at in (o, ground (arith, own));
      };
    }
    copy-Copied this (some p) mem values v owns (bytes, live, value, whole) =
        let q = new_array mem.arrays in
        record {
          pointer = some q;
          after = record mem { arrays = (q, bytes) ∷ mem.arrays };
          ran = rw (live, whole) refl;
          owns = record {
            held = λ o. ground (arith, owns.held o, value, whole, fresh mem.arrays);
            apart = λ o o' r e e'.
                ground (arith, owns.apart o o' r, owns.held o, owns.held o', fresh mem.arrays);
            used = λ r state at. elim (ℕ_discrete q r) [
              | yes same ↦ (this, ground (arith, same))
              | no other ↦
                  let (o, own) = owns.used r state (ground (arith, at, other)) in
                  (o, ground (arith, own))
            ];
          };
        }

    copy_construct-Owns :
        (this rhs : ℕ) (w : Status) (mem : Memory) (values : ℕ → Option Status)
        → Owns m mem values
        → values this ≡ none
        → values rhs ≡ some w
        → (after : Memory) × (copy_construct m new_array this rhs mem ≡ some after)
          × Owns m after (put values this (values rhs))
    unfolding copy_construct
    copy_construct-Owns this rhs w mem values owns new live =
        let (q, e, shows) = live-object m rhs w mem values owns live in
        let c =
          copy-Copied this q mem values w
            (ended-Owns m this mem values owns (λ p at. ground (arith, at, new, owns.held this)))
            shows in
        (set_state this c.pointer c.after, rw (e, c.ran) refl, rw live c.owns)

    -- Assigning an object to itself, or a null pointer to a null pointer, changes nothing.
    assigned_same :
        (this rhs : ℕ) (p q : Option ℕ) (v w : Status) (mem : Memory) (values : ℕ → Option Status)
        → Owns m mem values
        → mem.objects this ≡ some p
        → mem.objects rhs ≡ some q
        → Shows m mem.arrays (some p) (some v)
        → Shows m mem.arrays (some q) (some w)
        → values rhs ≡ some w
        → values this ≡ some v
        → same_pointer p q ≡ true
        → Owns m mem (put values this (values rhs))
    assigned_same this rhs p q v w mem values owns e e' shows shows' live live' same = record {
      held = λ o. ground (arith, owns.held o, e, e', shows, shows', live, live', same);
      apart = owns.apart;
      used = owns.used;
    }

    copy_assign-Owns :
        (this rhs : ℕ) (v w : Status) (mem : Memory) (values : ℕ → Option Status)
        → Owns m mem values
        → values this ≡ some v
        → values rhs ≡ some w
        → (after : Memory) × (copy_assign m new_array this rhs mem ≡ some after)
          × Owns m after (put values this (values rhs))
    unfolding copy_assign
    copy_assign-Owns this rhs v w mem values owns live live' =
        let (p, e, shows) = live-object m this v mem values owns live in
        let (q, e', shows') = live-object m rhs w mem values owns live' in
        elim (Bool-cases (same_pointer p q)) [
          | inl same ↦ (
            mem,
            rw (e, e', same) refl,
            assigned_same this rhs p q v w mem values owns e e' shows shows' live' live same,
          )
          | inr different ↦
              let d = delete-Deleted m this p mem values owns e in
              let c =
                copy-Copied this q d.after values w d.owns
                  (subst (Shows m d.after.arrays (some q)) live' (d.others rhs q e' different)) in
              (
                set_state this c.pointer c.after,
                rw (e, e', different, d.ran, c.ran) refl,
                rw live' c.owns,
              )
        ]

    execute-Owns :
        (c : Command) (mem : Memory) (values : ℕ → Option Status)
        → Owns m mem values
        → IsLegal c values
        → (after : Memory) × (execute m new_array c mem ≡ some after)
          × Owns m after (apply c values)
    unfolding execute destroy
    execute-Owns (construct_empty this) mem values owns legal =
        (construct this mem, refl, construct-Owns m this mem values owns legal)
    execute-Owns (construct_copy this rhs) mem values owns (new, (w, live)) =
        copy_construct-Owns this rhs w mem values owns new live
    execute-Owns (assign_copy this rhs) mem values owns ((v, live), (w, live')) =
        copy_assign-Owns this rhs v w mem values owns live live'
    execute-Owns (construct_move this rhs) mem values owns (new, (w, live)) =
        move_construct-Owns m this rhs w mem values owns new live
    execute-Owns (assign_move this rhs) mem values owns ((v, live), (w, live')) =
        move_assign-Owns m this rhs v w mem values owns live live'
    execute-Owns (delete_object this) mem values owns (v, live) =
        let (p, e, _) = live-object m this v mem values owns live in
        let d = delete-Deleted m this p mem values owns e in
        (end_object this d.after, rw (e, d.ran) refl, d.owns)

    -- Where `new` gives an address that is not live, and every live object owns an array of its own
    -- or none: every sequence of constructions, copies, moves, assignments and destructions that uses
    -- objects only while they are live runs without a use of an array or a second `delete[]` after it
    -- was freed, keeps the ownership, so that no array is left without an object, and gives the
    -- objects the values it says; an object may be assigned to itself.
    pub execute_all-Owns :
        (cs : List Command) (mem : Memory) (values : ℕ → Option Status)
        → Owns m mem values
        → AreLegal cs values
        → (after : Memory) × (execute_all m new_array cs mem ≡ some after)
          × Owns m after (apply_all cs values)
    execute_all-Owns [] mem values owns legal = (mem, refl, owns)
    execute_all-Owns (c ∷ cs) mem values owns legal =
        let (next, e, owns') = execute-Owns c mem values owns legal.0 in
        let (after, e', owns'') = execute_all-Owns cs next (apply c values) owns' legal.1 in
        (after, rw e e', owns'')
