-- ===== src/Status/Objects/Moves.antt =====
-- A move leaves every array with one owner.
use distributed_kvstorage.Common.{ℕ, ◌≡◌, refl, Option, none, some, arith}
use native.Mathlib.Decide.{ℕ_discrete}
use distributed_kvstorage.Status.{Machine, Status}
use distributed_kvstorage.Status.Objects.{Memory, put, set_state, move_construct, move_assign}
use distributed_kvstorage.Status.Objects.Owners.{Owns, live-object}

module _ (m : Machine) where
  pub move_assign-Owns :
      (this rhs : ℕ) (v w : Status) (mem : Memory) (values : ℕ → Option Status)
      → Owns m mem values
      → values this ≡ some v
      → values rhs ≡ some w
      → (after : Memory) × (move_assign this rhs mem ≡ some after)
        × Owns m after (put (put values this (values rhs)) rhs (values this))
  unfolding move_assign
  move_assign-Owns this rhs v w mem values owns live live' =
      let (p, e, shows) = live-object m this v mem values owns live in
      let (q, e', shows') = live-object m rhs w mem values owns live' in
      (
        set_state rhs p (set_state this q mem),
        rw (e, e') refl,
        record {
          held = λ o. ground (arith, e, e', live, live', shows, shows', owns.held o);
          apart = λ o o' r at at'. ground (
            arith,
            e,
            e',
            owns.apart o o' r,
            owns.apart this o r,
            owns.apart rhs o r,
            owns.apart this o' r,
            owns.apart rhs o' r,
            owns.apart this rhs r,
          );
          used = λ r bytes at.
              let (o, own) = owns.used r bytes at in
              elim (ℕ_discrete o this) [
                | yes same ↦ (rhs, ground (arith, e, e', own, same))
                | no other ↦ elim (ℕ_discrete o rhs) [
                  | yes same ↦ (this, ground (arith, e, e', own, same, other))
                  | no neither ↦ (o, ground (arith, own, other, neither))
                ]
              ];
        },
      )

  pub move_construct-Owns :
      (this rhs : ℕ) (w : Status) (mem : Memory) (values : ℕ → Option Status)
      → Owns m mem values
      → values this ≡ none
      → values rhs ≡ some w
      → (after : Memory) × (move_construct this rhs mem ≡ some after)
        × Owns m after (put (put values this (values rhs)) rhs (some none))
  unfolding move_construct
  move_construct-Owns this rhs w mem values owns new live =
      let (q, e, shows) = live-object m rhs w mem values owns live in
      (
        set_state rhs none (set_state this q mem),
        rw e refl,
        record {
          held = λ o. ground (arith, e, live, new, shows, owns.held o);
          apart = λ o o' r at at'.
              ground (arith, e, owns.apart o o' r, owns.apart rhs o r, owns.apart rhs o' r);
          used = λ r bytes at.
              let (o, own) = owns.used r bytes at in
              elim (ℕ_discrete o rhs) [
                | yes same ↦ (this, ground (arith, e, own, same, new, live))
                | no other ↦ (o, ground (arith, own, other, new, owns.held this))
              ];
        },
      )
