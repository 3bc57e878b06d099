-- ===== src/Status/Objects/Owners.antt =====
-- When every array has one owner, and that `delete[]` keeps it so.
use distributed_kvstorage.Common.{
  ℕ, ◌≡◌, ◌≢◌, [], ◌∷◌, Option-cases, inl, inr, refl, sym, ap, ◌∙◌, false, Option, none, some, List,
  arith,
}
use distributed_kvstorage.Status.{Machine, Status, copy_state}
use distributed_kvstorage.Status.Objects.{
  Memory, find_array, remove_array, put, same_pointer, delete_array, end_object, construct,
}
use native.Mathlib.Decide.{ℕ_discrete}

module _ (m : Machine) where
  -- What stands at an object's address: no object, one that holds nullptr, or one that holds a live
  -- array that `copyState` copies whole.
  abbrev pub Shows : List (ℕ × List ℕ) → Option (Option ℕ) → Option Status → Type 0
  Shows arrays none value = value ≡ none
  Shows arrays (some none) value = value ≡ some none
  Shows arrays (some (some p)) value =
      (bytes : List ℕ) × (find_array arrays p ≡ some bytes)
      × (value ≡ some (some bytes))
      × (copy_state m bytes ≡ some bytes)

  -- The live objects have these values, no two of them share an array, and no array is without one.
  pub record Owns (mem : Memory) (values : ℕ → Option Status) : Type 0 where
    pub held : (o : ℕ) → Shows mem.arrays (mem.objects o) (values o)
    pub apart :
        (o o' p : ℕ) → mem.objects o ≡ some (some p) → mem.objects o' ≡ some (some p) → o ≡ o'
    pub used :
        (p : ℕ) (bytes : List ℕ)
        → find_array mem.arrays p ≡ some bytes
        → (o : ℕ) × (mem.objects o ≡ some (some p))

  -- A live object has a pointer that shows its value.
  pub live-object :
      (o : ℕ) (v : Status) (mem : Memory) (values : ℕ → Option Status)
      → Owns mem values
      → values o ≡ some v
      → (p : Option ℕ) × (mem.objects o ≡ some p) × Shows mem.arrays (some p) (some v)
  live-object o v mem values owns live = elim (Option-cases (mem.objects o)) [
    | inl dead ↦ absurd (ground (arith, dead, live, owns.held o))
    | inr (p, e) ↦ (p, e, ground (arith, e, live, owns.held o))
  ]

  pub construct-Owns :
      (this : ℕ) (mem : Memory) (values : ℕ → Option Status)
      → Owns mem values
      → values this ≡ none
      → Owns (construct this mem) (put values this (some none))
  unfolding construct
  construct-Owns this mem values owns new = record {
    held = λ o. ground (arith, owns.held o);
    apart = λ o o' p e e'. ground (arith, owns.apart o o' p);
    used = λ p bytes e.
        let (o, at) = owns.used p bytes e in (o, ground (arith, at, new, owns.held this));
  }

  find_array-remove :
      (q p : ℕ) (arrays : List (ℕ × List ℕ))
      → q ≢ p
      → find_array (remove_array q arrays) p ≡ find_array arrays p
  find_array-remove q p [] other = refl
  find_array-remove q p ((r, bytes) ∷ rest) other = ground (arith, find_array-remove q p rest)

  find_array-removed :
      (q : ℕ) (arrays : List (ℕ × List ℕ)) → find_array (remove_array q arrays) q ≡ none
  find_array-removed q [] = refl
  find_array-removed q ((r, bytes) ∷ rest) = ground (arith, find_array-removed q rest)

  -- A pointer to another array shows the same after one is deleted.
  Shows-remove :
      (q : ℕ) (p : Option (Option ℕ)) (arrays : List (ℕ × List ℕ)) (value : Option Status)
      → p ≢ some (some q)
      → Shows arrays p value
      → Shows (remove_array q arrays) p value
  Shows-remove q none arrays value other shows = shows
  Shows-remove q (some none) arrays value other shows = shows
  Shows-remove q (some (some p)) arrays value other (bytes, live, held, whole) = (
    bytes,
    find_array-remove q p arrays (λ e. other (ap (λ t. some (some t)) (sym e))) ∙ live,
    held,
    whole,
  )

  -- An object without an array may be forgotten.
  pub ended-Owns :
      (this : ℕ) (mem : Memory) (values : ℕ → Option Status)
      → Owns mem values
      → ((p : ℕ) → mem.objects this ≢ some (some p))
      → Owns (end_object this mem) (put values this none)
  ended-Owns this mem values owns nothing = record {
    held = λ o. ground (arith, owns.held o);
    apart = λ o o' p e e'. ground (arith, owns.apart o o' p);
    used = λ p bytes e. let (o, at) = owns.used p bytes e in (o, ground (arith, at, nothing p));
  }

  -- The memory without an array.
  abbrev without : ℕ → Memory → Memory
  without q mem = record mem { arrays = remove_array q mem.arrays }

  -- An object's array is deleted: the others keep theirs.
  without-Owns :
      (this q : ℕ) (mem : Memory) (values : ℕ → Option Status)
      → Owns mem values
      → mem.objects this ≡ some (some q)
      → Owns (end_object this (without q mem)) (put values this none)
  without-Owns this q mem values owns e = record {
    held = λ o. elim (ℕ_discrete this o) [
      | yes same ↦ ground (arith, same)
      | no other ↦ ground (
        arith,
        other,
        Shows-remove q (mem.objects o) mem.arrays (values o)
            (λ at. other (owns.apart this o q e at)) (owns.held o),
      )
    ];
    apart = λ o o' p e e'. ground (arith, owns.apart o o' p);
    used = λ p bytes live. elim (ℕ_discrete q p) [
      | yes same ↦ absurd (ground (arith, same, live, find_array-removed q mem.arrays))
      | no other ↦
          let (o, at) = owns.used p bytes (sym (find_array-remove q p mem.arrays other) ∙ live) in
          (o, ground (arith, at, e, other))
    ];
  }

  -- The memory after `delete[] state_` of an object with this pointer, and without the object.
  pub record Deleted (this : ℕ) (p : Option ℕ) (mem : Memory) (values : ℕ → Option Status)
      : Type 0 where
    pub after : Memory
    pub ran : delete_array p mem ≡ some after
    pub owns : Owns (end_object this after) (put values this none)
    pub others :
        (o : ℕ) (q : Option ℕ)
        → mem.objects o ≡ some q
        → same_pointer p q ≡ false
        → Shows after.arrays (some q) (values o)

  pub delete-Deleted :
      (this : ℕ) (p : Option ℕ) (mem : Memory) (values : ℕ → Option Status)
      → Owns mem values
      → mem.objects this ≡ some p
      → Deleted this p mem values
  unfolding delete_array
  delete-Deleted this none mem values owns at = record {
    after = mem;
    ran = refl;
    owns = ended-Owns this mem values owns (λ p e. ground (arith, at, e));
    others = λ o q e different. ground (arith, e, owns.held o);
  }
  delete-Deleted this (some r) mem values owns at = record {
    after = without r mem;
    ran = ground (arith, at, owns.held this);
    owns = without-Owns this r mem values owns at;
    others = λ o q e different.
        Shows-remove r (some q) mem.arrays (values o) (λ same. ground (arith, same, different))
          (ground (arith, e, owns.held o));
  }
