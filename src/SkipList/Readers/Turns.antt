-- ===== src/SkipList/Readers/Turns.antt =====
-- What holds while one thread links a node of src/database/skiplist.h and another one reads.
use distributed_kvstorage.Common.{
  ℕ, suc, ◌-◌, ◌≤◌, ◌<◌, ◌≡◌, refl, subst, Bool, true, false, Option, some, none, List, [], ◌∷◌,
  arith, ◌>>=◌,
}
use native.Mathlib.Decide.{dec_lt}
use distributed_kvstorage.SkipList.{SkipList, Prev, update_cell, get_prev, set_next, link}
use distributed_kvstorage.SkipList.Chains.{at_level, head_of, Chain, Chain-at_last}
use distributed_kvstorage.SkipList.Link.{
  IsNew, IsLinkedTo, level-out, own-IsLinkedTo, publish-IsLinkedTo,
}
use distributed_kvstorage.SkipList.Insert.{with_nexts, predecessor}
use distributed_kvstorage.SkipList.Readers.{
  link_own, link_publish, Shared, Turn, writer_turn, reader_turn, writer_step, take_turn,
  take_turns,
}

-- The two statements in a row are the body of the loop.
link-halves :
    {K : Type 0} (s : SkipList K) (x i : ℕ) (prev : Prev)
    → link s x i prev ≡ (link_own s x i prev >>= λ t. link_publish t x i prev)
unfolding link link_own link_publish
link-halves s x i prev = with_entry (get_prev prev i) refl
  where
    with_next :
        (p : ℕ) (n : Option (Option ℕ))
        → get_prev prev i ≡ some p
        → s.nexts p i ≡ n
        → link s x i prev ≡ (link_own s x i prev >>= λ t. link_publish t x i prev)
    with_next p none e f = rw (e, f) refl
    with_next p (some n) e f = rw (e, f) refl

    with_entry :
        (o : Option ℕ)
        → get_prev prev i ≡ o
        → link s x i prev ≡ (link_own s x i prev >>= λ t. link_publish t x i prev)
    with_entry none e = rw e refl
    with_entry (some p) e = with_next p (s.nexts p i) e refl

-- How often the search has its turn.
abbrev pub reader_turns : List Turn → ℕ
reader_turns [] = 0
reader_turns (writer_turn ∷ ts) = reader_turns ts
reader_turns (reader_turn ∷ ts) = suc (reader_turns ts)

-- The facts that do not change: the new node `x` goes between `ls` and `rs`.
module _ {K R : Type 0} (s : SkipList K) (h : ℕ → ℕ) (x : ℕ) (ls rs : List ℕ)
    (new : IsNew s.head x ls rs) (look : SkipList K → R → Option R) where
  -- What a reader keeps: `m` levels of the node are linked, and `n` bounds its turns.
  pub record IsReader (Knows : (m n : ℕ) → R → Type 0) : Type 0 where
    pub grow : (m n : ℕ) (r : R) → Knows m n r → Knows (suc m) n r
    pub turn :
        (nexts : ℕ → ℕ → Option (Option ℕ)) (m n : ℕ) (r : R)
        → IsLinkedTo h s.head x ls rs new nexts m
        → Knows m n r
        → (r' : R) × (look (with_nexts s h x ls rs new nexts) r ≡ some r') × Knows m (n - 1) r'

  abbrev pub state : (nexts : ℕ → ℕ → Option (Option ℕ)) → ℕ → Bool → R → Shared K R
  state nexts m own r = record {
    list = with_nexts s h x ls rs new nexts;
    level = m;
    has_own = own;
    reader = r;
  }

  abbrev Written : (ℕ → ℕ → Option (Option ℕ)) → ℕ → Bool → Type 0
  Written nexts m true = nexts x m ≡ some (head_of (at_level h m rs))
  Written nexts m false = Unit {0}

  module _ (Knows : (m n : ℕ) → R → Type 0) where
    -- What holds between the turns.
    pub record Holds (n : ℕ) (nexts : ℕ → ℕ → Option (Option ℕ)) (m : ℕ) (own : Bool) (r : R)
        : Type 0 where
      pub linked : IsLinkedTo h s.head x ls rs new nexts m
      pub written : Written nexts m own
      pub knows : Knows m n r

    -- What holds after some turns.
    abbrev pub Then : ℕ → Option (Shared K R) → Type 0
    Then n result =
        (nexts : ℕ → ℕ → Option (Option ℕ)) × (m : ℕ) × (own : Bool) × (r : R) × (result
          ≡ some (state nexts m own r))
        × Holds n nexts m own r

    module _ (is : IsReader Knows) (height : ℕ) (prev : Prev) (small : height ≤ 12)
        (room : height ≤ s.sizes x)
        (entries : (i : ℕ)
          → i < height
          → (i < s.sizes (predecessor s h x ls rs new i))
            × (get_prev prev i ≡ some (predecessor s h x ls rs new i))) where
      abbrev taken : Turn → Shared K R → Option (Shared K R)
      taken = take_turn look x height prev

      reader-Then :
          (n : ℕ) (nexts : ℕ → ℕ → Option (Option ℕ)) (m : ℕ) (own : Bool) (r : R)
          → Holds n nexts m own r
          → Then (n - 1) (taken reader_turn (state nexts m own r))
      unfolding take_turn
      reader-Then n nexts m own r holds =
          let (r', e, knows) = is.turn nexts m n r holds.linked holds.knows in
          (
            nexts,
            m,
            own,
            r',
            rw e refl,
            record { linked = holds.linked; written = holds.written; knows = knows },
          )

      own-Then :
          (n : ℕ) (nexts : ℕ → ℕ → Option (Option ℕ)) (m : ℕ) (r : R)
          → m < height
          → Holds n nexts m false r
          → Then n (taken writer_turn (state nexts m false r))
      unfolding take_turn writer_step link_own set_next
      own-Then n nexts m r lt holds =
          let (tall, entry) = entries m lt in
          let next = some (head_of (at_level h m rs)) in
          let read_next : nexts (predecessor s h x ls rs new m) m ≡ next =
            Chain-at_last nexts m s.head (at_level h m ls) (at_level h m rs) (
              subst (Chain nexts m s.head) (level-out h s.head x ls rs new m m (omega arith))
                (holds.linked m (omega arith))) in
          (
            update_cell nexts x m next,
            m,
            true,
            r,
            rw (entry, read_next) (ground arith),
            record {
              linked = own-IsLinkedTo h s.head x ls rs new nexts m next holds.linked;
              written = ground arith;
              knows = holds.knows;
            },
          )

      publish-Then :
          (n : ℕ) (nexts : ℕ → ℕ → Option (Option ℕ)) (m : ℕ) (r : R)
          → m < height
          → Holds n nexts m true r
          → Then n (taken writer_turn (state nexts m true r))
      unfolding take_turn writer_step link_publish set_next
      publish-Then n nexts m r lt holds =
          let (tall, entry) = entries m lt in
          (
            update_cell nexts (predecessor s h x ls rs new m) m (some (some x)),
            suc m,
            false,
            r,
            rw entry (ground arith),
            record {
              linked =
                  publish-IsLinkedTo h s.head x ls rs new nexts m (omega arith) holds.linked
                    holds.written;
              written = tt;
              knows = is.grow m n r holds.knows;
            },
          )

      idle-Then :
          (n : ℕ) (nexts : ℕ → ℕ → Option (Option ℕ)) (m : ℕ) (own : Bool) (r : R)
          → height ≤ m
          → Holds n nexts m own r
          → Then n (taken writer_turn (state nexts m own r))
      unfolding take_turn writer_step
      idle-Then n nexts m own r le holds = (nexts, m, own, r, ground arith, holds)

      writer-Then :
          (n : ℕ) (nexts : ℕ → ℕ → Option (Option ℕ)) (m : ℕ) (own : Bool) (r : R)
          → Holds n nexts m own r
          → Then n (taken writer_turn (state nexts m own r))
      writer-Then n nexts m own r holds = elim (dec_lt m height) [
        | no le ↦ idle-Then n nexts m own r (omega arith) holds
        | yes lt ↦ left own lt holds
      ]
        where
          left :
              (own : Bool)
              → m < height
              → Holds n nexts m own r
              → Then n (taken writer_turn (state nexts m own r))
          left false lt holds = own-Then n nexts m r lt holds
          left true lt holds = publish-Then n nexts m r lt holds

      -- After any turns the levels are linked, and the reader knows what it should.
      pub turns-Then :
          (ts : List Turn) (n : ℕ) (nexts : ℕ → ℕ → Option (Option ℕ)) (m : ℕ) (own : Bool) (r : R)
          → Holds n nexts m own r
          → Then (n - reader_turns ts) (take_turns look x height prev ts (state nexts m own r))
      unfolding take_turns
      turns-Then [] n nexts m own r holds =
          subst (λ k. Then k (some (state nexts m own r))) (omega arith)
            (nexts, m, own, r, refl, holds)
      turns-Then (writer_turn ∷ ts) n nexts m own r holds =
          let (nexts', m', own', r', e, holds') = writer-Then n nexts m own r holds in
          rw e (turns-Then ts n nexts' m' own' r' holds')
      turns-Then (reader_turn ∷ ts) n nexts m own r holds =
          let (nexts', m', own', r', e, holds') = reader-Then n nexts m own r holds in
          rw e (
            subst (λ k. Then k (take_turns look x height prev ts (state nexts' m' own' r')))
              (omega arith) (turns-Then ts (n - 1) nexts' m' own' r' holds'))
