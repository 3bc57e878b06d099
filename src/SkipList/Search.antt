-- ===== src/SkipList/Search.antt =====
-- The searches from the head: `findGreateOrEqual`, `findLessThan` and `findLast`.
use distributed_kvstorage.Common.{
  ℕ, zero, suc, ◌+◌, ◌<◌, ◌≡◌, refl, sym, ap, ap₂, ◌∙◌, subst, Option, some, List, [], ◌∷◌, ◌++◌,
  append_assoc, All, All-part, length, length-append, arith, inl, inr,
}
use distributed_kvstorage.SkipList.{SkipList, Prev, Place, Round, go, done, rounds}
use distributed_kvstorage.SkipList.Chains.{
  at_level, All-at_level, last_or, head_of, IsLinked, IsLinked-step, at_level-zero, find_first,
}
use distributed_kvstorage.SkipList.Tasks.{
  last_or-append, next-down, next-forward, place, rounds-go, rounds-done, Task, IsSearch, noted,
  noted-step,
}

module _ {K : Type 0} {A : Type 0} (s : SkipList K) (h : ℕ → ℕ) (round : Place → Option (Round A))
    (task : Task A) (Go Stop Here : ℕ → Type 0) (laws : IsSearch s round task Go Stop Here) where
  -- The facts that the recursion carries: `ls` is gone over and `rs` is not.
  pub record IsReady (level x : ℕ) (ls rs : List ℕ) : Type 0 where
    pub linked : IsLinked s.nexts h (suc level) x (ls ++ rs)
    pub on : All Go ls
    pub off : All Stop rs
    pub linked_once : All (λ n. 0 < h n) (ls ++ rs)
    pub here : Here x

  IsReady-forward :
      (level x : ℕ) (us : List ℕ) (y : ℕ) (vs rs : List ℕ)
      → IsReady level x (us ++ (y ∷ vs)) rs
      → level < h y
      → IsReady level y vs rs
  IsReady-forward level x us y vs rs r tall =
      let e : (us ++ (y ∷ vs)) ++ rs ≡ us ++ (y ∷ (vs ++ rs)) = append_assoc us (y ∷ vs) rs in
      let (_, on) = All-part Go us (y ∷ vs) r.on in
      let (_, pos) =
        All-part (λ n. 0 < h n) us (y ∷ (vs ++ rs)) (subst (All (λ n. 0 < h n)) e r.linked_once) in
      record {
        linked =
            IsLinked-step s.nexts h level x us y (vs ++ rs)
              (subst (IsLinked s.nexts h (suc level) x) e r.linked) tall;
        on = on.1;
        off = r.off;
        linked_once = pos.1;
        here = laws.arrive y on.0;
      }

  round-forward :
      (level x : ℕ) (prev : Prev) (us : List ℕ) (y : ℕ) (vs rs : List ℕ)
      → IsReady level x (us ++ (y ∷ vs)) rs
      → level < h y
      → at_level h level us ≡ []
      → round (place x level prev) ≡ some (go (place y level prev))
  round-forward level x prev us y vs rs r tall nothing =
      let e : (us ++ (y ∷ vs)) ++ rs ≡ us ++ (y ∷ (vs ++ rs)) = append_assoc us (y ∷ vs) rs in
      laws.forward x level y prev r.here
        (next-forward s h level x us y (vs ++ rs)
          (subst (IsLinked s.nexts h (suc level) x) e r.linked) tall nothing)
        (All-part Go us (y ∷ vs) r.on).1.0

  next-stop :
      (level x : ℕ) (ls rs : List ℕ)
      → IsReady level x ls rs
      → at_level h level ls ≡ []
      → s.nexts x level ≡ some (head_of (at_level h level rs))
  next-stop level x ls rs r nothing = next-down s h level x ls rs r.linked nothing

  -- What a search gives.
  abbrev outcome : (level x : ℕ) → Prev → (ls rs : List ℕ) → A
  outcome level x prev ls rs =
      task.answer (head_of rs) (noted h task.note level prev x ls) (last_or x ls)

  outcome-forward :
      (level x : ℕ) (prev : Prev) (us : List ℕ) (y : ℕ) (vs rs : List ℕ)
      → level < h y
      → outcome level y prev vs rs ≡ outcome level x prev (us ++ (y ∷ vs)) rs
  outcome-forward level x prev us y vs rs tall =
      ap₂ (λ p l. task.answer (head_of rs) p l)
        (sym (noted-step h task.note level prev x us y vs tall)) (sym (last_or-append x us y vs))

  -- At level 0 nothing is left to go over.
  finished :
      (x : ℕ) (prev : Prev) (ls rs : List ℕ)
      → IsReady 0 x ls rs
      → at_level h 0 ls ≡ []
      → round (place x 0 prev) ≡ some (done (outcome 0 x prev ls rs))
  finished x prev ls rs r nothing =
      let pos = All-part (λ n. 0 < h n) ls rs r.linked_once in
      let none_left : ls ≡ [] = sym (at_level-zero h ls pos.0) ∙ nothing in
      laws.finish x prev rs r.here
        (next-stop 0 x ls rs r nothing ∙ ap (λ t. some (head_of t)) (at_level-zero h rs pos.1))
        r.off
      ∙ subst (λ t. some (done (outcome 0 x prev [] rs)) ≡ some (done (outcome 0 x prev t rs)))
          (sym none_left) refl

  -- The turn to the level below, given the rest of the search.
  down-case :
      (fuel level x : ℕ) (prev : Prev) (ls rs : List ℕ)
      → IsReady level x ls rs
      → length ls + level < suc fuel
      → at_level h level ls ≡ []
      → ((level x : ℕ) (prev : Prev) (ls rs : List ℕ)
          → IsReady level x ls rs
          → length ls + level < fuel
          → rounds round fuel (place x level prev) ≡ some (outcome level x prev ls rs))
      → rounds round (suc fuel) (place x level prev) ≡ some (outcome level x prev ls rs)
  down-case fuel zero x prev ls rs r enough nothing later =
      rounds-done round fuel _ (outcome 0 x prev ls rs) (finished x prev ls rs r nothing)
  down-case fuel (suc level) x prev ls rs r enough nothing later =
      let prev' = task.note prev (suc level) x in
      rounds-go round fuel _ (place x level prev') (
        laws.down x level prev (at_level h (suc level) rs) r.here
          (next-stop (suc level) x ls rs r nothing) (All-at_level Stop h (suc level) rs r.off))
      ∙ later level x prev' ls rs
          (record {
            linked = λ i le. r.linked i (omega arith);
            on = r.on;
            off = r.off;
            linked_once = r.linked_once;
            here = r.here;
          })
          (omega arith)
      ∙ subst
          (λ t.
            some (outcome level x (task.note prev (suc level) (last_or x t)) ls rs)
            ≡ some (outcome (suc level) x prev ls rs))
          nothing refl

  -- With more fuel than nodes to pass and levels to go down, a search ends. It ends between the nodes
  -- `ls` to go on at and the nodes `rs` to stop at.
  pub search-rounds :
      (fuel level x : ℕ) (prev : Prev) (ls rs : List ℕ)
      → IsReady level x ls rs
      → length ls + level < fuel
      → rounds round fuel (place x level prev) ≡ some (outcome level x prev ls rs)
  search-rounds zero level x prev ls rs r enough = elim enough [ ]
  search-rounds (suc fuel) level x prev ls rs r enough = elim (find_first h level ls) [
    | inl nothing ↦ down-case fuel level x prev ls rs r enough nothing (search-rounds fuel)
    | inr f ↦
        let r' : IsReady level x (f.skipped ++ (f.node ∷ f.rest)) rs =
          subst (λ t. IsReady level x t rs) f.whole r in
        subst (λ t. rounds round (suc fuel) (place x level prev) ≡ some (outcome level x prev t rs))
          (sym f.whole)
          (rounds-go round fuel _ (place f.node level prev) (
              round-forward level x prev f.skipped f.node f.rest rs r' f.tall
                (f.low level (omega arith)))
            ∙ search-rounds fuel level f.node prev f.rest rs
                (IsReady-forward level x f.skipped f.node f.rest rs r' f.tall)
                (omega (arith, ap length f.whole, length-append f.skipped (f.node ∷ f.rest)))
            ∙ ap some (outcome-forward level x prev f.skipped f.node f.rest rs f.tall))
  ]
