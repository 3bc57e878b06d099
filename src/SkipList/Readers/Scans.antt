-- ===== src/SkipList/Readers/Scans.antt =====
-- An iterator of src/database/skiplist.h that goes through a list while another thread links a node.
use distributed_kvstorage.Common.{
  ℕ, zero, suc, ◌+◌, ◌-◌, ◌≤◌, ◌<◌, ◌≡◌, refl, sym, ap, ◌∙◌, subst, Option, some, none, List, [],
  ◌∷◌, ◌++◌, append_assoc, append-nil, All, length, arith, ◌⊎◌, inl, inr,
}
use distributed_kvstorage.SkipList.{SkipList}
use distributed_kvstorage.SkipList.Chains.{head_of, Chain, Chain-first, Chain-after}
use distributed_kvstorage.SkipList.Link.{IsNew, IsLinkedTo}
use distributed_kvstorage.SkipList.Insert.{with_nexts}
use distributed_kvstorage.SkipList.State.{keys_of}
use distributed_kvstorage.SkipList.Iterator.{Iterator, valid, key, next, seek_to_first}
use distributed_kvstorage.SkipList.Readers.{Scan, begin, walk, scan_step}
use distributed_kvstorage.SkipList.Readers.Visible.{visible-before, visible-after}
use distributed_kvstorage.SkipList.Readers.Turns.{IsReader}

keys_of-append :
    {K : Type 0} (keys : ℕ → K) (us vs : List ℕ)
    → keys_of keys (us ++ vs) ≡ keys_of keys us ++ keys_of keys vs
keys_of-append keys [] vs = refl
keys_of-append keys (u ∷ us) vs = ap (λ t. keys u ∷ t) (keys_of-append keys us vs)

module _ {K : Type 0} (s : SkipList K) (h : ℕ → ℕ) (x : ℕ) (ls rs : List ℕ)
    (new : IsNew s.head x ls rs) (pos : All (λ n. 0 < h n) (ls ++ rs)) where
  -- The nodes on the scan's way, where `m` levels of the new node are linked.
  abbrev tail : ℕ → List ℕ
  tail zero = rs
  tail (suc m) = x ∷ rs

  abbrev visible : ℕ → List ℕ
  visible m = ls ++ tail m

  linked_visible :
      (nexts : ℕ → ℕ → Option (Option ℕ)) (m : ℕ)
      → IsLinkedTo h s.head x ls rs new nexts m
      → Chain nexts 0 s.head (visible m)
  linked_visible nexts zero linked =
      subst (Chain nexts 0 s.head) (visible-before h s.head x ls rs new pos)
        (linked 0 (omega arith))
  linked_visible nexts (suc m) linked =
      subst (Chain nexts 0 s.head) (visible-after h s.head x ls rs new pos m)
        (linked 0 (omega arith))

  -- Where the scan stands, with what it saw: in front of the new node's place, or behind it on one of
  -- the two ways. `n` bounds the steps that are left.
  pub data Sees (m n : ℕ) (node : Option ℕ) (seen : List K) : Type 0 where
    in_front :
        (us : List ℕ) (u : ℕ) (ws : List ℕ)
        → ls ≡ us ++ (u ∷ ws)
        → node ≡ some u
        → seen ≡ keys_of s.keys us
        → length ws + length rs + 2 ≤ n
        → Sees m n node seen
    past_with :
        (us ws : List ℕ)
        → x ∷ rs ≡ us ++ ws
        → node ≡ head_of ws
        → seen ≡ keys_of s.keys (ls ++ us)
        → length ws ≤ n
        → 0 < m
        → Sees m n node seen
    past_without :
        (us ws : List ℕ)
        → rs ≡ us ++ ws
        → node ≡ head_of ws
        → seen ≡ keys_of s.keys (ls ++ us)
        → length ws ≤ n
        → Sees m n node seen

  abbrev pub Knows : (m n : ℕ) → Scan K → Type 0
  Knows m n begin = length ls + length rs + 2 ≤ n
  Knows m n (walk it seen) = Sees m n it.node seen

  Sees-grow :
      (m n : ℕ) (node : Option ℕ) (seen : List K) → Sees m n node seen → Sees (suc m) n node seen
  Sees-grow m n x seen (in_front us u ws e f g b) = in_front us u ws e f g b
  Sees-grow m n x seen (past_with us ws e f g b p) = past_with us ws e f g b (omega arith)
  Sees-grow m n x seen (past_without us ws e f g b) = past_without us ws e f g b

  -- What is loaded behind `us`, where the rest of the nodes in front is `ws`.
  Sees-after :
      (m n : ℕ) (us ws : List ℕ) (next : Option ℕ)
      → ls ≡ us ++ ws
      → next ≡ head_of (ws ++ tail m)
      → length ws + length rs + 1 ≤ n
      → Sees m n next (keys_of s.keys us)
  Sees-after m n us (u ∷ ws) next e f b = in_front us u ws e f refl (omega arith)
  Sees-after zero n us [] next e f b =
      past_without [] rs refl f (ap (keys_of s.keys) (all us e)) (omega arith)
    where
      all : (us : List ℕ) → ls ≡ us ++ [] → us ≡ ls ++ []
      all us e = sym (append-nil us) ∙ sym e ∙ sym (append-nil ls)
  Sees-after (suc m) n us [] next e f b =
      past_with [] (x ∷ rs) refl f (ap (keys_of s.keys) (all us e)) (omega arith) (omega arith)
    where
      all : (us : List ℕ) → ls ≡ us ++ [] → us ≡ ls ++ []
      all us e = sym (append-nil us) ∙ sym e ∙ sym (append-nil ls)

  seen_more :
      (us : List ℕ) (w : ℕ) (seen : List K)
      → seen ≡ keys_of s.keys us
      → seen ++ (s.keys w ∷ []) ≡ keys_of s.keys (us ++ (w ∷ []))
  seen_more us w seen e = ap (λ t. t ++ (s.keys w ∷ [])) e ∙ sym (keys_of-append s.keys us (w ∷ []))

  seen_past :
      (us : List ℕ) (w : ℕ) (seen : List K)
      → seen ≡ keys_of s.keys (ls ++ us)
      → seen ++ (s.keys w ∷ []) ≡ keys_of s.keys (ls ++ (us ++ (w ∷ [])))
  seen_past us w seen e =
      seen_more (ls ++ us) w seen e ∙ ap (keys_of s.keys) (append_assoc ls us (w ∷ []))

  tail_with : (m : ℕ) → 0 < m → tail m ≡ x ∷ rs
  tail_with zero p = absurd (omega arith)
  tail_with (suc m) p = refl

  -- A node behind the place of the new one, on either way.
  without_split :
      (m : ℕ) (us : List ℕ) (w : ℕ) (ws : List ℕ)
      → rs ≡ us ++ (w ∷ ws)
      → (as' : List ℕ) × (visible m ≡ as' ++ (w ∷ ws))
  without_split zero us w ws e = (ls ++ us, ap (λ t. ls ++ t) e ∙ sym (append_assoc ls us (w ∷ ws)))
  without_split (suc m) us w ws e =
      (ls ++ (x ∷ us), ap (λ t. ls ++ (x ∷ t)) e ∙ sym (append_assoc ls (x ∷ us) (w ∷ ws)))

  module _ (nexts : ℕ → ℕ → Option (Option ℕ)) (m : ℕ)
      (linked : Chain nexts 0 s.head (visible m)) where
    abbrev here : SkipList K
    here = with_nexts s h x ls rs new nexts

    abbrev Next : (n : ℕ) → Scan K → Type 0
    Next n r = (r' : Scan K) × (scan_step here r ≡ some r') × Knows m (n - 1) r'

    step :
        (it : Iterator) (seen : List K) (as' : List ℕ) (w : ℕ) (bs : List ℕ)
        → it.node ≡ some w
        → visible m ≡ as' ++ (w ∷ bs)
        → scan_step here (walk it seen)
          ≡ some (walk (record { node = head_of bs }) (seen ++ (s.keys w ∷ [])))
    unfolding scan_step valid key next
    step it seen as' w bs e f =
        rw
          (
            e,
            Chain-first nexts 0 w bs
                (Chain-after nexts 0 s.head as' w bs (subst (Chain nexts 0 s.head) f linked)),
          )
          refl

    stop :
        (it : Iterator) (seen : List K)
        → it.node ≡ none
        → scan_step here (walk it seen) ≡ some (walk it seen)
    unfolding scan_step valid
    stop it seen e = rw e refl

    walk-turn :
        (n : ℕ) (it : Iterator) (seen : List K) → Sees m n it.node seen → Next n (walk it seen)
    walk-turn n it seen (in_front us u ws e f g b) = (
      walk (record { node = head_of (ws ++ tail m) }) (seen ++ (s.keys u ∷ [])),
      step it seen us u (ws ++ tail m) f
          (ap (λ t. t ++ tail m) e ∙ append_assoc us (u ∷ ws) (tail m)),
      subst (Sees m (n - 1) (head_of (ws ++ tail m))) (sym (seen_more us u seen g)) (
          Sees-after m (n - 1) (us ++ (u ∷ [])) ws (head_of (ws ++ tail m))
            (e ∙ sym (append_assoc us (u ∷ []) ws)) refl (omega arith)),
    )
    walk-turn n it seen (past_with us [] e f g b p) =
        (walk it seen, stop it seen f, past_with us [] e f g (omega arith) p)
    walk-turn n it seen (past_with us (w ∷ ws) e f g b p) = (
      walk (record { node = head_of ws }) (seen ++ (s.keys w ∷ [])),
      step it seen (ls ++ us) w ws f
          (ap (λ t. ls ++ t) (tail_with m p ∙ e) ∙ sym (append_assoc ls us (w ∷ ws))),
      past_with (us ++ (w ∷ [])) ws (e ∙ sym (append_assoc us (w ∷ []) ws)) refl
          (seen_past us w seen g) (omega arith) p,
    )
    walk-turn n it seen (past_without us [] e f g b) =
        (walk it seen, stop it seen f, past_without us [] e f g (omega arith))
    walk-turn n it seen (past_without us (w ∷ ws) e f g b) =
        let (as', split) = without_split m us w ws e in
        (
          walk (record { node = head_of ws }) (seen ++ (s.keys w ∷ [])),
          step it seen as' w ws f split,
          past_without (us ++ (w ∷ [])) ws (e ∙ sym (append_assoc us (w ∷ []) ws)) refl
              (seen_past us w seen g) (omega arith),
        )

    scan-turn : (n : ℕ) (r : Scan K) → Knows m n r → Next n r
    unfolding scan_step seek_to_first
    scan-turn n begin b = (
      walk (record { node = head_of (visible m) }) [],
      rw (Chain-first nexts 0 s.head (visible m) linked) refl,
      Sees-after m (n - 1) [] ls (head_of (visible m)) refl refl (omega arith),
    )
    scan-turn n (walk it seen) sees = walk-turn n it seen sees

  Knows-grow : (m n : ℕ) (r : Scan K) → Knows m n r → Knows (suc m) n r
  Knows-grow m n begin b = b
  Knows-grow m n (walk it seen) sees = Sees-grow m n it.node seen sees

  pub scan-IsReader : IsReader s h x ls rs new scan_step Knows
  scan-IsReader = record {
    grow = Knows-grow;
    turn = λ nexts m n r linked knows. scan-turn nexts m (linked_visible nexts m linked) n r knows;
  }

  -- With no steps left the scan has seen all keys, on one of the two ways.
  pub scan-end :
      (m : ℕ) (r : Scan K)
      → Knows m 0 r
      → (it : Iterator) × (seen : List K) × (r ≡ walk it seen)
        × (it.node ≡ none)
        × ((seen ≡ keys_of s.keys (ls ++ rs)) ⊎ (seen ≡ keys_of s.keys (ls ++ (x ∷ rs))))
  scan-end m begin b = absurd (omega arith)
  scan-end m (walk it seen) (in_front us u ws e f g b) = absurd (omega arith)
  scan-end m (walk it seen) (past_with us [] e f g b p) = (
    it,
    seen,
    refl,
    f,
    inr (g ∙ ap (λ t. keys_of s.keys (ls ++ t)) (sym (append-nil us) ∙ sym e)),
  )
  scan-end m (walk it seen) (past_with us (w ∷ ws) e f g b p) = absurd (omega arith)
  scan-end m (walk it seen) (past_without us [] e f g b) = (
    it,
    seen,
    refl,
    f,
    inl (g ∙ ap (λ t. keys_of s.keys (ls ++ t)) (sym (append-nil us) ∙ sym e)),
  )
  scan-end m (walk it seen) (past_without us (w ∷ ws) e f g b) = absurd (omega arith)
