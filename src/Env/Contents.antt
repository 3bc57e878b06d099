-- ===== src/Env/Contents.antt =====
-- Writing and reading a whole file, over an environment that keeps what its interface documents.
use distributed_kvstorage.Common.{
  ℕ, ◌<◌, Bool-cases, ◌⊎◌, inl, inr, ◌≡◌, refl, sym, ap, ◌∙◌, Bool, true, false, none, some, List,
  [], ◌++◌, append-nil, length, arith,
}
use distributed_kvstorage.Slice.{Slice}
use distributed_kvstorage.Status.{Status, is_ok}
use distributed_kvstorage.Env.{
  Env, Files, sync_if, close_if, delete_if, write_to_file, do_write_string_to_file,
  write_string_to_file, read_file_to_string,
}
use distributed_kvstorage.Env.FileSystem.{IsFileSystem, Removes}
use distributed_kvstorage.Env.Reads.{read_loop-Reading}

true-ne-false : ◌≡◌ {A = Bool} true false → ⊥
true-ne-false e = cc

module _ {W : Type 0} where
  module _ (env : Env W) (files : Files W) (fs : IsFileSystem env files) where
    -- The bytes that the file was given, before it is closed.
    IsGiven : ℕ → (f bytes : List ℕ) → W → Type 0
    IsGiven file f bytes w = (fs.name file w ≡ f) × (fs.given file w ≡ bytes)

    append-IsGiven :
        (file : ℕ) (f old : List ℕ) (s : Slice) (w : W)
        → is_ok (files.append file s w).0 ≡ true
        → IsGiven file f old w
        → IsGiven file f (old ++ s) (files.append file s w).1
    unfolding IsGiven
    append-IsGiven file f old s w ok (named, so_far) =
        let (same, more) = fs.appended file s w ok in (same ∙ named, more ∙ ap (λ t. t ++ s) so_far)

    sync_if-IsGiven :
        (file : ℕ) (may_sync : Bool) (f bytes : List ℕ) (s : Status) (w : W)
        → is_ok (sync_if env files file may_sync s w).0 ≡ true
        → (is_ok s ≡ true)
          × (IsGiven file f bytes w → IsGiven file f bytes (sync_if env files file may_sync s w).1)
    unfolding sync_if IsGiven
    sync_if-IsGiven file may_sync f bytes s w ok = ground (arith, ok, fs.synced file w)

    close_if-contents :
        (file : ℕ) (f bytes : List ℕ) (s : Status) (w : W)
        → is_ok (close_if env files file s w).0 ≡ true
        → (is_ok s ≡ true)
          × (IsGiven file f bytes w
              → (fs.contents (close_if env files file s w).1 f ≡ some bytes)
                × (fs.is_open file (close_if env files file s w).1 ≡ false))
    unfolding close_if IsGiven
    close_if-contents file f bytes s w ok = elim (Bool-cases (is_ok s)) [
      | inl good ↦ (
        good,
        λ (named, all).
            let (holds, shut) = fs.closed file w (rw good at ok) in
            rw good
              (ap (fs.contents (files.close file w).1) (sym named) ∙ holds ∙ ap some all, shut),
      )
      | inr bad ↦ absurd (true-ne-false (sym ok ∙ rw bad bad))
    ]

    delete_if-ok :
        (f : List ℕ) (s : Status) (w : W) → is_ok s ≡ true → delete_if env files f s w ≡ w
    unfolding delete_if
    delete_if-ok f s w ok = rw ok refl

    written :
        (file : ℕ) (bytes : Slice) (f : List ℕ) (may_sync : Bool) (w : W)
        → IsGiven file f [] w
        → is_ok (write_to_file env files file bytes f may_sync w).0 ≡ true
        → fs.contents (write_to_file env files file bytes f may_sync w).1 f ≡ some bytes
    unfolding write_to_file
    written file bytes f may_sync w fresh ok =
        let (s1, w1) = files.append file bytes w in
        let (s2, w2) = sync_if env files file may_sync s1 w1 in
        let (s3, w3) = close_if env files file s2 w2 in
        let (ok2, holds) = close_if-contents file f bytes s2 w2 ok in
        let (ok1, keeps) = sync_if-IsGiven file may_sync f bytes s1 w1 ok2 in
        let (whole, shut) = holds (keeps (append-IsGiven file f [] bytes w ok1 fresh)) in
        ap (λ v. fs.contents v f) (delete_if-ok f s3 (files.delete_writable file w3) ok)
        ∙ fs.dropped file w3 f shut
        ∙ whole

    do_write-created :
        (bytes : Slice) (f : List ℕ) (b : Bool) (w : W)
        → is_ok (env.new_writable_file f w).0 ≡ true
        → do_write_string_to_file env files bytes f b w
          ≡ write_to_file env files
              (env.new_writable_file f w).1
              bytes
              f
              b
              (env.new_writable_file f w).2
    unfolding do_write_string_to_file
    do_write-created bytes f b w made = rw made refl

    do_write-refused :
        (bytes : Slice) (f : List ℕ) (b : Bool) (w : W)
        → is_ok (env.new_writable_file f w).0 ≡ false
        → do_write_string_to_file env files bytes f b w
          ≡ ((env.new_writable_file f w).0, (env.new_writable_file f w).2)
    unfolding do_write_string_to_file
    do_write-refused bytes f b w failed = rw failed refl

    gone :
        (file : ℕ) (bytes : Slice) (f : List ℕ) (may_sync : Bool) (w : W)
        → Removes env fs.contents
        → is_ok (write_to_file env files file bytes f may_sync w).0 ≡ false
        → fs.contents (write_to_file env files file bytes f may_sync w).1 f ≡ none
    unfolding write_to_file delete_if
    gone file bytes f may_sync w removes error = rw error (removes.removed f _)

    -- Over an environment that keeps what it documents: where WriteStringToFile returns ok, the file
    -- holds the bytes given.
    pub write_string_to_file-contents :
        (bytes : Slice) (f : List ℕ) (w : W)
        → is_ok (write_string_to_file env files bytes f w).0 ≡ true
        → fs.contents (write_string_to_file env files bytes f w).1 f ≡ some bytes
    unfolding write_string_to_file
    write_string_to_file-contents bytes f w ok =
        elim (Bool-cases (is_ok (env.new_writable_file f w).0)) [
          | inl made ↦
              let e = do_write-created bytes f false w made in
              let fresh : IsGiven (env.new_writable_file f w).1 f [] (env.new_writable_file f w).2 =
                unfold IsGiven in fs.created f w made in
              ap (λ r. fs.contents r.1 f) e
              ∙ written (env.new_writable_file f w).1 bytes f false (env.new_writable_file f w).2
                  fresh (sym (ap (λ r. is_ok r.0) e) ∙ ok)
          | inr failed ↦ absurd (
              true-ne-false
                (sym ok ∙ ap (λ r. is_ok r.0) (do_write-refused bytes f false w failed) ∙ failed))
        ]

    -- Over an environment that keeps what it documents: where the file was created, the removal
    -- works, and WriteStringToFile returns an error, nothing is left under the name.
    pub write_string_to_file-removed :
        (bytes : Slice) (f : List ℕ) (w : W)
        → Removes env fs.contents
        → is_ok (env.new_writable_file f w).0 ≡ true
        → is_ok (write_string_to_file env files bytes f w).0 ≡ false
        → fs.contents (write_string_to_file env files bytes f w).1 f ≡ none
    unfolding write_string_to_file
    write_string_to_file-removed bytes f w removes made error =
        let e = do_write-created bytes f false w made in
        ap (λ r. fs.contents r.1 f) e
        ∙ gone (env.new_writable_file f w).1 bytes f false (env.new_writable_file f w).2 removes
            (sym (ap (λ r. is_ok r.0) e) ∙ error)

    -- Over an environment that keeps what it documents, with more fuel than the file has bytes,
    -- ReadFileToString returns.
    -- What it read is the start of the file, and the whole file unless the status is an error.
    pub read_file_to_string-contents :
        (fuel : ℕ) (f old : List ℕ) (w : W)
        → fs.contents w f ≡ some old
        → length old < fuel
        → (s : Status) × (bytes : List ℕ) × (after : W) × (left : List ℕ) × (read_file_to_string env
              files fuel f w
            ≡ some (s, bytes, after))
          × (bytes ++ left ≡ old)
          × ((is_ok s ≡ false) ⊎ (bytes ≡ old))
    unfolding read_file_to_string
    read_file_to_string-contents fuel f old w there enough =
        elim (Bool-cases (is_ok (env.new_sequential_file f w).0)) [
          | inl made ↦
              let file = (env.new_sequential_file f w).1 in
              let w' = (env.new_sequential_file f w).2 in
              let at_start = fs.opened f old w made there in
              let r =
                read_loop-Reading env files fs fuel file [] w'
                  (omega (arith, enough, ap length at_start)) in
              (
                r.status,
                r.bytes,
                files.delete_sequential file r.after,
                r.left,
                rw (made, r.returned) refl,
                r.split ∙ at_start,
                whole r.status r.bytes r.left old (r.split ∙ at_start) r.complete,
              )
          | inr failed ↦ (
            (env.new_sequential_file f w).0,
            [],
            (env.new_sequential_file f w).2,
            old,
            rw failed refl,
            refl,
            inl failed,
          )
        ]
      where
        whole :
            (s : Status) (bytes left old : List ℕ)
            → bytes ++ left ≡ old
            → (is_ok s ≡ false) ⊎ (left ≡ [])
            → (is_ok s ≡ false) ⊎ (bytes ≡ old)
        whole s bytes left old e (inl failed) = inl failed
        whole s bytes left old e (inr done) =
            inr (sym (append-nil bytes) ∙ ap (λ t. bytes ++ t) (sym done) ∙ e)
