-- ===== src/Env/Reads.antt =====
-- The loop of `read_file_to_string`.
use distributed_kvstorage.Common.{
  ℕ, zero, suc, ◌<◌, Bool-cases, ◌⊎◌, inl, inr, ◌≡◌, refl, sym, ap, ◌∙◌, true, false, Option, some,
  List, [], ◌∷◌, ◌++◌, append-nil, append_assoc, length, length-append, arith,
}
use distributed_kvstorage.Slice.{empty, size}
use distributed_kvstorage.Status.{Status, is_ok}
use distributed_kvstorage.Env.{Env, Files, read_loop}
use distributed_kvstorage.Env.FileSystem.{IsFileSystem}

list-cases : (xs : List ℕ) → (xs ≡ []) ⊎ ((x : ℕ) × (rest : List ℕ) × (xs ≡ x ∷ rest))
list-cases [] = inl refl
list-cases (x ∷ xs) = inr (x, xs, refl)

module _ {W : Type 0} where
  module _ (env : Env W) (files : Files W) (fs : IsFileSystem env files) where
    -- What was read so far, and what is left when the loop ends.
    pub record Reading (out : Option (Status × List ℕ × W)) (all : List ℕ) : Type 0 where
      pub status : Status
      pub bytes : List ℕ
      pub after : W
      pub left : List ℕ
      pub returned : out ≡ some (status, bytes, after)
      pub split : bytes ++ left ≡ all
      pub complete : (is_ok status ≡ false) ⊎ (left ≡ [])

    read-shorter :
        (file : ℕ) (w : W) (x : ℕ) (xs : List ℕ)
        → is_ok (files.read file 8192 w).0 ≡ true
        → (files.read file 8192 w).1 ≡ x ∷ xs
        → length (fs.rest file (files.read file 8192 w).2) < length (fs.rest file w)
    read-shorter file w x xs ok e = omega (
      arith,
      ap length (fs.fragment file 8192 w ok),
      length-append (files.read file 8192 w).1 (fs.rest file (files.read file 8192 w).2),
      ap length e,
    )

    read_loop-more :
        (fuel : ℕ) (file : ℕ) (acc : List ℕ) (w : W) (x : ℕ) (xs : List ℕ)
        → is_ok (files.read file 8192 w).0 ≡ true
        → (files.read file 8192 w).1 ≡ x ∷ xs
        → Reading
            (read_loop env files fuel file
              (acc ++ (files.read file 8192 w).1)
              (files.read file 8192 w).2)
            ((acc ++ (files.read file 8192 w).1) ++ fs.rest file (files.read file 8192 w).2)
        → Reading (read_loop env files (suc fuel) file acc w) (acc ++ fs.rest file w)
    unfolding read_loop empty size
    read_loop-more fuel file acc w x xs ok e later = record {
      status = later.status;
      bytes = later.bytes;
      after = later.after;
      left = later.left;
      returned = ground (arith, ok, e, later.returned);
      split =
          later.split
          ∙ append_assoc acc (files.read file 8192 w).1 (fs.rest file (files.read file 8192 w).2)
          ∙ ap (λ t. acc ++ t) (fs.fragment file 8192 w ok);
      complete = later.complete;
    }

    pub read_loop-Reading :
        (fuel : ℕ) (file : ℕ) (acc : List ℕ) (w : W)
        → length (fs.rest file w) < fuel
        → Reading (read_loop env files fuel file acc w) (acc ++ fs.rest file w)
    unfolding read_loop empty size
    read_loop-Reading zero file acc w enough = elim enough [ ]
    read_loop-Reading (suc fuel) file acc w enough =
        elim (Bool-cases (is_ok (files.read file 8192 w).0)) [
          | inl ok ↦ elim (list-cases (files.read file 8192 w).1) [
            | inl nothing ↦ record {
              status = (files.read file 8192 w).0;
              bytes = acc;
              after = (files.read file 8192 w).2;
              left = [];
              returned = ground (arith, ok, nothing, append-nil acc);
              split = ap (λ t. acc ++ t) (sym (fs.at_end file 8192 w ok (omega arith) nothing));
              complete = inr refl;
            }
            | inr (x, xs, some_bytes) ↦ read_loop-more fuel file acc w x xs ok some_bytes (
                read_loop-Reading fuel file (acc ++ (files.read file 8192 w).1)
                  (files.read file 8192 w).2
                  (omega (arith, enough, read-shorter file w x xs ok some_bytes)))
          ]
          | inr failed ↦ record {
            status = (files.read file 8192 w).0;
            bytes = acc;
            after = (files.read file 8192 w).2;
            left = fs.rest file w;
            returned = rw failed refl;
            split = refl;
            complete = inl failed;
          }
        ]
