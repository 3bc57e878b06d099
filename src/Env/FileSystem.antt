-- ===== src/Env/FileSystem.antt =====
-- What the interfaces of src/include/env.h document of the methods that the helpers call.
use distributed_kvstorage.Common.{
  ℕ, ◌<◌, ◌≡◌, Bool, true, false, Option, none, some, List, [], ◌++◌,
}
use distributed_kvstorage.Slice.{Slice}
use distributed_kvstorage.Status.{is_ok}
use distributed_kvstorage.Env.{Env, Files}

module _ {W : Type 0} where
  -- What the interface documents, of the methods that the helpers call. A file is what stands under a
  -- name. An open file to write has its name and the bytes appended to it so far; they may wait in a
  -- buffer, and only a file that was closed is sure to hold them. An open file to read has what is
  -- left of it.
  pub record IsFileSystem (env : Env W) (files : Files W) : Type 0 where
    pub contents : W → List ℕ → Option (List ℕ)
    pub name : ℕ → W → List ℕ
    pub given : ℕ → W → List ℕ
    pub is_open : ℕ → W → Bool
    pub rest : ℕ → W → List ℕ
    pub created :
        (f : List ℕ) (w : W)
        → is_ok (env.new_writable_file f w).0 ≡ true
        → (name (env.new_writable_file f w).1 (env.new_writable_file f w).2 ≡ f)
          × (given (env.new_writable_file f w).1 (env.new_writable_file f w).2 ≡ [])
    pub appended :
        (file : ℕ) (s : Slice) (w : W)
        → is_ok (files.append file s w).0 ≡ true
        → (name file (files.append file s w).1 ≡ name file w)
          × (given file (files.append file s w).1 ≡ given file w ++ s)
    pub synced :
        (file : ℕ) (w : W)
        → is_ok (files.sync file w).0 ≡ true
        → (name file (files.sync file w).1 ≡ name file w)
          × (given file (files.sync file w).1 ≡ given file w)
    pub closed :
        (file : ℕ) (w : W)
        → is_ok (files.close file w).0 ≡ true
        → (contents (files.close file w).1 (name file w) ≡ some (given file w))
          × (is_open file (files.close file w).1 ≡ false)
    pub dropped :
        (file : ℕ) (w : W) (f : List ℕ)
        → is_open file w ≡ false
        → contents (files.delete_writable file w) f ≡ contents w f
    pub opened :
        (f old : List ℕ) (w : W)
        → is_ok (env.new_sequential_file f w).0 ≡ true
        → contents w f ≡ some old
        → rest (env.new_sequential_file f w).1 (env.new_sequential_file f w).2 ≡ old
    pub fragment :
        (file : ℕ) (n : ℕ) (w : W)
        → is_ok (files.read file n w).0 ≡ true
        → (files.read file n w).1 ++ rest file (files.read file n w).2 ≡ rest file w
    pub at_end :
        (file : ℕ) (n : ℕ) (w : W)
        → is_ok (files.read file n w).0 ≡ true
        → 0 < n
        → (files.read file n w).1 ≡ []
        → rest file w ≡ []

  -- A removal that an environment never fails at.
  pub record Removes (env : Env W) (contents : W → List ℕ → Option (List ℕ)) : Type 0 where
    pub removed : (f : List ℕ) (w : W) → contents (env.delete_file f w).1 f ≡ none
