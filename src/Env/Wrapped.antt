-- ===== src/Env/Wrapped.antt =====
-- The helpers through an EnvWrapper.
use distributed_kvstorage.Common.{ℕ, ◌≡◌, refl, true, false, none, List}
use distributed_kvstorage.Slice.{Slice}
use distributed_kvstorage.Status.{Status, is_ok}
use distributed_kvstorage.Env.{
  Env, Files, env_wrapper, sync_if, close_if, delete_if, write_to_file, do_write_string_to_file,
  write_string_to_file,
}
use distributed_kvstorage.Env.FileSystem.{IsFileSystem}
use distributed_kvstorage.Env.Contents.{write_string_to_file-removed}

module _ {W : Type 0} (env : Env W) (files : Files W) (fs : IsFileSystem env files) where
  -- A wrapper keeps what its target documents.
  abbrev env_wrapper-IsFileSystem : IsFileSystem (env_wrapper env) files
  env_wrapper-IsFileSystem = record {
    contents = fs.contents;
    name = fs.name;
    given = fs.given;
    is_open = fs.is_open;
    rest = fs.rest;
    created = fs.created;
    appended = fs.appended;
    synced = fs.synced;
    closed = fs.closed;
    dropped = fs.dropped;
    opened = fs.opened;
    fragment = fs.fragment;
    at_end = fs.at_end;
  }

  -- Over a target that keeps what it documents and whose `removeFile` works, whatever its
  -- `deleteFile` does: where a file was created through an EnvWrapper, and WriteStringToFile returns
  -- an error, nothing is left under the name. The target's `deleteFile` is not called there: with any
  -- other one in its place, the status and the world afterwards are the same.
  pub write_string_to_file-env_wrapper :
      ((f : List ℕ) (w : W) → fs.contents (env.remove_file f w).1 f ≡ none)
      → (other : List ℕ → W → Status × W) (bytes : Slice) (f : List ℕ) (w : W)
      → is_ok (env.new_writable_file f w).0 ≡ true
      → is_ok (write_string_to_file (env_wrapper env) files bytes f w).0 ≡ false
      → (fs.contents (write_string_to_file (env_wrapper env) files bytes f w).1 f ≡ none)
        × (write_string_to_file (env_wrapper (record env { delete_file = other })) files bytes f w
            ≡ write_string_to_file (env_wrapper env) files bytes f w)
  unfolding write_string_to_file do_write_string_to_file write_to_file sync_if close_if delete_if
  write_string_to_file-env_wrapper removes other bytes f w made error = (
    write_string_to_file-removed (env_wrapper env) files env_wrapper-IsFileSystem bytes f w
        (record { removed = removes }) made error,
    refl,
  )
