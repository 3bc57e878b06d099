-- ===== src/Env.antt =====
-- src/include/env.h and src/util/env.cc: the helpers that write and read a whole file, over the
-- interface Env. The state of the outside world is a type `W`; an open file is a handle.
pub mod FileSystem
pub mod Reads
pub mod Contents
pub mod Wrapped
use distributed_kvstorage.Common.{
  ℕ, zero, suc, Bool, true, false, not, ◌&&◌, Option, none, some, List, [], ◌∷◌, ◌++◌,
  if◌then◌else◌,
}
use distributed_kvstorage.Slice.{Slice, empty}
use distributed_kvstorage.Status.{Status, is_ok}

-- The virtual methods of Env. A method that stores to a pointer gives the value stored. An object of
-- another class, a function and an argument of a thread are their addresses.
pub record Env (W : Type 0) : Type 0 where
  pub new_sequential_file : List ℕ → W → Status × ℕ × W
  pub new_random_access_file : List ℕ → W → Status × ℕ × W
  pub new_writable_file : List ℕ → W → Status × ℕ × W
  pub new_appendable_file : List ℕ → W → Status × ℕ × W
  pub file_exists : List ℕ → W → Bool × W
  pub get_children : List ℕ → W → Status × List (List ℕ) × W
  pub remove_file : List ℕ → W → Status × W
  pub delete_file : List ℕ → W → Status × W
  pub create_dir : List ℕ → W → Status × W
  pub remove_dir : List ℕ → W → Status × W
  pub delete_dir : List ℕ → W → Status × W
  pub get_file_size : List ℕ → W → Status × ℕ × W
  pub rename_file : (src target : List ℕ) → W → Status × W
  pub lock_file : List ℕ → W → Status × ℕ × W
  pub unlock_file : ℕ → W → Status × W
  pub schedule : (function arg : ℕ) → W → W
  pub start_thread : (function arg : ℕ) → W → W
  pub get_test_directory : W → Status × List ℕ × W
  pub new_logger : List ℕ → W → Status × ℕ × W
  pub now_time_micros : W → ℕ × W
  pub sleep_for_microseconds : ℕ → W → W

-- The methods of SequentialFile and WritableFile that the helpers call, and the destructors.
pub record Files (W : Type 0) : Type 0 where
  pub read : ℕ → ℕ → W → Status × Slice × W
  pub delete_sequential : ℕ → W → W
  pub append : ℕ → Slice → W → Status × W
  pub close : ℕ → W → Status × W
  pub sync : ℕ → W → Status × W
  pub delete_writable : ℕ → W → W

-- The class Logger. `A` is the type of the variable arguments, which are handed on as they are.
pub record Logger (W A : Type 0) : Type 0 where
  pub logv : (format : List ℕ) → A → W → W

-- `none` is nullptr.
unfoldable pub log : {W A : Type 0} → Option (Logger W A) → (format : List ℕ) → A → W → W
log none format arguments w = w
log (some info_log) format arguments w = info_log.logv format arguments w

-- Env::deleteFile and Env::deleteDir, for the classes that do not override them.
abbrev pub default_delete_file :
    {W : Type 0} → (remove_file : List ℕ → W → Status × W) → List ℕ → W → Status × W
default_delete_file remove_file fname w = remove_file fname w

abbrev pub default_delete_dir :
    {W : Type 0} → (remove_dir : List ℕ → W → Status × W) → List ℕ → W → Status × W
default_delete_dir remove_dir fname w = remove_dir fname w

module _ {W : Type 0} where
  -- The class EnvWrapper: it forwards to the target, but does not override `deleteFile` and
  -- `deleteDir`.
  abbrev pub env_wrapper : Env W → Env W
  env_wrapper target = record {
    new_sequential_file = λ f w. target.new_sequential_file f w;
    new_random_access_file = λ f w. target.new_random_access_file f w;
    new_writable_file = λ f w. target.new_writable_file f w;
    new_appendable_file = λ f w. target.new_appendable_file f w;
    file_exists = λ f w. target.file_exists f w;
    get_children = λ d w. target.get_children d w;
    remove_file = λ f w. target.remove_file f w;
    delete_file = default_delete_file (λ f w. target.remove_file f w);
    create_dir = λ d w. target.create_dir d w;
    remove_dir = λ d w. target.remove_dir d w;
    delete_dir = default_delete_dir (λ d w. target.remove_dir d w);
    get_file_size = λ f w. target.get_file_size f w;
    rename_file = λ s t w. target.rename_file s t w;
    lock_file = λ f w. target.lock_file f w;
    unlock_file = λ l w. target.unlock_file l w;
    schedule = λ f a w. target.schedule f a w;
    start_thread = λ f a w. target.start_thread f a w;
    get_test_directory = λ w. target.get_test_directory w;
    new_logger = λ f w. target.new_logger f w;
    now_time_micros = λ w. target.now_time_micros w;
    sleep_for_microseconds = λ micros w. target.sleep_for_microseconds micros w;
  }

  module _ (env : Env W) (files : Files W) where
    -- `s = file->sync()` and `s = file->close()` under their tests, and the removal at a failure.
    unfoldable pub sync_if : ℕ → (may_sync : Bool) → Status → W → Status × W
    sync_if file may_sync s w = if is_ok s && may_sync then files.sync file w else (s, w)

    unfoldable pub close_if : ℕ → Status → W → Status × W
    close_if file s w = if is_ok s then files.close file w else (s, w)

    unfoldable pub delete_if : (frame : List ℕ) → Status → W → W
    delete_if frame s w = if not (is_ok s) then (env.delete_file frame w).1 else w

    -- From the created file on.
    unfoldable pub write_to_file : ℕ → Slice → (frame : List ℕ) → (may_sync : Bool) → W → Status × W
    write_to_file file bytes frame may_sync w =
        let (s, w) = files.append file bytes w in
        let (s, w) = sync_if file may_sync s w in
        let (s, w) = close_if file s w in
        let w = files.delete_writable file w in (s, delete_if frame s w)

    unfoldable pub do_write_string_to_file :
        Slice → (frame : List ℕ) → (may_sync : Bool) → W → Status × W
    do_write_string_to_file bytes frame may_sync w =
        let (s, file, w) = env.new_writable_file frame w in
        if not (is_ok s) then (s, w) else write_to_file file bytes frame may_sync w

    unfoldable pub write_string_to_file : Slice → (fname : List ℕ) → W → Status × W
    write_string_to_file bytes fname w = do_write_string_to_file bytes fname false w

    abbrev pub buffer_size : ℕ
    buffer_size = 8192

    -- The `while (true)` loop; `none` is out of fuel.
    unfoldable pub read_loop : (fuel : ℕ) → ℕ → (bytes : List ℕ) → W → Option (Status × List ℕ × W)
    read_loop zero file bytes w = none
    read_loop (suc fuel) file bytes w =
        let (s, fragment, w) = files.read file buffer_size w in
        let later = read_loop fuel file (bytes ++ fragment) w in
        if not (is_ok s)
        then some (s, bytes, w)
        else if empty fragment
        then some (s, bytes ++ fragment, w)
        else later

    -- The status, what `*data` holds, and the world.
    unfoldable pub read_file_to_string :
        (fuel : ℕ) → (fname : List ℕ) → W → Option (Status × List ℕ × W)
    read_file_to_string fuel fname w =
        let (s, file, w) = env.new_sequential_file fname w in
        if not (is_ok s) then some (s, [], w) else (elim (read_loop fuel file [] w) [
          | none ↦ none
          | some (s, bytes, w) ↦ some (s, bytes, files.delete_sequential file w)
        ])
