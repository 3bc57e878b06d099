-- ===== src/Tests/Environments.antt =====
-- The helpers on whole files: an environment in memory, and the theorems on it.
use distributed_kvstorage.Common.{
  ℕ, zero, suc, leb, ◌-◌, ◌<◌, ◌≡◌, refl, ◌⊎◌, true, false, Option, some, none, List, [], ◌∷◌, ◌++◌,
  take, drop, take-append-drop, length, if◌then◌else◌, arith,
}
use distributed_kvstorage.Slice.{Slice}
use distributed_kvstorage.Status.{Status, is_ok}
use distributed_kvstorage.Env.{
  Env, Files, env_wrapper, write_string_to_file, read_file_to_string, do_write_string_to_file,
  write_to_file, sync_if, close_if, delete_if,
}
use distributed_kvstorage.Env.Contents.{
  write_string_to_file-contents, write_string_to_file-removed, read_file_to_string-contents,
}
use distributed_kvstorage.Env.Wrapped.{write_string_to_file-env_wrapper}
use distributed_kvstorage.Common.{Bool}
use distributed_kvstorage.Env.FileSystem.{IsFileSystem, Removes}

-- A disk with one file, which may be absent, the name it was opened under, the buffer of what was
-- written since then, whether it is open, what is left to read of it, and the room for more.
record Disk : Type 0 where
  file : Option (List ℕ)
  path : List ℕ
  buffer : List ℕ
  open_now : Bool
  rest : List ℕ
  room : ℕ

abbrev full : Status
full = some (5 ∷ 0 ∷ 0 ∷ 0 ∷ 5 ∷ [])

abbrev stored : Disk → List ℕ
stored d = elim d.file [ none ↦ [] | some bytes ↦ bytes ]

abbrev disk_env : Env Disk
disk_env = record {
  new_sequential_file = λ f d. (none, 0, record d { rest = stored d });
  new_random_access_file = λ f d. (full, 0, d);
  new_writable_file =
      λ f d. (none, 0, record d { file = some []; path = f; buffer = []; open_now = true });
  new_appendable_file = λ f d. (full, 0, d);
  file_exists = λ f d. (false, d);
  get_children = λ f d. (full, [], d);
  remove_file = λ f d. (none, record d { file = none });
  delete_file = λ f d. (none, record d { file = none });
  create_dir = λ f d. (full, d);
  remove_dir = λ f d. (full, d);
  delete_dir = λ f d. (full, d);
  get_file_size = λ f d. (none, length (stored d), d);
  rename_file = λ f g d. (full, d);
  lock_file = λ f d. (full, 0, d);
  unlock_file = λ l d. (full, d);
  schedule = λ f a d. d;
  start_thread = λ f a d. d;
  get_test_directory = λ d. (none, [], d);
  new_logger = λ f d. (full, 0, d);
  now_time_micros = λ d. (0, d);
  sleep_for_microseconds = λ n d. d;
}

abbrev disk_files : Files Disk
disk_files = record {
  read = λ h n d. (none, take n d.rest, record d { rest = drop n d.rest });
  delete_sequential = λ h d. d;
  append = λ h s d.
      if leb (length s) d.room
      then (none, record d { buffer = d.buffer ++ s; room = d.room - length s })
      else (full, d);
  close = λ h d. (none, record d { file = some d.buffer; open_now = false });
  sync = λ h d. (none, record d { file = some d.buffer });
  delete_writable =
      λ h d. if d.open_now then record d { file = some d.buffer; open_now = false } else d;
}

take-nothing : (n : ℕ) (xs : List ℕ) → 0 < n → take n xs ≡ [] → xs ≡ []
take-nothing zero xs pos e = absurd (omega arith)
take-nothing (suc n) [] pos e = refl
take-nothing (suc n) (x ∷ xs) pos e = cc

stored-file : (d : Disk) (bytes : List ℕ) → d.file ≡ some bytes → stored d ≡ bytes
stored-file d bytes e = rw e refl

disk-appended :
    (h : ℕ) (s : Slice) (d : Disk)
    → is_ok (disk_files.append h s d).0 ≡ true
    → ((disk_files.append h s d).1.path ≡ d.path)
      × ((disk_files.append h s d).1.buffer ≡ d.buffer ++ s)
unfolding is_ok
disk-appended h s d ok = ground (arith, ok)

abbrev disk_file_system : IsFileSystem disk_env disk_files
disk_file_system = record {
  contents = λ d f. d.file;
  name = λ h d. d.path;
  given = λ h d. d.buffer;
  is_open = λ h d. d.open_now;
  rest = λ h d. d.rest;
  created = λ f d ok. (refl, refl);
  appended = disk-appended;
  synced = λ h d ok. (refl, refl);
  closed = λ h d ok. (refl, refl);
  dropped = λ h d f shut. rw shut refl;
  opened = λ f old d ok e. stored-file d old e;
  fragment = λ h n d ok. take-append-drop n d.rest;
  at_end = λ h n d ok pos e. take-nothing n d.rest pos e;
}

abbrev name : List ℕ
name = b'f' ∷ []

abbrev bytes : List ℕ
bytes = b'a' ∷ b'b' ∷ []

abbrev roomy : Disk
roomy = record { file = none; path = []; buffer = []; open_now = false; rest = []; room = 10 }

abbrev tight : Disk
tight = record roomy { room = 1 }

abbrev filled : Disk
filled = record roomy { file = some bytes }

write_ok : is_ok (write_string_to_file disk_env disk_files bytes name roomy).0 ≡ true
unfolding write_string_to_file do_write_string_to_file write_to_file sync_if close_if delete_if
    is_ok
write_ok = refl

write_fails : is_ok (write_string_to_file disk_env disk_files bytes name tight).0 ≡ false
unfolding write_string_to_file do_write_string_to_file write_to_file sync_if close_if delete_if
    is_ok
write_fails = refl

write_string_to_file-contents_example :
    (write_string_to_file disk_env disk_files bytes name roomy).1.file ≡ some bytes
write_string_to_file-contents_example =
    write_string_to_file-contents disk_env disk_files disk_file_system bytes name roomy write_ok

disk-Removes : Removes disk_env (λ d f. d.file)
disk-Removes = record { removed = λ f d. refl }

write_string_to_file-removed_example :
    (write_string_to_file disk_env disk_files bytes name tight).1.file ≡ none
unfolding is_ok
write_string_to_file-removed_example =
    write_string_to_file-removed disk_env disk_files disk_file_system bytes name tight disk-Removes
      refl write_fails

read_file_to_string-contents_example :
    (s : Status) × (read : List ℕ) × (after : Disk) × (left : List ℕ) × (read_file_to_string
        disk_env disk_files 3 name filled
      ≡ some (s, read, after))
    × (read ++ left ≡ bytes)
    × ((is_ok s ≡ false) ⊎ (read ≡ bytes))
read_file_to_string-contents_example =
    read_file_to_string-contents disk_env disk_files disk_file_system 3 name bytes filled refl
      (omega arith)

-- A target whose `deleteFile` does nothing.
abbrev keeping_env : Env Disk
keeping_env = record disk_env { delete_file = λ f d. (full, d) }

abbrev keeping_file_system : IsFileSystem keeping_env disk_files
keeping_file_system = record {
  contents = disk_file_system.contents;
  name = disk_file_system.name;
  given = disk_file_system.given;
  is_open = disk_file_system.is_open;
  rest = disk_file_system.rest;
  created = disk_file_system.created;
  appended = disk_file_system.appended;
  synced = disk_file_system.synced;
  closed = disk_file_system.closed;
  dropped = disk_file_system.dropped;
  opened = disk_file_system.opened;
  fragment = disk_file_system.fragment;
  at_end = disk_file_system.at_end;
}

-- On the target itself the file stays.
kept : (write_string_to_file keeping_env disk_files bytes name tight).1.file ≡ some []
unfolding write_string_to_file do_write_string_to_file write_to_file sync_if close_if delete_if
    is_ok
kept = refl

wrapped_fails :
    is_ok (write_string_to_file (env_wrapper keeping_env) disk_files bytes name tight).0 ≡ false
unfolding write_string_to_file do_write_string_to_file write_to_file sync_if close_if delete_if
    is_ok
wrapped_fails = refl

write_string_to_file-env_wrapper_example :
    ((write_string_to_file (env_wrapper keeping_env) disk_files bytes name tight).1.file ≡ none)
    × (write_string_to_file (env_wrapper disk_env) disk_files bytes name tight
        ≡ write_string_to_file (env_wrapper keeping_env) disk_files bytes name tight)
unfolding is_ok
write_string_to_file-env_wrapper_example =
    write_string_to_file-env_wrapper keeping_env disk_files keeping_file_system (λ f d. refl)
      disk_env.delete_file bytes name tight refl wrapped_fails
