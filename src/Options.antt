-- ===== src/Options.antt =====
-- The settings of src/include/options.h, as their constructors leave them.
use distributed_kvstorage.Common.{ℕ, ◌*◌, Bool, true, false, Option, none}
use distributed_kvstorage.Comparator.{Comparator, bytewise_comparator}
use distributed_kvstorage.DbFormat.Filter.{FilterPolicy}

pub data CompressionType : Type 0 where
  no_compression snappy_compression zstd_compression : CompressionType

abbrev pub compression_code : CompressionType → ℕ
compression_code no_compression = 0
compression_code snappy_compression = 1
compression_code zstd_compression = 2

-- The pointers to a Logger and a Cache, of classes that nothing implements, are addresses; so is the
-- Env, of which `E` is the type. nullptr is `none`.
pub record Options (E : Type 0) : Type 0 where
  pub comparator : Comparator
  pub create_if_missing : Bool
  pub error_if_exists : Bool
  pub paranoid_checks : Bool
  pub env : E
  pub info_log : Option ℕ
  pub write_buffer_size : ℕ
  pub max_open_files : ℕ
  pub block_cache : Option ℕ
  pub block_size : ℕ
  pub block_restart_interval : ℕ
  pub max_file_size : ℕ
  pub compression : CompressionType
  pub zstd_compression_level : ℕ
  pub reuse_logs : Bool
  pub filter_policy : Option FilterPolicy

-- Options(). `Env::defaultEnv` is declared and not defined in the repository.
abbrev pub make_options : {E : Type 0} → (default_env : E) → Options E
make_options default_env = record {
  comparator = bytewise_comparator;
  create_if_missing = false;
  error_if_exists = false;
  paranoid_checks = false;
  env = default_env;
  info_log = none;
  write_buffer_size = 4 * 1024 * 1024;
  max_open_files = 1000;
  block_cache = none;
  block_size = 4 * 1024;
  block_restart_interval = 16;
  max_file_size = 2 * 1024 * 1024;
  compression = snappy_compression;
  zstd_compression_level = 1;
  reuse_logs = false;
  filter_policy = none;
}

pub record ReadOptions : Type 0 where
  pub verify_checksums : Bool
  pub fill_cache : Bool
  pub snapshot : Option ℕ

abbrev pub make_read_options : ReadOptions
make_read_options = record { verify_checksums = false; fill_cache = true; snapshot = none }

pub record WriteOptions : Type 0 where
  pub sync : Bool

abbrev pub make_write_options : WriteOptions
make_write_options = record { sync = false }
