-- ===== src/Config.antt =====
-- The settings of the database: the variables of namespace `db_config` (config/db_config.h,
-- config/db_config.cpp).
use project_db.Common.{ℕ, ◌*◌, Bool, false, Bytes}
use project_db.FileSystem.Names.{codes}

-- Numbers are `unsigned`.
pub record DbConfig : Type 0 where
  pub db_file_path : Bytes
  pub memtable_approximate_max_size_in_bytes : ℕ
  pub sstable_approximate_max_size_in_bytes : ℕ
  pub sstable_index_block_size_in_bytes : ℕ
  pub num_sstable_to_compact : ℕ
  pub keep_sstable_file_open : Bool

abbrev pub default_config : DbConfig
default_config = record {
  db_file_path = codes "./projectdb";
  memtable_approximate_max_size_in_bytes = 2 * 1024 * 1024;
  sstable_approximate_max_size_in_bytes = 4 * 1024 * 1024;
  sstable_index_block_size_in_bytes = 2 * 1024;
  num_sstable_to_compact = 5;
  keep_sstable_file_open = false;
}
