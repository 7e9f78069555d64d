-- ===== src/Database/Lifetime.antt =====
-- The start and the end of the database: the constructor, `init` and the destructor of
-- `ProjectDbImpl` (db/projectdb.cpp).
use project_db.SsTableIndexQueue
use project_db.Common.{
  ℕ, ◌+◌, Bool, true, false, Option, none, some, List, [], ◌∷◌, Bytes, Error, Result, ok, err,
  ◌>>=◌, ◌-◌, ◌^◌, undefined_behaviour, ltb, if◌then◌else◌,
}
use project_db.Config.{DbConfig}
use project_db.ConfigParser.{parse}
use project_db.Database.{CompactionFuture, ProjectDb, finish_compaction, add_future}
use project_db.FileSystem.{FileSystem, file_content, remove_ext_and_rename, remove_files_with_ext}
use project_db.FileSystem.Counter.{get_counter_from_file_name}
use project_db.FileSystem.Names.{
  sstable_file_ext, sstable_file_flush_in_progress_ext, merged_sstable_file_ext,
  transaction_log_file_ext, deprecated_file_ext,
}
use project_db.FileSystem.Sorted.{get_files_with_ext_sorted}
use project_db.MemTableQueue.{Shared, push_from_transaction_log, pop}
use project_db.SsTableIndex.{SsTableIndex, new_index}
use project_db.SsTableIndexQueue.{SsTableIndexQueue, new_queue}
use project_db.SsTableOps.{load_ss_table}

abbrev pub or_new : Option SsTableIndex → SsTableIndex
or_new none = new_index
or_new (some index) = index

-- The loop over the files of the tables, the oldest first.
unfoldable pub load_tables :
    ℕ → FileSystem → List Bytes → SsTableIndexQueue → Result SsTableIndexQueue
unfolding load_ss_table file_content SsTableIndexQueue.insert
load_tables block_size fs [] q = ok q
load_tables block_size fs (name ∷ names) q = do
  (ss_table, index) ← load_ss_table block_size name (file_content fs name) (some new_index)
  load_tables block_size fs names (SsTableIndexQueue.insert q (or_new index))

abbrev pub last_name : Bytes → List Bytes → Bytes
last_name name [] = name
last_name name (next ∷ names) = last_name next names

-- `1 + counter` in `int`, which has no behaviour for the largest counter
abbrev pub int_suc : ℕ → Result ℕ
int_suc counter = if ltb counter (2 ^ 31 - 1) then ok (1 + counter) else err undefined_behaviour

-- One more than the counter of the last file, if there is a file.
unfoldable pub next_counter : List Bytes → ℕ → Result ℕ
unfolding get_counter_from_file_name
next_counter [] counter_base = ok counter_base
next_counter (name ∷ names) counter_base = do
  counter ← get_counter_from_file_name (last_name name names)
  int_suc counter

abbrev is_last_log : List Bytes → Bool
is_last_log [] = true
is_last_log (name ∷ names) = false

-- The loop over the logs, the oldest first. All tables but the last are flushed.
unfoldable pub load_logs : List Bytes → ProjectDb → Result ProjectDb
unfolding push_from_transaction_log
load_logs [] db = ok db
load_logs (name ∷ names) db = do
  (job, q, shared) ←
      push_from_transaction_log name (is_last_log names) db.m_mem_table_queue db.shared
  load_logs names (record db {
    m_mem_table_queue = q;
    m_flush_to_disk_futures = add_future job db.m_flush_to_disk_futures;
    shared = shared;
  })

-- What earlier runs have left unfinished, or have marked.
unfoldable pub remove_temporary_files : FileSystem → FileSystem
unfolding remove_files_with_ext
remove_temporary_files fs = remove_files_with_ext merged_sstable_file_ext (
    remove_files_with_ext sstable_file_flush_in_progress_ext
      (remove_files_with_ext deprecated_file_ext fs))

-- The directory is there, as after `initDbPath`.
unfoldable pub init : DbConfig → Shared → Result ProjectDb
unfolding remove_temporary_files get_files_with_ext_sorted load_tables next_counter load_logs
init config shared =
    let files = remove_temporary_files shared.files in
    do
      ss_table_files ← get_files_with_ext_sorted sstable_file_ext files
      q ← load_tables config.sstable_index_block_size_in_bytes files ss_table_files new_queue
      ss_table_counter ← next_counter ss_table_files shared.sstable_file_counter_base
      transaction_log_files ← get_files_with_ext_sorted transaction_log_file_ext files
      db ← load_logs transaction_log_files (record {
        m_mem_table_queue = record { m_queue = [] };
        m_ss_table_index_queue = q;
        m_flush_to_disk_futures = [];
        m_ss_table_compaction_future = none;
        shared = record shared { files = files; sstable_file_counter_base = ss_table_counter };
      })
      log_counter ← next_counter transaction_log_files db.shared.transaction_log_file_counter_base
      ok (record db {
        shared = record db.shared { transaction_log_file_counter_base = log_counter };
      })

-- The file that the constructor parses, unless its path is empty.
unfoldable pub configure : Bytes → Option Bytes → DbConfig → Option Error × DbConfig
unfolding parse
configure [] config_file config = (none, config)
configure (c ∷ path) config_file config = parse config_file config

abbrev pub init_configured :
    Option Error × DbConfig → (Bytes → Shared) → Result (DbConfig × ProjectDb)
init_configured (some thrown, config) disk = err thrown
init_configured (none, config) disk = do
  db ← init config (disk config.db_file_path)
  ok (config, db)

-- The constructor; `disk` gives the files of each directory.
unfoldable pub construct :
    Bytes → Option Bytes → DbConfig → (Bytes → Shared) → Result (DbConfig × ProjectDb)
unfolding configure init
construct config_file_path config_file config disk =
    init_configured (configure config_file_path config_file config) disk

-- The loop of the destructor, which waits for each flush, with what their futures give.
unfoldable pub finish_all : List (Result SsTableIndex) → ProjectDb → Result ProjectDb
unfolding remove_ext_and_rename pop
finish_all [] db = ok db
finish_all (outcome ∷ rest) db = do
  ss_table_index ← outcome
  (name, fs) ← remove_ext_and_rename ss_table_index.m_ss_table_file_name db.shared.files
  (q, shared) ← pop db.m_mem_table_queue (record db.shared { files = fs })
  finish_all rest (record db { m_mem_table_queue = q; shared = shared })

-- It waits for the compaction too, if one runs, and takes its result.
unfoldable pub finish_last_compaction :
    DbConfig → Result (List SsTableIndex) → Option CompactionFuture → ProjectDb → Result ProjectDb
unfolding finish_compaction
finish_last_compaction config outcome none db = ok db
finish_last_compaction config outcome (some future) db = do
  after_compaction ← outcome
  finish_compaction config after_compaction db

-- The destructor, with what the flushes and the compaction that it waits for give. An exception leaves the
-- destructor, which ends the program.
unfoldable pub destruct :
    DbConfig
    → List (Result SsTableIndex)
    → Result (List SsTableIndex)
    → ProjectDb
    → Result ProjectDb
unfolding finish_all finish_last_compaction remove_files_with_ext
destruct config flushed after_compaction db = do
  db' ← finish_all flushed db
  db'' ← finish_last_compaction config after_compaction db'.m_ss_table_compaction_future db'
  ok (record db'' {
    shared = record db''.shared {
      files = remove_files_with_ext deprecated_file_ext db''.shared.files;
    };
  })
