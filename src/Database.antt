-- ===== src/Database.antt =====
-- The class `ProjectDbImpl` (db/projectdb.cpp) after its start: lookups, updates and the checks of the
-- background jobs.
pub mod HandOff
pub mod Running
pub mod Sound
pub mod Files
pub mod FlushDone
pub mod Background
pub mod FlushFiles
pub mod FlushTaken
pub mod Represents
pub mod Checked
pub mod Get
pub mod LogFiles
pub mod MemoryGrows
pub mod MemoryUpdate
pub mod Storable
pub mod MemoryUpdated
pub mod Updated
pub mod Update
pub mod Runs
pub mod Refines
pub mod Drains
pub mod Lifetime
pub mod Directory
pub mod Restart
use project_db.MemTableQueue
use project_db.SsTableIndexQueue
use project_db.Common.{
  Bool, Option, none, some, Bytes, Result, ok, ◌>>=◌, ℕ, true, false, List, [], ◌∷◌, ◌++◌, drop,
  if◌then◌else◌,
}
use project_db.FileSystem.{remove_ext_and_rename}
use project_db.MemTableQueue.{Shared, MemTableQueue, pop, FlushJob}
use project_db.SsTableIndex.{SsTableIndex, set_ss_table_file_name}
use project_db.SsTableIndexQueue.{SsTableIndexQueue, try_launch_compaction}
use project_db.Value.{Value, underlying_value}
use project_db.Config.{DbConfig}

-- A future: what the job was given when it was launched, and, if it is ready, its result or the
-- exception that ended it, which `get` throws again.
pub record FlushFuture : Type 0 where
  pub job : FlushJob
  pub result : Option (Result SsTableIndex)

pub record CompactionFuture : Type 0 where
  pub range : List SsTableIndex
  pub result : Option (Result (List SsTableIndex))

pub record ProjectDb : Type 0 where
  pub m_mem_table_queue : MemTableQueue
  pub m_ss_table_index_queue : SsTableIndexQueue
  pub m_flush_to_disk_futures : List FlushFuture
  pub m_ss_table_compaction_future : Option CompactionFuture
  pub shared : Shared

abbrev pub underlying : Option Value → Option Bytes
underlying none = none
underlying (some v) = underlying_value v

-- `get` after the check of the futures
unfoldable pub lookup : Bool → ProjectDb → Bytes → Result (Option Bytes) × ProjectDb
unfolding MemTableQueue.get SsTableIndexQueue.get underlying_value
lookup keep_ss_table_file_open db key =
    let (ss_table_rtn, q) =
      SsTableIndexQueue.get keep_ss_table_file_open db.shared.files db.m_ss_table_index_queue
        (record { m_key = key }) in
    elim (MemTableQueue.get db.m_mem_table_queue key) [
      | some v ↦ (ok (underlying_value v), db)
      | none ↦ (
        (do found ← ss_table_rtn; ok (underlying found)),
        record db { m_ss_table_index_queue = q },
      )
    ]

-- A round of the loop of `checkFlushToDiskFutures`, for a future that is ready.
unfoldable pub finish_flush : SsTableIndex → ProjectDb → Result ProjectDb
unfolding remove_ext_and_rename SsTableIndexQueue.insert pop
finish_flush ss_table_index db = do
  (name, fs) ← remove_ext_and_rename ss_table_index.m_ss_table_file_name db.shared.files
  (mem_table_queue, shared) ← pop db.m_mem_table_queue (record db.shared { files = fs })
  ok (record db {
    m_mem_table_queue = mem_table_queue;
    m_ss_table_index_queue =
        SsTableIndexQueue.insert db.m_ss_table_index_queue
          (set_ss_table_file_name ss_table_index name);
    m_flush_to_disk_futures = drop 1 db.m_flush_to_disk_futures;
    shared = shared;
  })

-- The loop, over the futures; it stops at the first that is not ready.
unfoldable pub finish_flushes : List FlushFuture → ProjectDb → Result ProjectDb
unfolding finish_flush
finish_flushes [] db = ok db
finish_flushes (future ∷ rest) db = elim future.result [
  | none ↦ ok db
  | some outcome ↦ do
    ss_table_index ← outcome
    db' ← finish_flush ss_table_index db
    finish_flushes rest db'
]

-- the end of `checkFlushToDiskFutures`
unfoldable pub launch_compaction : ℕ → ProjectDb → ProjectDb
unfolding try_launch_compaction
launch_compaction num_ss_table_to_compact db =
    elim (try_launch_compaction num_ss_table_to_compact db.m_ss_table_index_queue) [
      | none ↦ db
      | some range ↦ record db {
        m_ss_table_compaction_future = some (record { range = range; result = none });
      }
    ]

unfoldable pub check_flush_to_disk_futures : DbConfig → ProjectDb → Result ProjectDb
unfolding finish_flushes launch_compaction
check_flush_to_disk_futures config db = do
  db' ← finish_flushes db.m_flush_to_disk_futures db
  ok (launch_compaction config.num_sstable_to_compact db')

-- The result of a compaction is taken.
unfoldable pub finish_compaction : DbConfig → List SsTableIndex → ProjectDb → Result ProjectDb
unfolding SsTableIndexQueue.update
finish_compaction config after_compaction db = do
  (q, fs) ←
      SsTableIndexQueue.update config.num_sstable_to_compact after_compaction
        db.m_ss_table_index_queue db.shared.files
  ok (record db {
    m_ss_table_index_queue = q;
    m_ss_table_compaction_future = none;
    shared = record db.shared { files = fs };
  })

-- The flag says that a compaction still runs.
unfoldable pub check_future :
    DbConfig → Option CompactionFuture → ProjectDb → Result (Bool × ProjectDb)
unfolding finish_compaction
check_future config none db = ok (false, db)
check_future config (some future) db = elim future.result [
  | none ↦ ok (true, db)
  | some outcome ↦ do
    after_compaction ← outcome
    db' ← finish_compaction config after_compaction db
    ok (false, db')
]

unfoldable pub check_ss_table_compaction_future : DbConfig → ProjectDb → Result (Bool × ProjectDb)
unfolding check_future
check_ss_table_compaction_future config db = check_future config db.m_ss_table_compaction_future db

unfoldable pub check_futures : DbConfig → ProjectDb → Result ProjectDb
unfolding check_ss_table_compaction_future check_flush_to_disk_futures
check_futures config db = do
  (has_compaction_running, db') ← check_ss_table_compaction_future config db
  if has_compaction_running then ok db' else check_flush_to_disk_futures config db'

abbrev pub add_future : Option FlushJob → List FlushFuture → List FlushFuture
add_future none futures = futures
add_future (some job) futures = futures ++ record { job = job; result = none } ∷ []

-- `set` and `remove` after the check of the futures
unfoldable pub set_checked : DbConfig → Bytes → Bytes → ProjectDb → Result ProjectDb
unfolding MemTableQueue.set
set_checked config key value db = do
  (job, q, shared) ←
      MemTableQueue.set config.memtable_approximate_max_size_in_bytes key value db.m_mem_table_queue
        db.shared
  ok (record db {
    m_mem_table_queue = q;
    m_flush_to_disk_futures = add_future job db.m_flush_to_disk_futures;
    shared = shared;
  })

unfoldable pub remove_checked : DbConfig → Bytes → ProjectDb → Result ProjectDb
unfolding MemTableQueue.remove
remove_checked config key db = do
  (job, q, shared) ←
      MemTableQueue.remove config.memtable_approximate_max_size_in_bytes key db.m_mem_table_queue
        db.shared
  ok (record db {
    m_mem_table_queue = q;
    m_flush_to_disk_futures = add_future job db.m_flush_to_disk_futures;
    shared = shared;
  })

unfoldable pub get : DbConfig → Bytes → ProjectDb → Result (Option Bytes × ProjectDb)
unfolding check_futures lookup
get config key db = do
  db' ← check_futures config db
  let (rtn, db'') = lookup config.keep_sstable_file_open db' key
  value ← rtn
  ok (value, db'')

unfoldable pub set : DbConfig → Bytes → Bytes → ProjectDb → Result ProjectDb
unfolding check_futures set_checked
set config key value db = do db' ← check_futures config db; set_checked config key value db'

unfoldable pub remove : DbConfig → Bytes → ProjectDb → Result ProjectDb
unfolding check_futures remove_checked
remove config key db = do db' ← check_futures config db; remove_checked config key db'
