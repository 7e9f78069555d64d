-- ===== src/Database/Running.antt =====
-- While a compaction runs.
use project_db.Database
use project_db.Common.{◌≡◌, refl, none, some, List, Bytes, Result, ok}
use project_db.Database.{ProjectDb, check_futures, set_checked, remove_checked, add_future}
use project_db.MemTableQueue.Update.{get-set, get-remove}
use project_db.SsTableIndex.{SsTableIndex}
use project_db.Config.{DbConfig}

running :
    (config : DbConfig) (db : ProjectDb) (range : List SsTableIndex)
    → db.m_ss_table_compaction_future ≡ some (record { range = range; result = none })
    → check_futures config db ≡ ok db
unfolding check_futures
running config db range e = rw e

-- The step succeeds, and leaves the SSTables and the compaction as they are.
abbrev pub UpdatesFrom : (ProjectDb → Result ProjectDb) → ProjectDb → Type 0
UpdatesFrom step db =
    (db' : ProjectDb) × (step db ≡ ok db')
    × (db'.m_ss_table_index_queue ≡ db.m_ss_table_index_queue)
    × (db'.m_ss_table_compaction_future ≡ db.m_ss_table_compaction_future)

set_checked-keeps :
    (config : DbConfig) (key value : Bytes) (db : ProjectDb)
    → UpdatesFrom (set_checked config key value) db
unfolding set_checked
set_checked-keeps config key value db =
    let (job, q', shared', runs, _) =
      get-set config.memtable_approximate_max_size_in_bytes key value key db.m_mem_table_queue
        db.shared in
    (
      record db {
        m_mem_table_queue = q';
        m_flush_to_disk_futures = add_future job db.m_flush_to_disk_futures;
        shared = shared';
      },
      rw runs,
      refl,
      refl,
    )

remove_checked-keeps :
    (config : DbConfig) (key : Bytes) (db : ProjectDb) → UpdatesFrom (remove_checked config key) db
unfolding remove_checked
remove_checked-keeps config key db =
    let (job, q', shared', runs, _) =
      get-remove config.memtable_approximate_max_size_in_bytes key key db.m_mem_table_queue
        db.shared in
    (
      record db {
        m_mem_table_queue = q';
        m_flush_to_disk_futures = add_future job db.m_flush_to_disk_futures;
        shared = shared';
      },
      rw runs,
      refl,
      refl,
    )

-- While a compaction runs, `set` and `remove` succeed, whatever flushes are ready, and the queue of
-- SSTables, into which the compaction holds iterators, stays as it is, as does the compaction.
pub update-while_compacting :
    (config : DbConfig) (key value : Bytes) (db : ProjectDb) (range : List SsTableIndex)
    → db.m_ss_table_compaction_future ≡ some (record { range = range; result = none })
    → UpdatesFrom (Database.set config key value) db × UpdatesFrom (Database.remove config key) db
unfolding Database.set Database.remove
update-while_compacting config key value db range e = (
  rw (running config db range e) (set_checked-keeps config key value db),
  rw (running config db range e) (remove_checked-keeps config key db),
)
