-- ===== src/Tests/Whole.antt =====
-- The tables in memory and the whole database.
use project_db.MemTableQueue
use project_db.Database
use project_db.Common.{◌≡◌, refl, false, Option, some, [], ◌∷◌, ◌++◌, Bytes, ok, none}
use project_db.Compaction.Layers.{lookup_layers, visible}
use project_db.Database.{ProjectDb, lookup, finish_flush}
use project_db.Database.HandOff.{lookup-layers, finish_flush-lookup}
use project_db.FileSystem.{FileSystem, file_content, mark_file_as_deprecated, remove_ext_and_rename}
use project_db.FileSystem.Names.{gen_deprecated_file_name}
use project_db.Key.{string_eq, beq, key_ord}
use project_db.MemTableQueue.{FlushJob, Shared, MemTableQueue}
use project_db.MemTableQueue.Lookup.{tables}
use project_db.MemTableQueue.Update.{get-set, get-remove}
use project_db.SsTableIndex.{SsTableIndex, set_ss_table_file_name, seek_file}
use project_db.SsTableIndexQueue.{new_queue, insert}
use project_db.SsTableIndexQueue.Lookup.{Serves}
use project_db.SsTableOps.Flush.{encode_ss_table}
use project_db.Tests.Data.{old_table, old_index, old_index-named, new_table}
use project_db.TransactionLog.Loop.{to_key}
use project_db.Value.{tombstone, underlying_value}
use project_db.Database.Running.{UpdatesFrom, update-while_compacting}
use project_db.Config.{default_config}
use project_db.StdMap.{find}

abbrev counters : FileSystem → Shared
counters fs = record {
  files = fs;
  sstable_file_counter_base = 3;
  transaction_log_file_counter_base = 5;
}

abbrev log_name : Bytes
log_name = b'l' ∷ []

abbrev one_table : MemTableQueue
one_table = record {
  m_queue =
      record { mem_table = record { m_table = old_table.m_table }; log_file_name = log_name } ∷ [];
}

get-set_example :
    (job : Option FlushJob) × (q' : MemTableQueue) × (shared' : Shared) × (MemTableQueue.set 10
        (b'a' ∷ [])
        (b'9' ∷ [])
        one_table
        (counters [])
      ≡ ok (job, q', shared'))
    × (MemTableQueue.get q' (b'b' ∷ []) ≡ MemTableQueue.get one_table (b'b' ∷ []))
unfolding beq string_eq
get-set_example = get-set 10 (b'a' ∷ []) (b'9' ∷ []) (b'b' ∷ []) one_table (counters [])

get-remove_example :
    (job : Option FlushJob) × (q' : MemTableQueue) × (shared' : Shared) × (MemTableQueue.remove 10
        (b'a' ∷ [])
        one_table
        (counters [])
      ≡ ok (job, q', shared'))
    × (MemTableQueue.get q' (b'a' ∷ []) ≡ some tombstone)
unfolding beq string_eq
get-remove_example = get-remove 10 (b'a' ∷ []) (b'a' ∷ []) one_table (counters [])

abbrev flushed_index : SsTableIndex
flushed_index = record old_index { m_ss_table_file_name = b'f' ∷ b'.' ∷ b'i' ∷ b'p' ∷ [] }

abbrev flushed_files : FileSystem
flushed_files = (b'f' ∷ b'.' ∷ b'i' ∷ b'p' ∷ [], encode_ss_table old_table) ∷ (log_name, []) ∷ []

abbrev renamed_files : FileSystem
renamed_files = (b'f' ∷ [], encode_ss_table old_table) ∷ (log_name, []) ∷ []

abbrev handed_over : FileSystem
handed_over = (gen_deprecated_file_name log_name, []) ∷ (b'f' ∷ [], encode_ss_table old_table) ∷ []

abbrev flushing : ProjectDb
flushing = record {
  m_mem_table_queue = one_table;
  m_ss_table_index_queue = new_queue;
  m_flush_to_disk_futures = [];
  m_ss_table_compaction_future = none;
  shared = counters flushed_files;
}

flushed-renamed :
    remove_ext_and_rename flushed_index.m_ss_table_file_name flushed_files
    ≡ ok (b'f' ∷ [], renamed_files)
unfolding remove_ext_and_rename string_eq
flushed-renamed = refl

log-marked : mark_file_as_deprecated log_name renamed_files ≡ ok handed_over
unfolding mark_file_as_deprecated string_eq
log-marked = refl

handed_over-Serves :
    Serves false handed_over (set_ss_table_file_name flushed_index (b'f' ∷ [])) old_table.m_table
unfolding file_content string_eq seek_file gen_deprecated_file_name
handed_over-Serves = (encode_ss_table old_table, old_index-named (b'f' ∷ []), refl)

-- One table in memory and one on disk, each with keys that the other does not have.
abbrev on_both : ProjectDb
on_both = record flushing {
  m_mem_table_queue = record {
    m_queue =
        record { mem_table = record { m_table = new_table.m_table }; log_file_name = log_name }
        ∷ [];
  };
  m_ss_table_index_queue = insert new_queue (set_ss_table_file_name flushed_index (b'f' ∷ []));
  shared = counters handed_over;
}

lookup-layers_example :
    (lookup false on_both (b'a' ∷ [])).0
    ≡ ok (
        visible (
          lookup_layers
            (to_key (b'a' ∷ []))
            ((old_table.m_table ∷ []) ++ tables on_both.m_mem_table_queue.m_queue)))
unfolding insert
lookup-layers_example =
    lookup-layers false on_both (old_table.m_table ∷ []) (b'a' ∷ []) (handed_over-Serves, tt)

-- The key is only on disk, and shows its value.
on_both-a :
    visible (
      lookup_layers
        (to_key (b'a' ∷ []))
        ((old_table.m_table ∷ []) ++ tables on_both.m_mem_table_queue.m_queue))
    ≡ some (b'1' ∷ [])
unfolding find beq string_eq lookup_layers underlying_value
on_both-a = refl

finish_flush-lookup_example :
    (db' : ProjectDb) × (finish_flush flushed_index flushing ≡ ok db')
    × ((lookup false db' (b'b' ∷ [])).0 ≡ (lookup false flushing (b'b' ∷ [])).0)
finish_flush-lookup_example =
    finish_flush-lookup false flushing flushed_index
      (record { mem_table = record { m_table = old_table.m_table }; log_file_name = log_name }) []
      [] (b'f' ∷ []) renamed_files handed_over (b'b' ∷ []) refl tt flushed-renamed log-marked tt
      handed_over-Serves

abbrev compacting : ProjectDb
compacting = record flushing {
  m_ss_table_compaction_future =
      some (record { range = old_index ∷ old_index ∷ []; result = none });
  m_flush_to_disk_futures = [];
}

update-while_compacting_example :
    UpdatesFrom (Database.set default_config (b'a' ∷ []) (b'9' ∷ [])) compacting
    × UpdatesFrom (Database.remove default_config (b'a' ∷ [])) compacting
update-while_compacting_example =
    update-while_compacting default_config (b'a' ∷ []) (b'9' ∷ []) compacting
      (old_index ∷ old_index ∷ []) refl
