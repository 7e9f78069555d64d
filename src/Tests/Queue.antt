-- ===== src/Tests/Queue.antt =====
-- Compactions and the queue of tables on disk.
use project_db.SsTableIndexQueue.{
  get, insert, update, SsTableIndexQueue, new_queue, try_launch_compaction, mark_all_as_deprecated,
  rename_all,
}
use project_db.Common.{
  ◌+◌, ◌-◌, ◌≡◌, refl, false, none, some, List, [], ◌∷◌, ◌++◌, arith, length, Bytes, ok,
}
use project_db.Compaction.{SourceTable, MergedTable, merge_ss_tables}
use project_db.Compaction.Effect.{
  merge_ss_tables-Unchanged, merge_ss_tables-visible, merge_ss_tables_resurrects,
}
use project_db.Compaction.Groups.{source_tables, merged_tables, SortedSources}
use project_db.Compaction.Layers.{lookup_layers, visible, Unchanged}
use project_db.FileSystem.{FileSystem, file_content}
use project_db.FileSystem.Names.{gen_deprecated_file_name}
use project_db.Key.{string_eq, less, beq, key_ord}
use project_db.SsTable.{Table, empty}
use project_db.SsTableIndex.{SsTableIndex, seek_file}
use project_db.SsTableIndexQueue.Lookup.{Serves, AllServe, get-lookup_layers}
use project_db.SsTableIndexQueue.Update.{try_launch_compaction-enough, update-launched, insert_each}
use project_db.SsTableOps.Flush.{encode_ss_table}
use project_db.StdMap.{find, emplace}
use project_db.Tests.Data.{
  key_a, key_b, key_c, old_table, new_table, old_table-IsSorted, new_table-IsSorted, old_index,
  old_index-named,
}
use project_db.Value.{tombstone, of_string, is_tombstone_value}

abbrev old_source : SourceTable
old_source = record { file_size = 60; name = b'o' ∷ []; content = old_table }

abbrev new_source : SourceTable
new_source = record { file_size = 60; name = b'n' ∷ []; content = new_table }

sources-SortedSources : SortedSources (old_source ∷ new_source ∷ [])
sources-SortedSources = (old_table-IsSorted, (new_table-IsSorted, tt))

abbrev merged : MergedTable
merged = record {
  base_name = b'o' ∷ [];
  content = record empty {
    m_table = (key_a, of_string (b'1' ∷ [])) ∷ (key_c, of_string (b'3' ∷ [])) ∷ [];
  };
}

sources-merged : merge_ss_tables 1000 (old_source ∷ new_source ∷ []) ≡ ok (merged ∷ [])
unfolding merge_ss_tables less is_tombstone_value emplace
sources-merged = refl

abbrev oldest : Table
oldest = (key_b, of_string (b'0' ∷ [])) ∷ []

merge_ss_tables-Unchanged_example :
    Unchanged
      (lookup_layers key_b ((oldest ∷ []) ++ (source_tables (old_source ∷ new_source ∷ []) ++ [])))
      (lookup_layers key_b ((oldest ∷ []) ++ (merged_tables (merged ∷ []) ++ [])))
merge_ss_tables-Unchanged_example =
    merge_ss_tables-Unchanged key_b (oldest ∷ []) [] 1000 (old_source ∷ new_source ∷ [])
      (merged ∷ []) sources-SortedSources sources-merged

merge_ss_tables-visible_example :
    (m : MergedTable) × (merge_ss_tables 1000 (old_source ∷ new_source ∷ []) ≡ ok (m ∷ []))
    × (visible (lookup_layers key_b (source_tables (old_source ∷ new_source ∷ []) ++ []))
        ≡ visible (lookup_layers key_b (m.content.m_table ∷ [])))
merge_ss_tables-visible_example =
    merge_ss_tables-visible key_b [] 1000 old_source new_source [] sources-SortedSources
      (omega arith)

merge_ss_tables_resurrects_example :
    (m : MergedTable) × (merge_ss_tables 1000 (old_source ∷ new_source ∷ []) ≡ ok (m ∷ []))
    × (visible (lookup_layers key_b ((oldest ∷ []) ++ source_tables (old_source ∷ new_source ∷ [])))
        ≡ none)
    × (visible (lookup_layers key_b ((oldest ∷ []) ++ m.content.m_table ∷ [])) ≡ some (b'0' ∷ []))
unfolding lookup_layers is_tombstone_value find beq
merge_ss_tables_resurrects_example =
    merge_ss_tables_resurrects key_b (oldest ∷ []) 1000 old_source new_source
      (of_string (b'0' ∷ [])) (of_string (b'2' ∷ [])) tombstone sources-SortedSources refl refl refl
      refl refl

abbrev named_index : Bytes → SsTableIndex
named_index name = record old_index { m_ss_table_file_name = name }

abbrev disk : FileSystem
disk = (b'f' ∷ [], encode_ss_table old_table) ∷ []

disk-Serves : Serves false disk (named_index (b'f' ∷ [])) old_table.m_table
unfolding file_content string_eq seek_file
disk-Serves = (encode_ss_table old_table, old_index-named (b'f' ∷ []), refl)

get-lookup_layers_example :
    ((get false disk (insert new_queue (named_index (b'f' ∷ []))) key_b).0
      ≡ ok (lookup_layers key_b (old_table.m_table ∷ [])))
    × AllServe false disk
        (get false disk (insert new_queue (named_index (b'f' ∷ []))) key_b).1.m_queue
        (old_table.m_table ∷ [])
unfolding insert
get-lookup_layers_example =
    get-lookup_layers false disk (insert new_queue (named_index (b'f' ∷ [])))
      (old_table.m_table ∷ []) key_b (disk-Serves, tt)

abbrev full_queue : SsTableIndexQueue
full_queue = record {
  m_queue = named_index (b'a' ∷ []) ∷ named_index (b'b' ∷ []) ∷ named_index (b'c' ∷ []) ∷ [];
  m_compaction_start_index = 1;
}

try_launch_compaction-enough_example :
    try_launch_compaction 1 full_queue
    ≡ some (named_index (b'b' ∷ []) ∷ named_index (b'c' ∷ []) ∷ [])
try_launch_compaction-enough_example =
    try_launch_compaction-enough 1 full_queue (omega arith) (omega arith) (omega arith)

abbrev full_disk : FileSystem
full_disk = (b'b' ∷ [], []) ∷ (b'c' ∷ [], []) ∷ (b'b' ∷ b'.' ∷ b'm' ∷ [], []) ∷ []

abbrev disk_marked : FileSystem
disk_marked =
    (gen_deprecated_file_name (b'c' ∷ []), [])
    ∷ (gen_deprecated_file_name (b'b' ∷ []), [])
    ∷ (b'b' ∷ b'.' ∷ b'm' ∷ [], [])
    ∷ []

abbrev disk_renamed : FileSystem
disk_renamed =
    (b'b' ∷ [], [])
    ∷ (gen_deprecated_file_name (b'c' ∷ []), [])
    ∷ (gen_deprecated_file_name (b'b' ∷ []), [])
    ∷ []

files-marked :
    mark_all_as_deprecated (named_index (b'b' ∷ []) ∷ named_index (b'c' ∷ []) ∷ []) full_disk
    ≡ ok disk_marked
unfolding mark_all_as_deprecated string_eq
files-marked = refl

file-renamed :
    rename_all (named_index (b'b' ∷ b'.' ∷ b'm' ∷ []) ∷ []) disk_marked
    ≡ ok (named_index (b'b' ∷ []) ∷ [], disk_renamed)
unfolding rename_all string_eq gen_deprecated_file_name
file-renamed = refl

update-launched_example :
    (older newer : List SsTableIndex) × (full_queue.m_queue
      ≡ older ++ ((named_index (b'b' ∷ []) ∷ named_index (b'c' ∷ []) ∷ []) ++ newer))
    × (update 1
          (named_index (b'b' ∷ b'.' ∷ b'm' ∷ []) ∷ [])
          (insert_each full_queue (named_index (b'd' ∷ []) ∷ []))
          full_disk
        ≡ ok (
          record {
            m_queue =
                older
                ++ ((named_index (b'b' ∷ []) ∷ []) ++ (newer ++ named_index (b'd' ∷ []) ∷ []));
            m_compaction_start_index = length older + length (named_index (b'b' ∷ []) ∷ []) - 1;
          },
          disk_renamed,
        ))
update-launched_example =
    update-launched 1 full_queue (named_index (b'b' ∷ []) ∷ named_index (b'c' ∷ []) ∷ [])
      (named_index (b'd' ∷ []) ∷ []) (named_index (b'b' ∷ b'.' ∷ b'm' ∷ []) ∷ [])
      (named_index (b'b' ∷ []) ∷ []) full_disk disk_marked disk_renamed (omega arith) (omega arith)
      (omega arith) (λ e. cc) try_launch_compaction-enough_example files-marked file-renamed
