-- ===== src/Tests/Start.antt =====
-- A start and a compaction at a concrete directory.
use mathlib.Core.List.{Permᴰ}
use project_db.Common.{ℕ, ◌≡◌, refl, false, List, [], ◌∷◌, arith, All, ok, ◌==◌, if◌then◌else◌}
use project_db.Compaction.Layers.{lookup_layers, visible}
use project_db.Config.{default_config}
use project_db.Database.{ProjectDb}
use project_db.Database.Directory.{Holds, tables_at}
use project_db.Database.Lifetime.{init}
use project_db.Database.Represents.{Represents}
use project_db.Database.Restart.{init-Represents}
use project_db.FileSystem.{FileSystem, file_content}
use project_db.FileSystem.Names.{
  codes, sstable_file_ext, transaction_log_file_ext, decimal_loop, gen_file_name,
  gen_deprecated_file_name, gen_ss_table_file_name, split_ext,
}
use project_db.FileSystem.Sorted.{files_with_ext, generated, IsRising}
use project_db.Key.{string_eq}
use project_db.MemTableQueue.{Shared}
use project_db.SsTable.{SsTable}
use project_db.SsTableOps.Flush.{encode_ss_table}
use project_db.SsTableOps.Load.{SsTableFits}
use project_db.Tests.Data.{old_table, new_table, new_table-IsSorted, old_table-Fits}
use project_db.TransactionLog.Loop.{to_key}
use project_db.Value.Stored.{kind_code}
use project_db.Compaction.{MergedTable, merge_ss_tables}
use project_db.Compaction.Disk.{merge_files}
use project_db.Compaction.DiskMerge.{merge_files-Written}
use project_db.Compaction.Written.{sources_of, names_of, HoldsSource, Written, Untouched}
use project_db.SsTableIndex.{SsTableIndex}
use project_db.SsTable.Stored.{encode_entry}

new_table-Fits : SsTableFits new_table
unfolding kind_code
new_table-Fits = (omega arith, (omega arith, omega arith, new_table-IsSorted))

-- The newer table comes first in the directory.
abbrev left_files : FileSystem
left_files =
    (gen_ss_table_file_name 7, encode_ss_table new_table)
    ∷ (gen_deprecated_file_name (gen_ss_table_file_name 1), [])
    ∷ (gen_ss_table_file_name 2, encode_ss_table old_table)
    ∷ []

abbrev left : Shared
left = record {
  files = left_files;
  sstable_file_counter_base = 0;
  transaction_log_file_counter_base = 0;
}

table_of : ℕ → SsTable
table_of c = if c == 7 then new_table else old_table

left-files_with_ext :
    (files_with_ext sstable_file_ext left_files ≡ generated (codes "sst") (7 ∷ 2 ∷ []))
    × (files_with_ext transaction_log_file_ext left_files ≡ [])
unfolding files_with_ext string_eq gen_ss_table_file_name gen_file_name decimal_loop
    gen_deprecated_file_name split_ext
left-files_with_ext = (refl, refl)

left-Holds : All (Holds left_files table_of) (7 ∷ 2 ∷ [])
unfolding file_content string_eq gen_ss_table_file_name gen_file_name decimal_loop
    gen_deprecated_file_name table_of
left-Holds = ((new_table-Fits, refl), ((old_table-Fits, refl), tt))

init-Represents_example :
    (sorted : List ℕ) × IsRising sorted
    × Permᴰ (7 ∷ 2 ∷ []) sorted
    × (db : ProjectDb) × (init default_config left ≡ ok db)
    × Represents false (λ key. visible (lookup_layers (to_key key) (tables_at table_of sorted))) db
init-Represents_example =
    init-Represents default_config left table_of (7 ∷ 2 ∷ []) (omega arith, (omega arith, tt))
      left-files_with_ext.0 left-files_with_ext.1 left-Holds

abbrev sources : List (ℕ × SsTable)
sources = (2, old_table) ∷ (7, new_table) ∷ []

sources-HoldsSource : All (HoldsSource left_files) sources
unfolding table_of encode_entry
sources-HoldsSource = (left-Holds.1.0, (left-Holds.0, tt))

merge_files-Written_example :
    (written : List MergedTable) × (is : List SsTableIndex) × (fs' : FileSystem) × (merge_ss_tables
        1000
        (sources_of sources)
      ≡ ok written)
    × (merge_files 30 1000 (names_of sources) left_files ≡ ok (is, fs'))
    × Written fs' written is
    × Untouched 2 ((7, new_table) ∷ []) left_files fs'
merge_files-Written_example =
    merge_files-Written 30 1000 2 old_table (7, new_table) [] left_files (omega arith, tt)
      (omega arith) sources-HoldsSource
