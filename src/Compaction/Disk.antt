-- ===== src/Compaction/Disk.antt =====
-- `mergeSSTables` (db/sstable_ops.cpp) on the files of the directory.
use project_db.Common.{
  ℕ, ◌+◌, true, false, none, some, List, [], ◌∷◌, length, Bytes, db_exception, Result, ok, err,
  ◌>>=◌, ltb, Option, filesystem_error, Bool, not, ◌&&◌,
}
use project_db.FileSystem.{FileSystem, file_content, remove_files_with_ext}
use project_db.FileSystem.Names.{deprecated_file_ext, gen_merged_ss_table_file_name}
use project_db.SsTable.{SsTable, merge_ss_table}
use project_db.SsTableIndex.{SsTableIndex}
use project_db.SsTableOps.{flush_ss_table, load_ss_table}

-- getFileSizeInBytes
abbrev pub get_file_size_in_bytes : Option Bytes → Result ℕ
get_file_size_in_bytes none = err filesystem_error
get_file_size_in_bytes (some file) = ok (length file)

-- A source, loaded, and the size of its file.
unfoldable pub load_source : ℕ → FileSystem → Bytes → Result (SsTable × ℕ)
unfolding load_ss_table file_content
load_source block_size fs name = do
  (ss_table, index) ← load_ss_table block_size name (file_content fs name) none
  size ← get_file_size_in_bytes (file_content fs name)
  ok (ss_table, size)

-- The merged table is written under the name of the first source of its group.
unfoldable pub flush_merged : ℕ → SsTable → Bytes → FileSystem → Result (SsTableIndex × FileSystem)
unfolding flush_ss_table gen_merged_ss_table_file_name
flush_merged block_size ss_table base_name fs =
    flush_ss_table block_size ss_table (gen_merged_ss_table_file_name base_name) fs

-- The group that is being merged: the name of its first source, its table, and the sizes so far.
pub record Group : Type 0 where
  pub base_name : Bytes
  pub curr_table : SsTable
  pub curr_table_size : ℕ

-- The next source, merged into the group.
abbrev pub merge_into : Group → SsTable → ℕ → Group
merge_into group next_table next_size = record {
  base_name = group.base_name;
  curr_table = merge_ss_table group.curr_table next_table;
  curr_table_size = group.curr_table_size + next_size;
}

abbrev pub next_is_end : List Bytes → Bool
next_is_end [] = true
next_is_end (name ∷ names) = false

-- A round, after `next` is loaded: `loop` goes on with the sources after it, and `at_end` says that
-- there are none.
unfoldable pub merge_round :
    ℕ
    → ℕ
    → Bool
    → Group
    → FileSystem
    → (Option Group → FileSystem → Result (List SsTableIndex × FileSystem))
    → SsTable × ℕ
    → Result (List SsTableIndex × FileSystem)
unfolding merge_ss_table flush_merged
merge_round block_size max_size at_end group fs loop (next_table, next_size) =
    let merged = merge_into group next_table next_size in
    elim (not at_end && ltb max_size merged.curr_table_size) [
      | false ↦ loop (some merged) fs
      | true ↦ do
        (index, fs₁) ← flush_merged block_size merged.curr_table merged.base_name fs
        (others, fs₂) ← loop none fs₁
        ok (index ∷ others, fs₂)
    ]

-- The loop over the sources that are left. Without a group, the next source begins one.
unfoldable pub merge_files_loop :
    ℕ → ℕ → Option Group → List Bytes → FileSystem → Result (List SsTableIndex × FileSystem)
unfolding load_source merge_round flush_merged
merge_files_loop block_size max_size none [] fs = ok ([], fs)
merge_files_loop block_size max_size (some group) [] fs = do
  (index, fs') ← flush_merged block_size group.curr_table group.base_name fs
  ok (index ∷ [], fs')
merge_files_loop block_size max_size none (curr ∷ rest) fs = do
  (table, size) ← load_source block_size fs curr
  merge_files_loop block_size max_size
      (some (record { base_name = curr; curr_table = table; curr_table_size = size })) rest fs
merge_files_loop block_size max_size (some group) (next ∷ rest) fs =
    load_source block_size fs next
    >>= merge_round block_size max_size (next_is_end rest) group fs
        (λ group' fs'. merge_files_loop block_size max_size group' rest fs')

-- The names are those of the indexes in the range.
unfoldable pub merge_files :
    ℕ → ℕ → List Bytes → FileSystem → Result (List SsTableIndex × FileSystem)
unfolding merge_files_loop remove_files_with_ext
merge_files block_size max_size [] fs = err db_exception
merge_files block_size max_size (curr ∷ []) fs = err db_exception
merge_files block_size max_size (curr ∷ next ∷ rest) fs =
    merge_files_loop block_size max_size none (curr ∷ next ∷ rest)
      (remove_files_with_ext deprecated_file_ext fs)
