-- ===== src/Compaction.antt =====
-- `mergeSSTables` (db/sstable_ops.cpp) on the tables themselves: which of them end up in which
-- merged table.
pub mod Layers
pub mod Groups
pub mod Effect
pub mod Disk
pub mod Written
pub mod DiskRounds
pub mod DiskGroups
pub mod DiskMerge
use project_db.Common.{
  ℕ, ◌+◌, List, [], ◌∷◌, Bytes, db_exception, Result, ok, err, ltb, if◌then◌else◌,
}
use project_db.SsTable.{SsTable, merge_ss_table}

-- What the loop reads of a file: its size on disk and its table.
pub record SourceTable : Type 0 where
  pub file_size : ℕ
  pub name : Bytes
  pub content : SsTable

-- What the loop hands to `flushSSTable`: the name of the first source of the group, and the table.
pub record MergedTable : Type 0 where
  pub base_name : Bytes
  pub content : SsTable

-- `next` is not at the end when a round begins; `max_size` is SSTABLE_APPROXIMATE_MAX_SIZE_IN_BYTES.
unfoldable pub merge_rounds :
    ℕ → Bytes → SsTable → ℕ → SourceTable → List SourceTable → List MergedTable
unfolding merge_ss_table
merge_rounds max_size base_name curr_table curr_table_size next [] =
    record { base_name = base_name; content = merge_ss_table curr_table next.content } ∷ []
merge_rounds max_size base_name curr_table curr_table_size next (after ∷ []) =
    let merged = merge_ss_table curr_table next.content in
    let size = curr_table_size + next.file_size in
    let same_group = merge_rounds max_size base_name merged size after [] in
    if ltb max_size size
    then record { base_name = base_name; content = merged }
      ∷ record { base_name = after.name; content = after.content }
      ∷ []
    else same_group
merge_rounds max_size base_name curr_table curr_table_size next (after ∷ third ∷ rest) =
    let merged = merge_ss_table curr_table next.content in
    let size = curr_table_size + next.file_size in
    let same_group = merge_rounds max_size base_name merged size after (third ∷ rest) in
    let next_group = merge_rounds max_size after.name after.content after.file_size third rest in
    if ltb max_size size
    then record { base_name = base_name; content = merged } ∷ next_group
    else same_group

-- The error is the exception "Only one element to merge!".
unfoldable pub merge_ss_tables : ℕ → List SourceTable → Result (List MergedTable)
unfolding merge_rounds
merge_ss_tables max_size [] = err db_exception
merge_ss_tables max_size (curr ∷ []) = err db_exception
merge_ss_tables max_size (curr ∷ next ∷ rest) =
    ok (merge_rounds max_size curr.name curr.content curr.file_size next rest)
