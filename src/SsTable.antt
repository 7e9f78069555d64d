-- ===== src/SsTable.antt =====
-- The classes `Table`, `SSTableMetaData` and `SSTable` (db/table.h, db/sstable.h, db/sstable.cpp)
-- and the merge of two tables (db/sstable_ops.cpp).
pub mod Merge
pub mod Stored
use project_db.Common.{ℕ, true, false, [], ◌∷◌}
use project_db.StdMap.{StdMap, emplace}
use project_db.Key.{Key, less, key_ord}
use project_db.Value.{Value, is_tombstone_value}

abbrev pub Table : Type 0
Table = StdMap Key Value

pub record SsTableMetaData : Type 0 where
  pub m_ms_since_epoch : ℕ

pub record SsTable : Type 0 where
  pub m_meta_data : SsTableMetaData
  pub m_table : Table

-- SSTable()
abbrev pub empty : SsTable
empty = record { m_meta_data = record { m_ms_since_epoch = 0 }; m_table = [] }

-- SSTable(shared_ptr<Table>), at the time `now`
abbrev pub of_table : ℕ → Table → SsTable
of_table now t = record { m_meta_data = record { m_ms_since_epoch = now }; m_table = t }

-- while (it != table.end()) { mergedTable.emplace(*it); it++; }
unfoldable pub emplace_all : Table → Table → Table
emplace_all [] merged = merged
emplace_all ((k, v) ∷ it) merged = emplace_all it (emplace k v merged)

-- the loop over both tables, then the loops over what is left
unfoldable pub merge_loop : Table → Table → Table → Table
unfolding emplace_all
merge_loop [] new_it merged = emplace_all new_it merged
merge_loop ((k_old, v_old) ∷ old_it) [] merged = emplace_all ((k_old, v_old) ∷ old_it) merged
merge_loop ((k_old, v_old) ∷ old_it) ((k_new, v_new) ∷ new_it) merged = elim (less k_old k_new) [
  | true ↦ merge_loop old_it ((k_new, v_new) ∷ new_it) (emplace k_old v_old merged)
  | false ↦ elim (less k_new k_old) [
    | true ↦ merge_loop ((k_old, v_old) ∷ old_it) new_it (emplace k_new v_new merged)
    | false ↦ elim (is_tombstone_value v_new) [
      | true ↦ merge_loop old_it new_it merged
      | false ↦ merge_loop old_it new_it (emplace k_new v_new merged)
    ]
  ]
]

unfoldable pub merge_ss_table : SsTable → SsTable → SsTable
unfolding merge_loop
merge_ss_table old_ss_table new_ss_table = record empty {
  m_table = merge_loop old_ss_table.m_table new_ss_table.m_table [];
}
