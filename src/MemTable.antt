-- ===== src/MemTable.antt =====
-- The class `MemTable` (db/memtable.h, db/memtable.cpp): the table in memory.
pub mod Laws
use project_db.Key
use project_db.Value
use project_db.Key.{Key, key_ord}
use project_db.Value.{Value, tombstone}
use project_db.Common.{ℕ, ◌+◌, ◌%◌, ◌^◌, Bool, Option, [], ◌∷◌, leb}
use project_db.SsTable.{Table}
use project_db.StdMap.{find, insert_or_assign}

pub record MemTable : Type 0 where
  pub m_table : Table

-- MemTable()
abbrev pub new_mem_table : MemTable
new_mem_table = record { m_table = [] }

unfoldable pub get_value : MemTable → Key → Option Value
get_value mem_table key = find key mem_table.m_table

unfoldable pub set : MemTable → Key → Value → MemTable
set mem_table key value = record { m_table = insert_or_assign key value mem_table.m_table }

-- A removed key is set to a tombstone.
unfoldable pub remove : MemTable → Key → MemTable
unfolding set
remove mem_table key = set mem_table key tombstone

-- k.getApproximateSizeInBytes() + v.getApproximateSizeInBytes(), in `unsigned`
unfoldable pub entry_size : Key × Value → ℕ
unfolding Key.get_approximate_size_in_bytes Value.get_approximate_size_in_bytes
entry_size e =
    (Key.get_approximate_size_in_bytes e.0 + Value.get_approximate_size_in_bytes e.1) % 2 ^ 32

-- the loop over the table, with `currSizeInBytes` wrapping around
unfoldable pub size_loop : Table → ℕ → ℕ
unfolding entry_size
size_loop [] curr_size_in_bytes = curr_size_in_bytes
size_loop (e ∷ table) curr_size_in_bytes =
    size_loop table ((curr_size_in_bytes + entry_size e) % 2 ^ 32)

-- `max_size` is MEMTABLE_APPROXIMATE_MAX_SIZE_IN_BYTES
unfoldable pub needs_flush_to_disk : ℕ → MemTable → Bool
unfolding size_loop
needs_flush_to_disk max_size mem_table = leb max_size (size_loop mem_table.m_table 0)
