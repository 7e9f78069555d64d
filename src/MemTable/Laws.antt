-- ===== src/MemTable/Laws.antt =====
-- What the operations of `MemTable` promise.
use project_db.Common.{
  ℕ, ◌+◌, ◌%◌, ◌^◌, ◌≤◌, ◌<◌, ◌≡◌, ◌↔◌, true, some, [], ◌∷◌, arith, length, if◌then◌else◌,
}
use project_db.Key.{Key, beq, key_ord}
use project_db.MemTable.{
  MemTable, get_value, set, remove, entry_size, size_loop, needs_flush_to_disk,
}
use project_db.SsTable.{Table}
use project_db.StdMap.{IsSorted}
use project_db.StdMap.Find.{find-insert_or_assign}
use project_db.StdMap.Order.{insert_or_assign-IsSorted}
use project_db.Value.{Value, tombstone}

-- After `set`, a lookup of that key finds the new value, and a lookup of any other key finds what it
-- found before.
pub get_value-set :
    (m : MemTable) (k j : Key) (v : Value)
    → get_value (set m k v) j ≡ (if beq k j then some v else get_value m j)
unfolding get_value set
get_value-set m k j v = find-insert_or_assign k j v m.m_table

-- After `remove` of a key, a lookup of that key finds a tombstone, not nothing, and a lookup of any
-- other key finds what it found before.
pub get_value-remove :
    (m : MemTable) (k j : Key)
    → get_value (remove m k) j ≡ (if beq k j then some tombstone else get_value m j)
unfolding remove
get_value-remove m k j = get_value-set m k j tombstone

pub set-IsSorted :
    (m : MemTable) (k : Key) (v : Value) → IsSorted m.m_table → IsSorted (set m k v).m_table
unfolding set
set-IsSorted m k v = insert_or_assign-IsSorted k v m.m_table

-- The number of bytes of the keys and values, and 4 for each value's type, without wrap-around.
unfoldable pub total_size : Table → ℕ
total_size [] = 0
total_size ((k, v) ∷ t) = length k.m_key + (4 + length v.m_value) + total_size t

size_loop-total_size :
    (t : Table) (n : ℕ) → n + total_size t < 2 ^ 32 → size_loop t n ≡ n + total_size t
unfolding size_loop total_size
size_loop-total_size [] n h = omega arith
size_loop-total_size ((k, v) ∷ t) n h =
    omega (arith, size_loop-total_size t ((n + entry_size (k, v)) % 2 ^ 32) (omega arith))

-- As long as the bytes of the table are fewer than 2^32, a flush is due exactly when they reach the
-- limit.
pub needs_flush_to_disk_iff :
    (max_size : ℕ) (m : MemTable)
    → total_size m.m_table < 2 ^ 32
    → (needs_flush_to_disk max_size m ≡ true) ↔ (max_size ≤ total_size m.m_table)
unfolding needs_flush_to_disk
needs_flush_to_disk_iff max_size m h =
    ground (arith, size_loop-total_size m.m_table 0 (omega arith))
