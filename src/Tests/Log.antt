-- ===== src/Tests/Log.antt =====
-- The table in memory, the log, and the names of files.
use project_db.Common.{◌≤◌, ◌≡◌, ◌↔◌, true, some, [], ◌∷◌, ◌++◌, arith, Bytes, ok, take}
use project_db.FileSystem.Laws.{remove_ext-gen, extension-gen}
use project_db.FileSystem.Names.{
  sstable_file_ext, merged_sstable_file_ext, transaction_log_file_ext, deprecated_file_ext,
  gen_deprecated_file_name, gen_ss_table_file_name, gen_flush_in_progress_ss_table_file_name,
  gen_merged_ss_table_file_name, gen_transaction_log_file_name, extension, remove_ext,
}
use project_db.MemTable.{new_mem_table, needs_flush_to_disk}
use project_db.MemTable.Laws.{total_size, needs_flush_to_disk_iff}
use project_db.Tests.Data.{old_table}
use project_db.TransactionLog.{load, type_code}
use project_db.TransactionLog.Loop.{set_bytes, remove_bytes}
use project_db.TransactionLog.Recovery.{remove_log, remove_all, load_stops_at_set}
use project_db.Serializer.Streams.{le_bytes}
use project_db.Serializer.Strings.{encode_string}
use project_db.TransactionLog.Torn.{load-removals}

needs_flush_to_disk_iff_example :
    (needs_flush_to_disk 12 (record { m_table = old_table.m_table }) ≡ true)
    ↔ (12 ≤ total_size old_table.m_table)
unfolding total_size
needs_flush_to_disk_iff_example =
    needs_flush_to_disk_iff 12 (record { m_table = old_table.m_table }) (omega arith)

abbrev abcd : Bytes
abcd = b'a' ∷ b'b' ∷ b'c' ∷ b'd' ∷ []

load_stops_at_set_example :
    load (some (remove_log ((b'a' ∷ []) ∷ []) ++ (set_bytes (b'k' ∷ []) abcd ++ [])))
    ≡ ok (remove_all ((b'a' ∷ []) ∷ []) new_mem_table)
load_stops_at_set_example =
    load_stops_at_set ((b'a' ∷ []) ∷ []) (b'k' ∷ []) abcd [] (omega arith) (omega arith)
      (omega arith) (omega arith) (omega arith)

remove_ext-gen_example :
    (remove_ext (gen_flush_in_progress_ss_table_file_name (b'a' ∷ b'.' ∷ [])) ≡ b'a' ∷ b'.' ∷ [])
    × (remove_ext (gen_merged_ss_table_file_name (b'a' ∷ b'.' ∷ [])) ≡ b'a' ∷ b'.' ∷ [])
remove_ext-gen_example = remove_ext-gen b'a' (b'.' ∷ [])

extension-gen_example :
    (extension (gen_ss_table_file_name 12) ≡ sstable_file_ext)
    × (extension (gen_transaction_log_file_name 12).0 ≡ transaction_log_file_ext)
    × (extension (gen_merged_ss_table_file_name (gen_ss_table_file_name 12))
        ≡ merged_sstable_file_ext)
    × (extension (gen_deprecated_file_name (gen_ss_table_file_name 12)) ≡ deprecated_file_ext)
extension-gen_example = extension-gen 12

load-removals_example :
    load (some (remove_log ((b'a' ∷ []) ∷ (b'b' ∷ []) ∷ []) ++ take 7 (remove_bytes (b'c' ∷ []))))
    ≡ ok (remove_all ((b'a' ∷ []) ∷ (b'b' ∷ []) ∷ []) new_mem_table)
unfolding le_bytes type_code encode_string
load-removals_example =
    load-removals ((b'a' ∷ []) ∷ (b'b' ∷ []) ∷ []) (b'c' ∷ []) 7 (omega arith) (omega arith)
      (omega arith)
