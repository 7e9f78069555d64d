-- ===== src/MemTableQueue.antt =====
-- The class `MemTableQueue` (db/memtable_queue.h, db/memtable_queue.cpp): the tables in memory, each
-- with its log, the oldest first.
pub mod Lookup
pub mod Update
use project_db.MemTable
use project_db.Common.{
  ℕ, ◌+◌, ◌%◌, ◌^◌, Bool, Option, none, some, List, [], ◌∷◌, ◌++◌, Bytes, db_exception, Result, ok,
  err, ◌>>=◌, if◌then◌else◌,
}
use project_db.FileSystem.{FileSystem, file_content, write_file, mark_file_as_deprecated}
use project_db.FileSystem.Names.{
  gen_ss_table_file_name, gen_flush_in_progress_ss_table_file_name, gen_transaction_log_file_name,
}
use project_db.Key.{Key}
use project_db.MemTable.{MemTable, new_mem_table, get_value, needs_flush_to_disk}
use project_db.Serializer.Streams.{OStream, ostream}
use project_db.SsTable.{Table}
use project_db.SsTableIndexQueue.{reverse}
use project_db.TransactionLog.{write_set, write_remove, load}
use project_db.Value.{Value, of_string}

-- The table that a flush is given, and the name of its file.
pub record FlushJob : Type 0 where
  pub table : Table
  pub file_name : Bytes

-- A table and the log of its writer; the writer appends to the file of that name.
pub record QueueEntry : Type 0 where
  pub mem_table : MemTable
  pub log_file_name : Bytes

-- What the queue shares with the rest of the program: the files and the counters of their names.
pub record Shared : Type 0 where
  pub files : FileSystem
  pub sstable_file_counter_base : ℕ
  pub transaction_log_file_counter_base : ℕ

pub record MemTableQueue : Type 0 where
  pub m_queue : List QueueEntry

-- An open for `ios_base::app` makes the file if it is not there.
unfoldable pub open_log : Bytes → FileSystem → FileSystem
unfolding file_content write_file
open_log name fs = elim (file_content fs name) [ none ↦ write_file name [] fs | some c ↦ fs ]

-- `find_if` from the newest entry on, and the value that it has
unfoldable pub find_entry : Key → List QueueEntry → Option Value
unfolding get_value
find_entry key [] = none
find_entry key (entry ∷ older) =
    let in_older = find_entry key older in
    elim (get_value entry.mem_table key) [ none ↦ in_older | some v ↦ some v ]

unfoldable pub get : MemTableQueue → Bytes → Option Value
unfolding find_entry
get q key = find_entry (record { m_key = key }) (reverse q.m_queue)

-- m_queue.emplace_back(): a new table with a new log
unfoldable pub emplace_back : MemTableQueue → Shared → MemTableQueue × Shared
unfolding open_log gen_transaction_log_file_name
emplace_back q shared =
    let (name, base) = gen_transaction_log_file_name shared.transaction_log_file_counter_base in
    (
      record q {
        m_queue = q.m_queue ++ record { mem_table = new_mem_table; log_file_name = name } ∷ [];
      },
      record shared {
        files = open_log name shared.files;
        transaction_log_file_counter_base = base;
      },
    )

unfoldable pub emplace_if_empty : MemTableQueue → Shared → MemTableQueue × Shared
unfolding emplace_back
emplace_if_empty q shared = elim q.m_queue [ [] ↦ emplace_back q shared | _ ∷ _ ↦ (q, shared) ]

-- m_queue.back(), which is there
unfoldable pub back : List QueueEntry → QueueEntry
back [] = record { mem_table = new_mem_table; log_file_name = [] }
back (entry ∷ []) = entry
back (entry ∷ next ∷ rest) = back (next ∷ rest)

unfoldable pub change_back : (MemTable → MemTable) → List QueueEntry → List QueueEntry
change_back f [] = []
change_back f (entry ∷ []) = record entry { mem_table = f entry.mem_table } ∷ []
change_back f (entry ∷ next ∷ rest) = entry ∷ change_back f (next ∷ rest)

abbrev pub or_empty : Option Bytes → Bytes
or_empty none = []
or_empty (some content) = content

-- A transaction that the writer of the last entry appends to its file.
unfoldable pub write_log : (OStream → Result OStream) → MemTableQueue → Shared → Result Shared
unfolding back file_content write_file
write_log transaction q shared =
    let name = (back q.m_queue).log_file_name in
    do
      os ← transaction (ostream (or_empty (file_content shared.files name)))
      ok (record shared { files = write_file name os.content shared.files })

unfoldable pub launch_flush_to_disk : MemTable → Shared → FlushJob × Shared
unfolding gen_flush_in_progress_ss_table_file_name gen_ss_table_file_name
launch_flush_to_disk mem_table shared =
    let counter = (shared.sstable_file_counter_base + 1) % 2 ^ 32 in
    (
      record {
        table = mem_table.m_table;
        file_name = gen_flush_in_progress_ss_table_file_name (gen_ss_table_file_name counter);
      },
      record shared { sstable_file_counter_base = counter },
    )

unfoldable pub try_launch_flush_to_disk :
    ℕ → MemTableQueue → Shared → Option FlushJob × MemTableQueue × Shared
unfolding needs_flush_to_disk launch_flush_to_disk emplace_back back
try_launch_flush_to_disk max_size q shared =
    let mem_table = (back q.m_queue).mem_table in
    let (q', shared') = emplace_back q shared in
    let (job, shared'') = launch_flush_to_disk mem_table shared' in
    if needs_flush_to_disk max_size mem_table then (some job, q', shared'') else (none, q, shared)

-- One update of the last table, logged first.
unfoldable pub update_back :
    ℕ
    → (OStream → Result OStream)
    → (MemTable → MemTable)
    → MemTableQueue
    → Shared
    → Result (Option FlushJob × MemTableQueue × Shared)
unfolding emplace_if_empty write_log change_back try_launch_flush_to_disk
update_back max_size transaction change q shared =
    let (q', shared') = emplace_if_empty q shared in
    do
      shared'' ← write_log transaction q' shared'
      ok (
          try_launch_flush_to_disk max_size (record { m_queue = change_back change q'.m_queue })
            shared'')

unfoldable pub set :
    ℕ → Bytes → Bytes → MemTableQueue → Shared → Result (Option FlushJob × MemTableQueue × Shared)
unfolding update_back write_set MemTable.set
set max_size key value q shared =
    update_back max_size (write_set key value)
      (λ m. MemTable.set m (record { m_key = key }) (of_string value)) q shared

unfoldable pub remove :
    ℕ → Bytes → MemTableQueue → Shared → Result (Option FlushJob × MemTableQueue × Shared)
unfolding update_back write_remove MemTable.remove
remove max_size key q shared =
    update_back max_size (write_remove key) (λ m. MemTable.remove m (record { m_key = key })) q
      shared

unfoldable pub push_from_transaction_log :
    Bytes → Bool → MemTableQueue → Shared → Result (Option FlushJob × MemTableQueue × Shared)
unfolding load file_content open_log launch_flush_to_disk
push_from_transaction_log name is_last_transaction_log q shared = do
  mem_table ← load (file_content shared.files name)
  let opened = record shared { files = open_log name shared.files }
  let q' = record q {
    m_queue = q.m_queue ++ record { mem_table = mem_table; log_file_name = name } ∷ [];
  }
  let (job, shared') = launch_flush_to_disk mem_table opened
  ok (if is_last_transaction_log then (none, q', opened) else (some job, q', shared'))

-- Without an entry the code has no defined behaviour.
unfoldable pub pop : MemTableQueue → Shared → Result (MemTableQueue × Shared)
unfolding mark_file_as_deprecated
pop q shared = elim q.m_queue [
  | [] ↦ err db_exception
  | entry ∷ rest ↦ do
    fs ← mark_file_as_deprecated entry.log_file_name shared.files
    ok (record { m_queue = rest }, record shared { files = fs })
]
