-- ===== src/Database/Sound.antt =====
-- What holds of the database between two operations, as long as compaction is disabled. The tables on
-- disk are `ts`.
use project_db.Common.{
  ℕ, suc, ◌≤◌, ◌<◌, ◌≡◌, Bool, Option, none, some, List, [], ◌∷◌, ◌++◌, All, Bytes, Result, ok, err,
}
use project_db.Compaction.Layers.{lookup_layers, visible}
use project_db.Database.{FlushFuture, ProjectDb}
use project_db.FileSystem.{FileSystem, file_content}
use project_db.FileSystem.Names.{gen_ss_table_file_name}
use project_db.MemTableQueue.{FlushJob, QueueEntry}
use project_db.MemTableQueue.Lookup.{tables}
use project_db.SsTable.{Table}
use project_db.SsTable.Stored.{stored_entry}
use project_db.SsTableIndex.{SsTableIndex}
use project_db.SsTableIndex.Seek.{Describes}
use project_db.SsTableIndexQueue.Lookup.{AllServe}
use project_db.StdMap.{IsSorted}
use project_db.TransactionLog.Loop.{to_key}
use project_db.FileSystem.Laws.{job_file_name, log_name}
use project_db.Key.{key_ord}

-- The file has the same content in both directories.
abbrev pub SameFile : FileSystem → FileSystem → Bytes → Type 0
SameFile fs fs' name = file_content fs' name ≡ file_content fs name

abbrev pub IsThere : FileSystem → Bytes → Type 0
IsThere fs name = (content : Bytes) × (file_content fs name ≡ some content)

-- A finished flush has not thrown: the file holds the table of the job, and the index describes it.
abbrev pub Flushed : FileSystem → FlushJob → Option (Result SsTableIndex) → Type 0
Flushed fs job none = Unit {0}
Flushed fs job (some (err thrown)) = ⊥
Flushed fs job (some (ok index)) =
    (file : Bytes) × Describes index file job.table
    × (index.m_ss_table_file_name ≡ job.file_name)
    × (index.m_ifs ≡ none)
    × (file_content fs job.file_name ≡ some file)

abbrev pub AllFlushed : FileSystem → List FlushFuture → Type 0
AllFlushed fs = All (λ f. Flushed fs f.job f.result)

-- The futures are those of the oldest tables in memory, in their order, and the newest table has none.
abbrev pub Aligned : List FlushFuture → List QueueEntry → Type 0
Aligned [] [] = Unit {0}
Aligned [] (e ∷ []) = Unit {0}
Aligned [] (e ∷ e' ∷ es) = ⊥
Aligned (f ∷ fs) [] = ⊥
Aligned (f ∷ fs) (e ∷ []) = ⊥
Aligned (f ∷ fs) (e ∷ e' ∷ es) = (f.job.table ≡ e.mem_table.m_table) × Aligned fs (e' ∷ es)

-- A table that is sorted, and whose entries can be stored.
abbrev pub TableOk : Table → Type 0
TableOk t = IsSorted t × All stored_entry.Fits t

abbrev pub EntryOk : QueueEntry → Type 0
EntryOk e = TableOk e.mem_table.m_table

-- The index of a table on disk has the name of a table whose counter is at most `newest`.
abbrev pub NamedUpTo : ℕ → SsTableIndex → Type 0
NamedUpTo newest index =
    (c : ℕ) × (c ≤ newest) × (index.m_ss_table_file_name ≡ gen_ss_table_file_name c)

-- The counters of the jobs rise, from above `lo` to `hi`.
abbrev pub JobsFrom : ℕ → List FlushFuture → ℕ → Type 0
JobsFrom lo [] hi = lo ≤ hi
JobsFrom lo (f ∷ fs) hi =
    (c : ℕ) × (lo < c) × (f.job.file_name ≡ job_file_name c) × JobsFrom c fs hi

-- The counters of the logs rise, from `lo` to below `hi`, and the logs are there.
abbrev pub LogsFrom : FileSystem → ℕ → List QueueEntry → ℕ → Type 0
LogsFrom fs lo [] hi = lo ≤ hi
LogsFrom fs lo (e ∷ es) hi =
    (c : ℕ) × (lo ≤ c)
    × (e.log_file_name ≡ log_name c)
    × IsThere fs e.log_file_name
    × LogsFrom fs (suc c) es hi

pub record IsSound (keep : Bool) (db : ProjectDb) (ts : List Table) : Type 0 where
  pub served : AllServe keep db.shared.files db.m_ss_table_index_queue.m_queue ts
  pub newest : ℕ
  pub names : All (NamedUpTo newest) db.m_ss_table_index_queue.m_queue
  pub jobs : JobsFrom newest db.m_flush_to_disk_futures db.shared.sstable_file_counter_base
  pub flushed : AllFlushed db.shared.files db.m_flush_to_disk_futures
  pub aligned : Aligned db.m_flush_to_disk_futures db.m_mem_table_queue.m_queue
  pub tables_ok : All EntryOk db.m_mem_table_queue.m_queue
  pub oldest_log : ℕ
  pub logs :
      LogsFrom db.shared.files oldest_log db.m_mem_table_queue.m_queue
        db.shared.transaction_log_file_counter_base
  pub idle : db.m_ss_table_compaction_future ≡ none

-- What a client sees of a key.
abbrev pub view : ProjectDb → List Table → Bytes → Option Bytes
view db ts key = visible (lookup_layers (to_key key) (ts ++ tables db.m_mem_table_queue.m_queue))
