-- ===== src/Database/LogFiles.antt =====
-- An update writes logs only.
use project_db.Common.{
  ℕ, ◌≡◌, refl, sym, ap, ◌∙◌, ◌≢◌, inl, inr, Bool, List, [], All, All-map, Bytes, Bool-cases,
  Option-cases,
}
use project_db.Database.{FlushFuture}
use project_db.Database.Files.{
  AllServe-frame, AllFlushed-frame, LogsFrom-frame, extension-ss_table, letters_differ, ext_differs,
}
use project_db.Database.FlushDone.{JobsFrom-above}
use project_db.Database.Sound.{SameFile, IsThere, AllFlushed, NamedUpTo, JobsFrom, LogsFrom}
use project_db.FileSystem.{FileSystem, file_content, write_file}
use project_db.FileSystem.Frame.{string_eq-ne, string_eq_self, file_content-write_file}
use project_db.FileSystem.Laws.{log_name, extension-job}
use project_db.FileSystem.Names.{transaction_log_file_ext, extension}
use project_db.Key.{string_eq}
use project_db.MemTableQueue.{QueueEntry, open_log}
use project_db.SsTable.{Table}
use project_db.SsTableIndex.{SsTableIndex}
use project_db.SsTableIndexQueue.Lookup.{AllServe}

-- No file but a log has changed, and no file is gone.
abbrev pub LogsOnly : FileSystem → FileSystem → Type 0
LogsOnly fs fs' =
    ((name : Bytes) → extension name ≢ transaction_log_file_ext → SameFile fs fs' name)
    × ((name : Bytes) → IsThere fs name → IsThere fs' name)

pub LogsOnly-refl : (fs : FileSystem) → LogsOnly fs fs
LogsOnly-refl fs = ((λ name ne. refl), λ name there. there)

pub LogsOnly-trans :
    (fs fs' fs'' : FileSystem) → LogsOnly fs fs' → LogsOnly fs' fs'' → LogsOnly fs fs''
LogsOnly-trans fs fs' fs'' (same, kept) (same', kept') =
    ((λ name ne. same' name ne ∙ same name ne), λ name there. kept' name (kept name there))

IsThere-write_file :
    (name content wanted : Bytes) (fs : FileSystem)
    → IsThere fs wanted
    → IsThere (write_file name content fs) wanted
IsThere-write_file name content wanted fs (old, there) = elim (Bool-cases (string_eq name wanted)) [
  | inl same ↦ (content, rw (file_content-write_file name wanted content fs, same) refl)
  | inr ne ↦ (old, rw (file_content-write_file name wanted content fs, ne) there)
]

pub write_file-LogsOnly :
    (name content : Bytes) (fs : FileSystem)
    → extension name ≡ transaction_log_file_ext
    → LogsOnly fs (write_file name content fs)
write_file-LogsOnly name content fs log = (
  (λ wanted ne.
      rw
        (
          file_content-write_file name wanted content fs,
          string_eq-ne name wanted (λ e. ne (ap extension (sym e) ∙ log)),
        )
        refl),
  λ wanted there. IsThere-write_file name content wanted fs there,
)

-- A log is there once it is open.
pub open_log-LogsOnly :
    (name : Bytes) (fs : FileSystem)
    → extension name ≡ transaction_log_file_ext
    → LogsOnly fs (open_log name fs) × IsThere (open_log name fs) name
unfolding open_log
open_log-LogsOnly name fs log = elim (Option-cases (file_content fs name)) [
  | inl n ↦
      rw (n, open_log)
        (
          write_file-LogsOnly name [] fs log,
          ([], rw (file_content-write_file name name [] fs, string_eq_self name) refl),
        )
  | inr (content, o) ↦ rw (o, open_log) (LogsOnly-refl fs, (content, o))
]

module _ (fs fs' : FileSystem) (logs : LogsOnly fs fs') where
  pub AllServe-LogsOnly :
      (keep : Bool) (newest : ℕ) (is : List SsTableIndex) (ts : List Table)
      → All (NamedUpTo newest) is
      → AllServe keep fs is ts
      → AllServe keep fs' is ts
  AllServe-LogsOnly keep newest is ts named s =
      AllServe-frame keep fs fs' is ts
        (All-map
          (λ i (c, le, name).
            logs.0 i.m_ss_table_file_name
              (ext_differs _ (ap extension name ∙ extension-ss_table c) (letters_differ _ _ refl)))
          is named)
        s

  pub AllFlushed-LogsOnly :
      (lo hi : ℕ) (futures : List FlushFuture)
      → JobsFrom lo futures hi
      → AllFlushed fs futures
      → AllFlushed fs' futures
  AllFlushed-LogsOnly lo hi futures jobs f =
      AllFlushed-frame fs fs' futures
        (All-map
          (λ g (c, lt, name).
            logs.0 g.job.file_name
              (ext_differs _ (ap extension name ∙ extension-job c) (letters_differ _ _ refl)))
          futures (JobsFrom-above lo hi futures jobs))
        f

  pub LogsFrom-LogsOnly :
      (lo hi : ℕ) (es : List QueueEntry) → LogsFrom fs lo es hi → LogsFrom fs' lo es hi
  LogsFrom-LogsOnly lo hi es l =
      LogsFrom-frame fs fs' lo hi es (λ c le there. logs.1 (log_name c) there) l
