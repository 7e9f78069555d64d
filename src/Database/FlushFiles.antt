-- ===== src/Database/FlushFiles.antt =====
-- The files when the result of a flush is taken: what is renamed, and that the rest stays.
use project_db.Common.{
  ℕ, ◌≡◌, ap, ◌∙◌, ◌≢◌, true, some, Bytes, ok, ◌<◌, refl, Bool, false, Option, none, arith, suc,
  sym, List, All, All-map,
}
use project_db.Database.Sound.{SameFile, IsThere, AllFlushed, NamedUpTo, JobsFrom, LogsFrom}
use project_db.FileSystem.{
  FileSystem, file_content, exists, mark_file_as_deprecated, remove_ext_and_rename,
}
use project_db.FileSystem.Frame.{rename-file_content}
use project_db.FileSystem.Laws.{
  job_file_name, log_name, extension-deprecated_log, remove_ext-job, extension-log, extension-job,
}
use project_db.FileSystem.Names.{
  deprecated_file_ext, gen_deprecated_file_name, gen_ss_table_file_name, extension,
}
use project_db.Database.Files.{
  extension-ss_table, names_differ, ss_table-injective, log_name-injective, job-injective,
  letters_differ, ext_differs, AllServe-frame, AllFlushed-frame, LogsFrom-frame,
}
use project_db.SsTable.{Table}
use project_db.SsTableIndex.{SsTableIndex, seek_file}
use project_db.SsTableIndex.Seek.{Describes}
use project_db.Database.{FlushFuture, ProjectDb}
use project_db.Database.FlushDone.{JobsFrom-above}
use project_db.MemTableQueue.{QueueEntry}
use project_db.SsTableIndexQueue.Lookup.{AllServe}
use mathlib.Core.Path.{subst}

-- What is neither the file of the job `c`, nor its table, nor the log `d`, nor deprecated.
abbrev pub Elsewhere : ℕ → ℕ → Bytes → Type 0
Elsewhere c d name =
    (name ≢ job_file_name c)
    × (name ≢ gen_ss_table_file_name c)
    × (name ≢ log_name d)
    × (extension name ≢ deprecated_file_ext)

exists_lem :
    (fs : FileSystem) (name content : Bytes)
    → file_content fs name ≡ some content
    → exists fs name ≡ true
unfolding exists
exists_lem fs name content h = rw h

job_renamed :
    (c : ℕ) (content : Bytes) (fs : FileSystem)
    → file_content fs (job_file_name c) ≡ some content
    → (fs' : FileSystem) × (remove_ext_and_rename (job_file_name c) fs
        ≡ ok (gen_ss_table_file_name c, fs'))
      × (file_content fs' (gen_ss_table_file_name c) ≡ some content)
      × ((name : Bytes)
          → name ≢ job_file_name c
          → name ≢ gen_ss_table_file_name c
          → SameFile fs fs' name)
unfolding remove_ext_and_rename
job_renamed c content fs h =
    let (fs', runs, there, frame) =
      rename-file_content (job_file_name c) (gen_ss_table_file_name c) content fs h in
    (fs', rw (exists_lem fs (job_file_name c) content h, remove_ext-job c, runs), there, frame)

log_marked :
    (d : ℕ) (fs : FileSystem)
    → IsThere fs (log_name d)
    → (fs' : FileSystem) × (mark_file_as_deprecated (log_name d) fs ≡ ok fs')
      × ((name : Bytes)
          → name ≢ log_name d
          → extension name ≢ deprecated_file_ext
          → SameFile fs fs' name)
unfolding mark_file_as_deprecated
log_marked d fs (content, h) =
    let (fs', runs, there, frame) =
      rename-file_content (log_name d) (gen_deprecated_file_name (log_name d)) content fs h in
    (
      fs',
      runs,
      λ name ne live. frame name ne (λ e. live (ap extension e ∙ extension-deprecated_log d)),
    )

-- Both renames, one after the other.
pub both_renamed :
    (c d : ℕ) (content : Bytes) (fs : FileSystem)
    → file_content fs (job_file_name c) ≡ some content
    → IsThere fs (log_name d)
    → (fs₁ : FileSystem) × (fs₂ : FileSystem) × (remove_ext_and_rename (job_file_name c) fs
        ≡ ok (gen_ss_table_file_name c, fs₁))
      × (mark_file_as_deprecated (log_name d) fs₁ ≡ ok fs₂)
      × (file_content fs₂ (gen_ss_table_file_name c) ≡ some content)
      × ((name : Bytes) → Elsewhere c d name → SameFile fs fs₂ name)
both_renamed c d content fs h (log, log_there) =
    let (fs₁, runs₁, there₁, frame₁) = job_renamed c content fs h in
    let kept =
      frame₁ (log_name d)
        (names_differ _ _ (extension-log d) (extension-job c) (letters_differ _ _ refl))
        (names_differ _ _ (extension-log d) (extension-ss_table c) (letters_differ _ _ refl)) in
    let (fs₂, runs₂, frame₂) = log_marked d fs₁ (log, kept ∙ log_there) in
    let sst_kept =
      frame₂ (gen_ss_table_file_name c)
        (names_differ _ _ (extension-ss_table c) (extension-log d) (letters_differ _ _ refl))
        (ext_differs _ (extension-ss_table c) (letters_differ _ _ refl)) in
    (
      fs₁,
      fs₂,
      runs₁,
      runs₂,
      sst_kept ∙ there₁,
      λ name (not_job, not_table, not_log, live).
          frame₂ name not_log live ∙ frame₁ name not_job not_table,
    )

table-Elsewhere : (c d c' : ℕ) → c' < c → Elsewhere c d (gen_ss_table_file_name c')
table-Elsewhere c d c' lt = (
  names_differ _ _ (extension-ss_table c') (extension-job c) (letters_differ _ _ refl),
  (λ e. let same = ss_table-injective c' c e in omega (arith, same, lt)),
  names_differ _ _ (extension-ss_table c') (extension-log d) (letters_differ _ _ refl),
  ext_differs _ (extension-ss_table c') (letters_differ _ _ refl),
)

job-Elsewhere : (c d c' : ℕ) → c < c' → Elsewhere c d (job_file_name c')
job-Elsewhere c d c' lt = (
  (λ e. let same = job-injective c' c e in omega (arith, same, lt)),
  names_differ _ _ (extension-job c') (extension-ss_table c) (letters_differ _ _ refl),
  names_differ _ _ (extension-job c') (extension-log d) (letters_differ _ _ refl),
  ext_differs _ (extension-job c') (letters_differ _ _ refl),
)

log-Elsewhere : (c d d' : ℕ) → d < d' → Elsewhere c d (log_name d')
log-Elsewhere c d d' lt = (
  names_differ _ _ (extension-log d') (extension-job c) (letters_differ _ _ refl),
  names_differ _ _ (extension-log d') (extension-ss_table c) (letters_differ _ _ refl),
  (λ e. let same = log_name-injective d' d e in omega (arith, same, lt)),
  ext_differs _ (extension-log d') (letters_differ _ _ refl),
)

pub Describes-named :
    {index : SsTableIndex} {file : Bytes} {t : Table} (name : Bytes)
    → Describes index file t
    → Describes (record index { m_ss_table_file_name = name }) file t
Describes-named name d = record {
  header = d.header;
  content = d.content;
  indexes = d.indexes;
  sorted = d.sorted;
  fits = d.fits;
}

-- A closed file is read under its new name.
pub closed_read :
    (keep : Bool) (file : Option Bytes) (index : SsTableIndex)
    → index.m_ifs ≡ none
    → seek_file keep file index ≡ file
unfolding seek_file
closed_read false file index closed = refl
closed_read true file index closed = rw (closed, seek_file)

module _ (c d : ℕ) (db : ProjectDb) (fs : FileSystem)
    (frame : (name : Bytes) → Elsewhere c d name → SameFile db.shared.files fs name) where
  pub tables_kept :
      (keep : Bool) (newest : ℕ)
      → newest < c
      → All (NamedUpTo newest) db.m_ss_table_index_queue.m_queue
      → (ts : List Table) → AllServe keep db.shared.files db.m_ss_table_index_queue.m_queue ts
      → AllServe keep fs db.m_ss_table_index_queue.m_queue ts
  tables_kept keep newest lt named ts s =
      AllServe-frame keep db.shared.files fs db.m_ss_table_index_queue.m_queue ts
        (All-map
          (λ i (c', le, name).
            subst (SameFile db.shared.files fs) (sym name)
              (frame (gen_ss_table_file_name c') (table-Elsewhere c d c' (omega (arith, le, lt)))))
          db.m_ss_table_index_queue.m_queue named)
        s

  pub jobs_kept :
      (hi : ℕ) (futures : List FlushFuture)
      → JobsFrom c futures hi
      → AllFlushed db.shared.files futures
      → AllFlushed fs futures
  jobs_kept hi futures jobs f =
      AllFlushed-frame db.shared.files fs futures
        (All-map
          (λ g (c', lt, name).
            subst (SameFile db.shared.files fs) (sym name)
              (frame (job_file_name c') (job-Elsewhere c d c' lt)))
          futures (JobsFrom-above c hi futures jobs))
        f

  pub logs_kept :
      (hi : ℕ) (es : List QueueEntry)
      → LogsFrom db.shared.files (suc d) es hi
      → LogsFrom fs (suc d) es hi
  logs_kept hi es l =
      LogsFrom-frame db.shared.files fs (suc d) hi es
        (λ d' lt (content, there).
          (content, frame (log_name d') (log-Elsewhere c d d' (omega (arith, lt))) ∙ there))
        l
