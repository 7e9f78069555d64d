-- ===== src/Database/Background.antt =====
-- A background flush keeps the database sound.
use project_db.Common.{
  ℕ, ◌^◌, ◌<◌, ◌≡◌, sym, ap, ◌∙◌, ◌≢◌, Bool, some, List, [], ◌∷◌, ◌++◌, length, All, All-append,
  All-map, All-map₂, Bytes, All-append_left, All-append_right, ok, ok-injective,
}
use project_db.Database.{FlushFuture, ProjectDb}
use project_db.Database.Files.{
  AllServe-frame, AllFlushed-frame, LogsFrom-frame, extension-ss_table, names_differ,
}
use project_db.Database.FlushDone.{
  ready, pending, JobsFrom-above, JobsFrom-distinct, JobsFrom-ready, Aligned-ready, Aligned-TableOk,
}
use project_db.Database.Sound.{
  SameFile, IsThere, Flushed, AllFlushed, Aligned, NamedUpTo, JobsFrom, IsSound,
}
use project_db.FileSystem.{FileSystem}
use project_db.FileSystem.Laws.{job_file_name, log_name, extension-log, extension-job}
use project_db.FileSystem.Names.{
  sstable_file_ext, sstable_file_flush_in_progress_ext, transaction_log_file_ext,
  deprecated_file_ext, extension,
}
use project_db.MemTableQueue.{FlushJob}
use project_db.Serializer.Containers.{size_of_size_t}
use project_db.SsTable.{Table, of_table}
use project_db.SsTable.Stored.{TableFits}
use project_db.SsTableIndex.{SsTableIndex}
use project_db.SsTableOps.{flush_ss_table}
use project_db.SsTableOps.Disk.{flush_ss_table-Describes}
use project_db.SsTableOps.Flush.{encode_ss_table}
use mathlib.Core.Path.{subst}

-- The state after the flush of a job.
abbrev pub flush_done :
    ProjectDb
    → List FlushFuture
    → FlushJob
    → SsTableIndex
    → List FlushFuture
    → FileSystem
    → ProjectDb
flush_done db before job index after fs = record db {
  m_flush_to_disk_futures = before ++ ready job index ∷ after;
  shared = record db.shared { files = fs };
}

-- What a flush leaves of the directory and gives for an index.
abbrev FlushFacts : FileSystem → FlushJob → SsTableIndex × FileSystem → Type 0
FlushFacts fs job (index, fs') =
    Flushed fs' job (some (ok index))
    × ((name : Bytes)
        → name ≢ job.file_name
        → extension name ≢ deprecated_file_ext
        → SameFile fs fs' name)

flush-facts :
    (block_size now : ℕ) (job : FlushJob) (fs fs' : FileSystem) (index : SsTableIndex)
    → TableFits job.table
    → flush_ss_table block_size (of_table now job.table) job.file_name fs ≡ ok (index, fs')
    → FlushFacts fs job (index, fs')
flush-facts block_size now job fs fs' index fits runs =
    let (index₁, fs₁, runs₁, d, name, closed, there, frame) =
      flush_ss_table-Describes block_size (of_table now job.table) job.file_name fs fits in
    subst (FlushFacts fs job) (ok-injective (sym runs₁ ∙ runs))
      ((encode_ss_table (of_table now job.table), d, name, closed, there), frame)

job_ext-ne : sstable_file_ext ≢ sstable_file_flush_in_progress_ext
job_ext-ne e = cc

not_job :
    (newest d : ℕ) (name : Bytes) (index : SsTableIndex)
    → name ≡ job_file_name d
    → NamedUpTo newest index
    → (index.m_ss_table_file_name ≢ name)
      × (extension index.m_ss_table_file_name ≢ deprecated_file_ext)
not_job newest d name index h (c, le, n) = (
  names_differ _ _ (ap extension n ∙ extension-ss_table c) (ap extension h ∙ extension-job d)
      (λ e. cc),
  λ e.
      let bad : sstable_file_ext ≡ deprecated_file_ext =
        sym (extension-ss_table c) ∙ sym (ap extension n) ∙ e in
      cc,
)

job_not_deprecated :
    (lo hi : ℕ) (futures : List FlushFuture)
    → JobsFrom lo futures hi
    → All (λ f. extension f.job.file_name ≢ deprecated_file_ext) futures
job_not_deprecated lo hi [] h = tt
job_not_deprecated lo hi (f ∷ futures) (c, more, name, h) = (
  (λ e.
      let bad : sstable_file_flush_in_progress_ext ≡ deprecated_file_ext =
        sym (extension-job c) ∙ sym (ap extension name) ∙ e in
      cc),
  job_not_deprecated c hi futures h,
)

-- The table of a running flush can be stored.
pub job-TableFits :
    {keep : Bool} (db : ProjectDb) (ts : List Table) (before after : List FlushFuture)
    (f : FlushFuture)
    → IsSound keep db ts
    → db.m_flush_to_disk_futures ≡ before ++ f ∷ after
    → length f.job.table < 256 ^ size_of_size_t
    → TableFits f.job.table
job-TableFits db ts before after f sound running small =
    let (sorted, fits) =
      Aligned-TableOk before after f db.m_mem_table_queue.m_queue
        (subst (λ l. Aligned l db.m_mem_table_queue.m_queue) running sound.aligned)
        sound.tables_ok in
    (small, fits, sorted)

module _ {keep : Bool} (block_size now : ℕ) (db : ProjectDb) (ts : List Table)
    (before after : List FlushFuture) (job : FlushJob) (index : SsTableIndex) (fs : FileSystem)
    (sound : IsSound keep db ts)
    (running : db.m_flush_to_disk_futures ≡ before ++ pending job ∷ after)
    (small : length job.table < 256 ^ size_of_size_t)
    (runs : flush_ss_table block_size (of_table now job.table) job.file_name db.shared.files
      ≡ ok (index, fs)) where
  jobs_lem :
      JobsFrom sound.newest (before ++ pending job ∷ after) db.shared.sstable_file_counter_base
  jobs_lem =
      subst (λ l. JobsFrom sound.newest l db.shared.sstable_file_counter_base) running sound.jobs

  facts : FlushFacts db.shared.files job (index, fs)
  facts =
      flush-facts block_size now job db.shared.files fs index
        (job-TableFits db ts before after (pending job) sound running small) runs

  job_counter : (c : ℕ) × (sound.newest < c) × (job.file_name ≡ job_file_name c)
  job_counter =
      (All-append_right _ before (pending job ∷ after)
        (JobsFrom-above sound.newest _ (before ++ pending job ∷ after) jobs_lem)).0

  queue_kept :
      All
        (λ i. SameFile db.shared.files fs i.m_ss_table_file_name)
        db.m_ss_table_index_queue.m_queue
  queue_kept =
      All-map
        (λ i named.
          let (other_file, live) =
            not_job sound.newest job_counter.0 job.file_name i job_counter.2 named in
          facts.1 i.m_ss_table_file_name other_file live)
        db.m_ss_table_index_queue.m_queue sound.names

  logs_kept : (c : ℕ) → IsThere db.shared.files (log_name c) → IsThere fs (log_name c)
  logs_kept c (content, there) = (
    content,
    facts.1 (log_name c)
          (names_differ _ _ (extension-log c)
            (ap extension job_counter.2 ∙ extension-job job_counter.0) (λ e. cc))
          (λ e.
            let bad : transaction_log_file_ext ≡ deprecated_file_ext = sym (extension-log c) ∙ e in
            cc)
        ∙ there,
  )

  results_kept : AllFlushed fs (before ++ ready job index ∷ after)
  results_kept =
      let now_flushed = subst (AllFlushed db.shared.files) running sound.flushed in
      let live = job_not_deprecated sound.newest _ (before ++ pending job ∷ after) jobs_lem in
      let (left, right) = JobsFrom-distinct sound.newest _ before after (pending job) jobs_lem in
      let kept =
        λ (g : FlushFuture) (distinct : g.job.file_name ≢ job.file_name)
            (ok_ext : extension g.job.file_name ≢ deprecated_file_ext).
          facts.1 g.job.file_name distinct ok_ext in
      All-append (λ f. Flushed fs f.job f.result) before (ready job index ∷ after)
        (AllFlushed-frame db.shared.files fs before
          (All-map₂ kept before left (All-append_left _ before _ live))
          (All-append_left _ before _ now_flushed))
        (
          facts.0,
          AllFlushed-frame db.shared.files fs after
              (All-map₂ kept after right (All-append_right _ before _ live).1)
              (All-append_right _ before _ now_flushed).1,
        )

  -- When the flush of a job ends, the database is sound as before, with the same tables on disk.
  pub flush_done-IsSound : IsSound keep (flush_done db before job index after fs) ts
  flush_done-IsSound = record {
    served =
        AllServe-frame keep db.shared.files fs db.m_ss_table_index_queue.m_queue ts queue_kept
          sound.served;
    newest = sound.newest;
    names = sound.names;
    jobs = JobsFrom-ready sound.newest _ before after job index jobs_lem;
    flushed = results_kept;
    aligned =
        Aligned-ready before after job index db.m_mem_table_queue.m_queue
          (subst (λ l. Aligned l db.m_mem_table_queue.m_queue) running sound.aligned);
    tables_ok = sound.tables_ok;
    oldest_log = sound.oldest_log;
    logs =
        LogsFrom-frame db.shared.files fs sound.oldest_log _ db.m_mem_table_queue.m_queue
          (λ c le there. logs_kept c there) sound.logs;
    idle = sound.idle;
  }
