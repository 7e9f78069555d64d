-- ===== src/Database/FlushTaken.antt =====
-- The result of a flush is taken: the table goes from memory to the tables on disk.
use project_db.SsTableIndexQueue
use project_db.Common.{
  ℕ, ◌≡◌, refl, List, [], ◌∷◌, suc, ◌∙◌, Bool, some, ◌++◌, arith, All, All-append, All-map, Bytes,
  ok, sym, ap, append_assoc,
}
use project_db.Database.{FlushFuture, ProjectDb, finish_flush}
use project_db.Database.Sound.{
  Aligned, IsThere, AllFlushed, EntryOk, NamedUpTo, JobsFrom, LogsFrom, IsSound, view,
}
use project_db.FileSystem.{FileSystem, file_content, mark_file_as_deprecated, remove_ext_and_rename}
use project_db.FileSystem.Names.{gen_ss_table_file_name}
use project_db.MemTableQueue.{QueueEntry, FlushJob, pop}
use project_db.SsTableIndex.{SsTableIndex, set_ss_table_file_name}
use project_db.SsTableIndexQueue.{SsTableIndexQueue}
use project_db.Database.FlushDone.{ready}
use project_db.Database.FlushFiles.{
  both_renamed, Describes-named, closed_read, tables_kept, jobs_kept, logs_kept,
}
use project_db.FileSystem.Laws.{job_file_name, log_name}
use project_db.SsTable.{Table}
use project_db.SsTableIndexQueue.Lookup.{AllServe-append}
use mathlib.Core.Path.{subst}
use project_db.Compaction.Layers.{lookup_layers, visible}
use project_db.MemTableQueue.Lookup.{tables}
use project_db.TransactionLog.Loop.{to_key}

abbrev pub flush_taken :
    ProjectDb → SsTableIndex → ℕ → List FlushFuture → List QueueEntry → FileSystem → ProjectDb
flush_taken db index c futures es fs = record db {
  m_mem_table_queue = record { m_queue = es };
  m_ss_table_index_queue =
      SsTableIndexQueue.insert db.m_ss_table_index_queue
        (set_ss_table_file_name index (gen_ss_table_file_name c));
  m_flush_to_disk_futures = futures;
  shared = record db.shared { files = fs };
}

Aligned-two :
    (f : FlushFuture) (futures : List FlushFuture) (es : List QueueEntry)
    → Aligned (f ∷ futures) es
    → (e : QueueEntry) × (rest : List QueueEntry) × (es ≡ e ∷ rest)
      × (f.job.table ≡ e.mem_table.m_table)
      × Aligned futures rest
Aligned-two f futures [] a = absurd a
Aligned-two f futures (e ∷ []) a = absurd a
Aligned-two f futures (e ∷ e' ∷ es) a = (e, e' ∷ es, refl, a.0, a.1)

-- What holds after the hand-over.
abbrev pub Taken : Bool → ProjectDb → List Table → Table → List FlushFuture → ProjectDb → Type 0
Taken keep db ts t futures db' =
    IsSound keep db' (ts ++ t ∷ [])
    × ((key : Bytes) → view db' (ts ++ t ∷ []) key ≡ view db ts key)
    × (db'.m_flush_to_disk_futures ≡ futures)
    × (db'.shared.sstable_file_counter_base ≡ db.shared.sstable_file_counter_base)
    × (db'.shared.transaction_log_file_counter_base ≡ db.shared.transaction_log_file_counter_base)

finish_flush_runs :
    (db : ProjectDb) (index : SsTableIndex) (futures : List FlushFuture) (f : FlushFuture)
    (e : QueueEntry) (es : List QueueEntry) (c d : ℕ) (fs₁ fs₂ : FileSystem)
    → db.m_flush_to_disk_futures ≡ f ∷ futures
    → db.m_mem_table_queue.m_queue ≡ e ∷ es
    → index.m_ss_table_file_name ≡ job_file_name c
    → e.log_file_name ≡ log_name d
    → remove_ext_and_rename (job_file_name c) db.shared.files ≡ ok (gen_ss_table_file_name c, fs₁)
    → mark_file_as_deprecated (log_name d) fs₁ ≡ ok fs₂
    → finish_flush index db ≡ ok (flush_taken db index c futures es fs₂)
unfolding finish_flush pop
finish_flush_runs db index futures f e es c d fs₁ fs₂ running queue name log renamed marked =
    rw (name, renamed) (rw (queue, pop) (rw (log, marked, running)))

module _ {keep : Bool} (db : ProjectDb) (ts : List Table) (job : FlushJob) (index : SsTableIndex)
    (futures : List FlushFuture) (sound : IsSound keep db ts)
    (running : db.m_flush_to_disk_futures ≡ ready job index ∷ futures) where
  -- When the oldest flush is done, its result is taken without an exception, the database is sound
  -- with one more table on disk, and no key shows anything else.
  pub finish_flush-IsSound :
      (db' : ProjectDb) × (finish_flush index db ≡ ok db') × Taken keep db ts job.table futures db'
  unfolding SsTableIndexQueue.insert
  finish_flush-IsSound =
      let (c, above, job_name, jobs) =
        subst (λ l. JobsFrom sound.newest l db.shared.sstable_file_counter_base) running
          sound.jobs in
      let ((file, described, name, closed, there), flushed) =
        subst (AllFlushed db.shared.files) running sound.flushed in
      let (e, es, queue, same, aligned) =
        Aligned-two (ready job index) futures db.m_mem_table_queue.m_queue
          (subst (λ l. Aligned l db.m_mem_table_queue.m_queue) running sound.aligned) in
      let (d, oldest, log, log_there, logs) =
        subst
          (λ l.
            LogsFrom db.shared.files sound.oldest_log l db.shared.transaction_log_file_counter_base)
          queue sound.logs in
      let (fs₁, fs₂, renamed, marked, table_there, frame) =
        both_renamed c d file db.shared.files
          (subst (λ n. file_content db.shared.files n ≡ some file) job_name there)
          (subst (IsThere db.shared.files) log log_there) in
      let named : SsTableIndex = set_ss_table_file_name index (gen_ss_table_file_name c) in
      (
        flush_taken db index c futures es fs₂,
        finish_flush_runs db index futures (ready job index) e es c d fs₁ fs₂ running queue
            (name ∙ job_name) log renamed marked,
        (
          record {
            served =
                AllServe-append keep fs₂ db.m_ss_table_index_queue.m_queue (named ∷ []) ts
                  (job.table ∷ [])
                  (tables_kept c d db fs₂ frame keep sound.newest above sound.names ts sound.served)
                  (
                    (
                      file,
                      Describes-named (gen_ss_table_file_name c) described,
                      rw table_there (closed_read keep (some file) named closed),
                    ),
                    tt,
                  );
            newest = c;
            names =
                All-append (NamedUpTo c) db.m_ss_table_index_queue.m_queue (named ∷ [])
                  (All-map (λ i (c', le, n). (c', omega (arith, le, above), n))
                    db.m_ss_table_index_queue.m_queue sound.names)
                  ((c, omega arith, refl), tt);
            jobs = jobs;
            flushed = jobs_kept c d db fs₂ frame _ futures jobs flushed;
            aligned = aligned;
            tables_ok = (subst (All EntryOk) queue sound.tables_ok).1;
            oldest_log = suc d;
            logs = logs_kept c d db fs₂ frame _ es logs;
            idle = sound.idle;
          },
          λ key.
              ap (λ layers. visible (lookup_layers (to_key key) layers))
                (append_assoc ts (job.table ∷ []) (tables es)
                  ∙ ap (λ t. ts ++ t ∷ tables es) same
                  ∙ ap (λ q. ts ++ tables q) (sym queue)),
          refl,
          refl,
          refl,
        ),
      )
