-- ===== src/Database/Drains.antt =====
-- The flushes that run can all end, and the tables in memory are then handed over.
use project_db.Database
use project_db.Common.{
  ◌^◌, ◌≤◌, ◌<◌, ◌≡◌, refl, sym, ap, ◌∙◌, inl, inr, some, List, [], ◌∷◌, ◌++◌, append-nil,
  append_assoc, arith, length, All, All-append, Bytes, ok, All-append_right,
}
use project_db.Config.{DbConfig}
use project_db.Database.{FlushFuture, ProjectDb}
use project_db.Database.Background.{flush_done, job-TableFits, flush_done-IsSound}
use project_db.Database.Checked.{unfinished, outcome-cases}
use project_db.Database.FlushDone.{ready, pending}
use project_db.Database.Get.{get-Represents}
use project_db.Database.Represents.{Contents, Represents, IsUncompacted}
use project_db.Database.Runs.{Event, flush_event, Step, flush_step, Run, run_end, run_next}
use project_db.Database.Sound.{Aligned, IsSound, Flushed, AllFlushed}
use project_db.FileSystem.{FileSystem}
use project_db.MemTableQueue.{FlushJob, QueueEntry}
use project_db.Serializer.Containers.{size_of_size_t}
use project_db.SsTable.{Table, of_table}
use project_db.SsTableIndex.{SsTableIndex}
use project_db.SsTableOps.Disk.{flush_ss_table-Describes}
use mathlib.Core.Path.{subst}

abbrev pub IsReady : FlushFuture → Type 0
IsReady f = (index : SsTableIndex) × (f.result ≡ some (ok index))

abbrev pub IsFlushEvent : Event → Type 0
IsFlushEvent event = event ≡ flush_event

-- A `size_t` counts the entries of the table.
abbrev pub IsSmall : FlushFuture → Type 0
IsSmall f = length f.job.table < 256 ^ size_of_size_t

unfinished-IsReady : (futures : List FlushFuture) → All IsReady futures → unfinished futures ≡ []
unfolding unfinished
unfinished-IsReady [] h = refl
unfinished-IsReady (f ∷ futures) ((index, done), h) = rw done (unfinished-IsReady futures h)

-- Some flushes end, and nothing else happens.
abbrev Flushes : DbConfig → Contents → ProjectDb → Type 0
Flushes config contents db =
    (events : List Event) × (db' : ProjectDb) × All IsFlushEvent events
    × Run config events db db'
    × All IsReady db'.m_flush_to_disk_futures
    × Represents config.keep_sstable_file_open contents db'

flush_one :
    (config : DbConfig) (db : ProjectDb) (ts : List Table) (before after : List FlushFuture)
    (job : FlushJob)
    → IsSound config.keep_sstable_file_open db ts
    → db.m_flush_to_disk_futures ≡ before ++ pending job ∷ after
    → IsSmall (pending job)
    → (index : SsTableIndex) × (fs : FileSystem) × Step config flush_event db
        (flush_done db before job index after fs)
      × IsSound config.keep_sstable_file_open (flush_done db before job index after fs) ts
flush_one config db ts before after job sound running small =
    let size = config.sstable_index_block_size_in_bytes in
    let (index, fs, runs, _, _, _, _, _) =
      flush_ss_table-Describes size (of_table 0 job.table) job.file_name db.shared.files
        (job-TableFits db ts before after (pending job) sound running small) in
    (
      index,
      fs,
      flush_step 0 db before after job index fs running small runs,
      flush_done-IsSound size 0 db ts before after job index fs sound running small runs,
    )

unfinished-Flushes :
    (config : DbConfig) (contents : Contents) (db : ProjectDb) (before after : List FlushFuture)
    → db.m_flush_to_disk_futures ≡ before ++ after
    → All IsReady before
    → All IsSmall after
    → Represents config.keep_sstable_file_open contents db
    → Flushes config contents db
unfinished-Flushes config contents db before [] running ready_ones small r =
    ([], db, tt, run_end db, subst (All IsReady) (sym (running ∙ append-nil before)) ready_ones, r)
unfinished-Flushes config contents db before (f ∷ after) running ready_ones (small, rest)
      (ts, sound, shows) =
    elim (outcome-cases db.shared.files f
      (All-append_right (λ g. Flushed db.shared.files g.job g.result) before (f ∷ after)
        (subst (AllFlushed db.shared.files) running sound.flushed)).0) [
          | inr (index, done) ↦
              unfinished-Flushes config contents db (before ++ f ∷ []) after
                (running ∙ sym (append_assoc before (f ∷ []) after))
                (All-append IsReady before (f ∷ []) ready_ones ((index, done), tt)) rest
                (ts, sound, shows)
          | inl n ↦
              let running' : db.m_flush_to_disk_futures ≡ before ++ pending f.job ∷ after =
                running ∙ ap (λ o. before ++ record f { result = o } ∷ after) n in
              let (index, fs, step, sound') =
                flush_one config db ts before after f.job sound running' small in
              let (events, db', flushes, run, all_ready, r') =
                unfinished-Flushes config contents (flush_done db before f.job index after fs)
                  (before ++ ready f.job index ∷ []) after
                  (sym (append_assoc before (ready f.job index ∷ []) after))
                  (All-append IsReady before (ready f.job index ∷ []) ready_ones
                    ((index, refl), tt))
                  rest (ts, sound', shows) in
              (
                flush_event ∷ events,
                db',
                (refl, flushes),
                run_next flush_event events db _ db' step run,
                all_ready,
                r',
              )
        ]

Aligned-none : (es : List QueueEntry) → Aligned [] es → length es ≤ 1
Aligned-none [] a = omega arith
Aligned-none (e ∷ []) a = omega arith
Aligned-none (e ∷ e' ∷ es) a = absurd a

-- As long as compaction is disabled, from every state that represents a map and whose tables a
-- `size_t` can count, flushes can end such that the next `get` answers as the map, leaves no flush
-- running, and leaves one table in memory at most.
pub flushes-drain :
    (config : DbConfig) (contents : Contents) (key : Bytes) (db : ProjectDb)
    → IsUncompacted config
    → Represents config.keep_sstable_file_open contents db
    → All IsSmall db.m_flush_to_disk_futures
    → (events : List Event) × (db₁ : ProjectDb) × (db₂ : ProjectDb) × All IsFlushEvent events
      × Run config events db db₁
      × (Database.get config key db₁ ≡ ok (contents key, db₂))
      × (db₂.m_flush_to_disk_futures ≡ [])
      × (length db₂.m_mem_table_queue.m_queue ≤ 1)
flushes-drain config contents key db off r small =
    let (events, db₁, flushes, run, all_ready, r₁) =
      unfinished-Flushes config contents db [] db.m_flush_to_disk_futures refl tt small r in
    let (db₂, runs, ((ts, sound, shows), futures, base, logs)) =
      get-Represents config contents key db₁ off r₁ in
    let none_left = futures ∙ unfinished-IsReady db₁.m_flush_to_disk_futures all_ready in
    (
      events,
      db₁,
      db₂,
      flushes,
      run,
      runs,
      none_left,
      Aligned-none db₂.m_mem_table_queue.m_queue
          (subst (λ l. Aligned l db₂.m_mem_table_queue.m_queue) none_left sound.aligned),
    )
