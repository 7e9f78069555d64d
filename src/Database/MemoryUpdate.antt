-- ===== src/Database/MemoryUpdate.antt =====
-- The steps of an update keep the tables in memory, their logs and the futures in order.
use project_db.Common.{
  ℕ, suc, ◌+◌, ◌%◌, ◌^◌, ◌≤◌, ◌<◌, ◌≡◌, refl, sym, ap, ◌∙◌, inl, inr, List, [], ◌∷◌, ◌++◌, arith,
  All, All-append, Result, ok, Option, Bool-cases, true, false, none, some,
}
use project_db.Database.{FlushFuture, add_future}
use project_db.Database.LogFiles.{
  LogsOnly, LogsOnly-refl, open_log-LogsOnly, LogsFrom-LogsOnly, write_file-LogsOnly,
}
use project_db.Database.MemoryGrows.{MemoryOk, LogsFrom-next, back-log, Aligned-next, JobsFrom-next}
use project_db.Database.Sound.{Aligned, EntryOk, LogsFrom, JobsFrom}
use project_db.FileSystem.Laws.{log_name, extension-log, job_file_name}
use project_db.FileSystem.Names.{gen_transaction_log_file_name, transaction_log_file_ext, extension}
use project_db.MemTable.{new_mem_table, MemTable, needs_flush_to_disk}
use project_db.MemTableQueue.{
  QueueEntry, Shared, MemTableQueue, open_log, emplace_back, emplace_if_empty, FlushJob, write_log,
  launch_flush_to_disk, back, or_empty, try_launch_flush_to_disk,
}
use mathlib.Core.Path.{subst}
use project_db.MemTableQueue.Lookup.{entries-cases, try_launch_lem}
use project_db.Serializer.Streams.{OStream}
use project_db.FileSystem.{file_content, write_file}
use project_db.MemTableQueue.Update.{IsTotal}
use project_db.Database.FlushDone.{pending}

-- A step writes logs only, and leaves the counter of the tables.
abbrev pub Logged : Shared → Shared → Type 0
Logged shared shared' =
    LogsOnly shared.files shared'.files
    × (shared'.sstable_file_counter_base ≡ shared.sstable_file_counter_base)

-- The counter of the logs rises by one at most.
abbrev pub OneLogMore : Shared → Shared → Type 0
OneLogMore shared shared' =
    shared'.transaction_log_file_counter_base ≤ shared.transaction_log_file_counter_base + 1

opened_entry : Shared → QueueEntry
opened_entry shared = record {
  mem_table = new_mem_table;
  log_file_name = log_name shared.transaction_log_file_counter_base;
}

emplace_back_lem :
    (lo : ℕ) (q : MemTableQueue) (shared : Shared)
    → shared.transaction_log_file_counter_base + 1 < 2 ^ 32
    → All EntryOk q.m_queue
    → LogsFrom shared.files lo q.m_queue shared.transaction_log_file_counter_base
    → ((emplace_back q shared).0.m_queue ≡ q.m_queue ++ opened_entry shared ∷ [])
      × All EntryOk (emplace_back q shared).0.m_queue
      × LogsFrom
          (emplace_back q shared).1.files
          lo
          (emplace_back q shared).0.m_queue
          (emplace_back q shared).1.transaction_log_file_counter_base
      × Logged shared (emplace_back q shared).1
      × ((emplace_back q shared).1.transaction_log_file_counter_base
          ≡ suc shared.transaction_log_file_counter_base)
unfolding emplace_back gen_transaction_log_file_name opened_entry
emplace_back_lem lo q shared room stored logs =
    let base = shared.transaction_log_file_counter_base in
    let next : (base + 1) % 2 ^ 32 ≡ suc base = omega (arith, room) in
    let (opened, there) = open_log-LogsOnly (log_name base) shared.files (extension-log base) in
    (
      refl,
      All-append EntryOk q.m_queue (opened_entry shared ∷ []) stored ((tt, tt), tt),
      rw next (
          LogsFrom-next (open_log (log_name base) shared.files) lo base q.m_queue new_mem_table
            there (LogsFrom-LogsOnly shared.files _ opened lo base q.m_queue logs)),
      (opened, refl),
      next,
    )

Aligned-empty :
    (futures : List FlushFuture) (e : QueueEntry) → Aligned futures [] → Aligned futures (e ∷ [])
Aligned-empty [] e a = tt
Aligned-empty (f ∷ futures) e a = absurd a

pub emplace_if_empty_lem :
    (futures : List FlushFuture) (lo : ℕ) (q : MemTableQueue) (shared : Shared)
    → shared.transaction_log_file_counter_base + 1 < 2 ^ 32
    → MemoryOk futures q.m_queue lo shared
    → MemoryOk futures (emplace_if_empty q shared).0.m_queue lo (emplace_if_empty q shared).1
      × Logged shared (emplace_if_empty q shared).1
      × OneLogMore shared (emplace_if_empty q shared).1
unfolding emplace_if_empty
emplace_if_empty_lem futures lo q shared room (aligned, stored, logs) =
    elim (entries-cases q.m_queue) [
      | inl n ↦
          let (queue, stored', logs', logged, more) =
            emplace_back_lem lo q shared room stored logs in
          let now_one = queue ∙ ap (λ es. es ++ opened_entry shared ∷ []) n in
          rw (n, emplace_if_empty)
            (
              (
                subst (Aligned futures) (sym now_one) (
                    Aligned-empty futures (opened_entry shared)
                      (subst (Aligned futures) n aligned)),
                stored',
                logs',
              ),
              logged,
              omega (arith, more),
            )
      | inr (e, rest, c) ↦
          rw (c, emplace_if_empty)
            ((aligned, stored, logs), (LogsOnly-refl shared.files, refl), omega arith)
    ]

pub write_log_lem :
    (lo : ℕ) (transaction : OStream → Result OStream) (q : MemTableQueue) (shared : Shared)
    (e : QueueEntry) (es : List QueueEntry)
    → IsTotal transaction
    → q.m_queue ≡ e ∷ es
    → LogsFrom shared.files lo q.m_queue shared.transaction_log_file_counter_base
    → (shared' : Shared) × (write_log transaction q shared ≡ ok shared')
      × Logged shared shared'
      × (shared'.transaction_log_file_counter_base ≡ shared.transaction_log_file_counter_base)
unfolding write_log
write_log_lem lo transaction q shared e es total there logs =
    let name = (back q.m_queue).log_file_name in
    let (os, runs) = total (or_empty (file_content shared.files name)) in
    let (c, log) = back-log shared.files lo shared.transaction_log_file_counter_base e es (
      subst (λ l. LogsFrom shared.files lo l shared.transaction_log_file_counter_base) there
        logs) in
    let is_log : extension name ≡ transaction_log_file_ext =
      ap (λ l. extension (back l).log_file_name) there ∙ ap extension log ∙ extension-log c in
    (
      record shared { files = write_file name os.content shared.files },
      rw runs refl,
      (write_file-LogsOnly name os.content shared.files is_log, refl),
      refl,
    )

job_of : MemTable → ℕ → FlushJob
job_of m counter = record { table = m.m_table; file_name = job_file_name counter }

launch_lem :
    (m : MemTable) (shared : Shared)
    → shared.sstable_file_counter_base + 1 < 2 ^ 32
    → launch_flush_to_disk m shared ≡ (
      job_of m (suc shared.sstable_file_counter_base),
      record shared { sstable_file_counter_base = suc shared.sstable_file_counter_base },
    )
unfolding launch_flush_to_disk job_of
launch_lem m shared room =
    let next : (shared.sstable_file_counter_base + 1) % 2 ^ 32
        ≡ suc shared.sstable_file_counter_base =
      omega (arith, room) in
    rw next refl

-- The counters rise, that of the tables by one at most and that of the logs by `n` at most.
abbrev pub RisesBy : ℕ → Shared → Shared → Type 0
RisesBy n shared shared' =
    (shared'.sstable_file_counter_base ≤ shared.sstable_file_counter_base + 1)
    × (shared'.transaction_log_file_counter_base ≤ shared.transaction_log_file_counter_base + n)

-- What a launch, or none, leaves.
abbrev pub Launched :
    ℕ → List FlushFuture → ℕ → ℕ → Shared → Option FlushJob × MemTableQueue × Shared → Type 0
Launched n futures newest lo shared (job, q', shared') =
    MemoryOk (add_future job futures) q'.m_queue lo shared'
    × JobsFrom newest (add_future job futures) shared'.sstable_file_counter_base
    × LogsOnly shared.files shared'.files
    × RisesBy n shared shared'

launch_due :
    (max_size : ℕ) (q : MemTableQueue) (shared : Shared)
    → shared.sstable_file_counter_base + 1 < 2 ^ 32
    → needs_flush_to_disk max_size (back q.m_queue).mem_table ≡ true
    → try_launch_flush_to_disk max_size q shared ≡ (
      some (job_of (back q.m_queue).mem_table (suc shared.sstable_file_counter_base)),
      (emplace_back q shared).0,
      record (emplace_back q shared).1 {
        sstable_file_counter_base = suc shared.sstable_file_counter_base;
      },
    )
unfolding emplace_back
launch_due max_size q shared room due =
    try_launch_lem max_size q shared
    ∙ rw (due, launch_lem (back q.m_queue).mem_table (emplace_back q shared).1 room) refl

launch_not_due :
    (max_size : ℕ) (q : MemTableQueue) (shared : Shared)
    → needs_flush_to_disk max_size (back q.m_queue).mem_table ≡ false
    → try_launch_flush_to_disk max_size q shared ≡ (none, q, shared)
launch_not_due max_size q shared h = try_launch_lem max_size q shared ∙ rw h refl

module _ (max_size : ℕ) (futures : List FlushFuture) (newest lo : ℕ) (q : MemTableQueue)
    (shared : Shared) (e : QueueEntry) (es : List QueueEntry) (there : q.m_queue ≡ e ∷ es)
    (tables_room : shared.sstable_file_counter_base + 1 < 2 ^ 32)
    (logs_room : shared.transaction_log_file_counter_base + 1 < 2 ^ 32) where
  Aligned-launch :
      Aligned futures q.m_queue
      → Aligned
          (futures
            ++ pending (job_of (back q.m_queue).mem_table (suc shared.sstable_file_counter_base))
              ∷ [])
          (q.m_queue ++ opened_entry shared ∷ [])
  unfolding job_of
  Aligned-launch aligned = rw there (
      Aligned-next futures e es _ (opened_entry shared) refl
        (subst (Aligned futures) there aligned))

  pub try_launch-Launched :
      MemoryOk futures q.m_queue lo shared
      → JobsFrom newest futures shared.sstable_file_counter_base
      → Launched 1 futures newest lo shared (try_launch_flush_to_disk max_size q shared)
  unfolding job_of
  try_launch-Launched (aligned, stored, logs) jobs =
      let (queue, stored', logs', (opened, base), more) =
        emplace_back_lem lo q shared logs_room stored logs in
      elim (Bool-cases (needs_flush_to_disk max_size (back q.m_queue).mem_table)) [
        | inl due ↦ rw (launch_due max_size q shared tables_room due) (
          (rw queue (Aligned-launch aligned), stored', logs'),
          JobsFrom-next newest shared.sstable_file_counter_base futures _ refl jobs,
          opened,
          (omega arith, omega (arith, more)),
        )
        | inr room ↦
            rw (launch_not_due max_size q shared room) (
              (aligned, stored, logs),
              jobs,
              LogsOnly-refl shared.files,
              (omega arith, omega arith),
            )
      ]
