-- ===== src/Database/MemoryUpdated.antt =====
-- An update as a whole keeps the tables in memory, their logs and the futures in order.
use project_db.Common.{
  ℕ, ◌+◌, ◌^◌, ◌<◌, ◌≡◌, refl, ap, ◌∙◌, Option, List, [], ◌∷◌, arith, Result, ok,
}
use project_db.Database.{FlushFuture}
use project_db.Database.LogFiles.{LogsOnly-trans, LogsFrom-LogsOnly}
use project_db.Database.MemoryGrows.{
  MemoryOk, LogsFrom-change_back, Aligned-change_back, EntryOk-change_back,
}
use project_db.Database.MemoryUpdate.{
  emplace_if_empty_lem, write_log_lem, Launched, try_launch-Launched,
}
use project_db.Database.Sound.{TableOk, JobsFrom}
use project_db.MemTable.{MemTable}
use project_db.MemTableQueue.{
  FlushJob, QueueEntry, Shared, MemTableQueue, emplace_if_empty, change_back,
  try_launch_flush_to_disk, update_back,
}
use project_db.MemTableQueue.Update.{IsTotal, emplace_if_empty-back, update_back_lem}
use project_db.Serializer.Streams.{OStream}

change_back_more :
    (f : MemTable → MemTable) (e : QueueEntry) (es : List QueueEntry)
    → (e' : QueueEntry) × (es' : List QueueEntry) × (change_back f (e ∷ es) ≡ e' ∷ es')
unfolding change_back
change_back_more f e [] = (record e { mem_table = f e.mem_table }, [], refl)
change_back_more f e (e₂ ∷ es) = (e, change_back f (e₂ ∷ es), refl)

module _ (max_size : ℕ) (transaction : OStream → Result OStream) (change : MemTable → MemTable)
    (total : IsTotal transaction)
    (keeps : (m : MemTable) → TableOk m.m_table → TableOk (change m).m_table)
    (futures : List FlushFuture) (newest lo : ℕ) (q : MemTableQueue) (shared : Shared)
    (tables_room : shared.sstable_file_counter_base + 1 < 2 ^ 32)
    (logs_room : shared.transaction_log_file_counter_base + 2 < 2 ^ 32) where
  pub update_back-Launched :
      MemoryOk futures q.m_queue lo shared
      → JobsFrom newest futures shared.sstable_file_counter_base
      → (result : Option FlushJob × MemTableQueue × Shared) × (update_back max_size transaction
            change q shared
          ≡ ok result)
        × Launched 2 futures newest lo shared result
  update_back-Launched memory jobs =
      let opened = emplace_if_empty q shared in
      let ((aligned, stored, logs), (files₁, base₁), one) =
        emplace_if_empty_lem futures lo q shared (omega (arith, logs_room)) memory in
      let (e, es, there) = emplace_if_empty-back q shared in
      let (shared', logged, (files₂, base₂), log_base) =
        write_log_lem lo transaction opened.0 opened.1 e es total there logs in
      let q₁ : MemTableQueue = record { m_queue = change_back change opened.0.m_queue } in
      let (e', es', there') = change_back_more change e es in
      let base = base₂ ∙ base₁ in
      let (memory', jobs', files₃, (tables_rise, logs_rise)) =
        try_launch-Launched max_size futures newest lo q₁ shared' e' es'
          (ap (change_back change) there ∙ there') (rw base tables_room)
          (omega (arith, log_base, one, logs_room))
          (
            Aligned-change_back change futures opened.0.m_queue aligned,
            EntryOk-change_back change keeps opened.0.m_queue stored,
            rw log_base (
                LogsFrom-change_back shared'.files change lo _ opened.0.m_queue
                  (LogsFrom-LogsOnly _ _ files₂ lo _ opened.0.m_queue logs)),
          )
          (rw base jobs) in
      (
        try_launch_flush_to_disk max_size q₁ shared',
        update_back_lem max_size transaction change q shared shared' logged,
        (
          memory',
          jobs',
          LogsOnly-trans _ _ _ (LogsOnly-trans _ _ _ files₁ files₂) files₃,
          (omega (arith, tables_rise, base), omega (arith, logs_rise, log_base, one)),
        ),
      )
