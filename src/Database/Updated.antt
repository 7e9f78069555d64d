-- ===== src/Database/Updated.antt =====
-- The database with an update of its tables in memory.
use project_db.MemTableQueue
use project_db.Common.{
  ◌+◌, ◌^◌, ◌<◌, ◌≡◌, ap, ◌∙◌, inl, inr, Bool, Option, none, some, List, [], ◌∷◌, All-append, Bytes,
  if◌then◌else◌, Bool-cases, refl, sym,
}
use project_db.Compaction.Layers.{or_older, lookup_layers, visible, lookup_layers-append}
use project_db.Database.{FlushFuture, ProjectDb, add_future}
use project_db.Database.FlushDone.{pending}
use project_db.Database.LogFiles.{AllServe-LogsOnly, AllFlushed-LogsOnly}
use project_db.Database.MemoryUpdate.{Launched}
use project_db.Database.Represents.{store, Contents}
use project_db.Database.Sound.{Flushed, AllFlushed, IsSound, view}
use project_db.FileSystem.{FileSystem}
use project_db.Key.{beq}
use project_db.MemTableQueue.{FlushJob, Shared, MemTableQueue}
use project_db.MemTableQueue.Lookup.{tables, get-layers}
use project_db.SsTable.{Table}
use project_db.TransactionLog.Loop.{to_key}
use project_db.Value.{Value, underlying_value}

-- The counters have room for one more update.
abbrev pub HasRoom : ProjectDb → Type 0
HasRoom db =
    (db.shared.sstable_file_counter_base + 1 < 2 ^ 32)
    × (db.shared.transaction_log_file_counter_base + 2 < 2 ^ 32)

unfoldable pub updated_db : ProjectDb → Option FlushJob × MemTableQueue × Shared → ProjectDb
updated_db db (job, q', shared') = record db {
  m_mem_table_queue = q';
  m_flush_to_disk_futures = add_future job db.m_flush_to_disk_futures;
  shared = shared';
}

AllFlushed-add :
    (fs : FileSystem) (job : Option FlushJob) (futures : List FlushFuture)
    → AllFlushed fs futures
    → AllFlushed fs (add_future job futures)
AllFlushed-add fs none futures f = f
AllFlushed-add fs (some job) futures f =
    All-append (λ g. Flushed fs g.job g.result) futures (pending job ∷ []) f (tt, tt)

pub updated-IsSound :
    {keep : Bool} (db : ProjectDb) (ts : List Table)
    (result : Option FlushJob × MemTableQueue × Shared) (sound : IsSound keep db ts)
    → Launched 2 db.m_flush_to_disk_futures sound.newest sound.oldest_log db.shared result
    → IsSound keep (updated_db db result) ts
unfolding updated_db
updated-IsSound {keep} db ts (job, q', shared') sound ((aligned, stored, logs), jobs, files, rise) =
    record {
      served =
          AllServe-LogsOnly db.shared.files shared'.files files keep sound.newest
            db.m_ss_table_index_queue.m_queue ts sound.names sound.served;
      newest = sound.newest;
      names = sound.names;
      jobs = jobs;
      flushed = AllFlushed-add shared'.files job db.m_flush_to_disk_futures (
          AllFlushed-LogsOnly db.shared.files shared'.files files sound.newest _
            db.m_flush_to_disk_futures sound.jobs sound.flushed);
      aligned = aligned;
      tables_ok = stored;
      oldest_log = sound.oldest_log;
      logs = logs;
      idle = sound.idle;
    }

view-get :
    (db : ProjectDb) (ts : List Table) (key : Bytes)
    → view db ts key
      ≡ visible
          (or_older (MemTableQueue.get db.m_mem_table_queue key) (lookup_layers (to_key key) ts))
view-get db ts key =
    rw (get-layers db.m_mem_table_queue key)
      (ap visible (lookup_layers-append (to_key key) ts (tables db.m_mem_table_queue.m_queue)))

store_lem :
    (key : Bytes) (value : Option Bytes) (contents : Contents) (wanted : Bytes)
    → store key value contents wanted
      ≡ (if beq (to_key key) (to_key wanted) then value else contents wanted)
unfolding store
store_lem key value contents wanted = refl

pub view_stored :
    (db : ProjectDb) (ts : List Table) (result : Option FlushJob × MemTableQueue × Shared)
    (key : Bytes) (v : Value) (wanted : Bytes) (contents : Contents)
    → MemTableQueue.get result.1 wanted ≡ (
        if beq (to_key key) (to_key wanted)
        then some v
        else MemTableQueue.get db.m_mem_table_queue wanted)
    → view db ts wanted ≡ contents wanted
    → view (updated_db db result) ts wanted ≡ store key (underlying_value v) contents wanted
unfolding updated_db
view_stored db ts result key v wanted contents found shows =
    view-get (updated_db db result) ts wanted
    ∙ elim (Bool-cases (beq (to_key key) (to_key wanted))) [
      | inl same ↦ rw (found, store_lem, same) refl
      | inr differ ↦ rw (found, store_lem, differ) (sym (view-get db ts wanted) ∙ shows)
    ]
