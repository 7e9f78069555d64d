-- ===== src/Database/HandOff.antt =====
-- A finished flush hands a table over from memory to the queue of SSTables.
use project_db.MemTableQueue
use project_db.SsTableIndexQueue
use project_db.Common.{
  ◌≡◌, refl, Bool, Option, none, some, List, ◌∷◌, ◌++◌, Bytes, ok, sym, ap, ◌∙◌, [], append_assoc,
  drop,
}
use project_db.Compaction.Layers.{or_older, lookup_layers, visible, lookup_layers-append}
use project_db.Database.{ProjectDb, lookup, finish_flush, underlying}
use project_db.FileSystem.{FileSystem, mark_file_as_deprecated, remove_ext_and_rename}
use project_db.MemTableQueue.{QueueEntry, MemTableQueue, Shared, pop}
use project_db.MemTableQueue.Lookup.{tables, get-layers}
use project_db.SsTable.{Table}
use project_db.SsTableIndex.{SsTableIndex, set_ss_table_file_name}
use project_db.SsTableIndexQueue.{SsTableIndexQueue}
use project_db.SsTableIndexQueue.Lookup.{Serves, AllServe, get-lookup_layers, AllServe-append}
use project_db.TransactionLog.Loop.{to_key}
use project_db.Value.{Value}

underlying-visible : (o : Option Value) → underlying o ≡ visible o
underlying-visible none = refl
underlying-visible (some v) = refl

lookup-in_memory :
    (keep : Bool) (db : ProjectDb) (key : Bytes) (ts : List Table) (o : Option Value)
    → MemTableQueue.get db.m_mem_table_queue key ≡ o
    → (SsTableIndexQueue.get keep db.shared.files db.m_ss_table_index_queue (to_key key)).0
      ≡ ok (lookup_layers (to_key key) ts)
    → (lookup keep db key).0 ≡ ok (visible (or_older o (lookup_layers (to_key key) ts)))
unfolding lookup
lookup-in_memory keep db key ts none e f =
    rw (e, lookup) (rw f (ap ok (underlying-visible (lookup_layers (to_key key) ts))))
lookup-in_memory keep db key ts (some v) e f = rw (e, lookup) refl

-- When the files are there and the indexes describe them, a lookup shows of every key what the newest
-- table says that holds it, in memory or on disk, and nothing for a key that is removed.
pub lookup-layers :
    (keep : Bool) (db : ProjectDb) (ts : List Table) (key : Bytes)
    → AllServe keep db.shared.files db.m_ss_table_index_queue.m_queue ts
    → (lookup keep db key).0
      ≡ ok (visible (lookup_layers (to_key key) (ts ++ tables db.m_mem_table_queue.m_queue)))
lookup-layers keep db ts key s =
    rw (lookup_layers-append (to_key key) ts (tables db.m_mem_table_queue.m_queue)) (
      lookup-in_memory keep db key ts
        (lookup_layers (to_key key) (tables db.m_mem_table_queue.m_queue))
        (get-layers db.m_mem_table_queue key)
        (get-lookup_layers keep db.shared.files db.m_ss_table_index_queue ts (to_key key) s).0)

pop_oldest :
    (q : MemTableQueue) (shared : Shared) (entry : QueueEntry) (rest : List QueueEntry)
    (fs : FileSystem)
    → q.m_queue ≡ entry ∷ rest
    → mark_file_as_deprecated entry.log_file_name shared.files ≡ ok fs
    → pop q shared ≡ ok (record { m_queue = rest }, record shared { files = fs })
unfolding pop
pop_oldest q shared entry rest fs oldest marked = rw (oldest, pop) (rw marked)

finish_flush_runs :
    (db : ProjectDb) (index : SsTableIndex) (name : Bytes) (fs : FileSystem) (q : MemTableQueue)
    (shared : Shared)
    → remove_ext_and_rename index.m_ss_table_file_name db.shared.files ≡ ok (name, fs)
    → pop db.m_mem_table_queue (record db.shared { files = fs }) ≡ ok (q, shared)
    → finish_flush index db
      ≡ ok (record db {
        m_mem_table_queue = q;
        m_ss_table_index_queue =
            SsTableIndexQueue.insert db.m_ss_table_index_queue (set_ss_table_file_name index name);
        m_flush_to_disk_futures = drop 1 db.m_flush_to_disk_futures;
        shared = shared;
      })
unfolding finish_flush
finish_flush_runs db index name fs q shared renamed popped = rw renamed (rw popped)

served_insert :
    (keep : Bool) (fs : FileSystem) (q : SsTableIndexQueue) (ts : List Table) (index : SsTableIndex)
    (t : Table)
    → AllServe keep fs q.m_queue ts
    → Serves keep fs index t
    → AllServe keep fs (SsTableIndexQueue.insert q index).m_queue (ts ++ t ∷ [])
unfolding SsTableIndexQueue.insert
served_insert keep fs q ts index t s i =
    AllServe-append keep fs q.m_queue (index ∷ []) ts (t ∷ []) s (i, tt)

-- When the file of a finished flush holds the oldest table in memory, is described by its index, and
-- can be renamed, and the log of the table too, and the files of the other indexes stay as they are,
-- then the hand-over succeeds and no lookup shows anything else after it.
pub finish_flush-lookup :
    (keep : Bool) (db : ProjectDb) (index : SsTableIndex) (entry : QueueEntry)
    (rest : List QueueEntry) (ts : List Table) (name : Bytes) (fs₁ fs₂ : FileSystem) (key : Bytes)
    → db.m_mem_table_queue.m_queue ≡ entry ∷ rest
    → AllServe keep db.shared.files db.m_ss_table_index_queue.m_queue ts
    → remove_ext_and_rename index.m_ss_table_file_name db.shared.files ≡ ok (name, fs₁)
    → mark_file_as_deprecated entry.log_file_name fs₁ ≡ ok fs₂
    → AllServe keep fs₂ db.m_ss_table_index_queue.m_queue ts
    → Serves keep fs₂ (set_ss_table_file_name index name) entry.mem_table.m_table
    → (db' : ProjectDb) × (finish_flush index db ≡ ok db')
      × ((lookup keep db' key).0 ≡ (lookup keep db key).0)
finish_flush-lookup keep db index entry rest ts name fs₁ fs₂ key oldest before renamed marked after
      flushed =
    let db' : ProjectDb = record db {
      m_mem_table_queue = record { m_queue = rest };
      m_ss_table_index_queue =
          SsTableIndexQueue.insert db.m_ss_table_index_queue (set_ss_table_file_name index name);
      m_flush_to_disk_futures = drop 1 db.m_flush_to_disk_futures;
      shared = record db.shared { files = fs₂ };
    } in
    let table = entry.mem_table.m_table in
    (
      db',
      finish_flush_runs db index name fs₁ _ _ renamed (
          pop_oldest db.m_mem_table_queue (record db.shared { files = fs₁ }) entry rest fs₂ oldest
            marked),
      lookup-layers keep db' (ts ++ table ∷ []) key
            (served_insert keep fs₂ db.m_ss_table_index_queue ts _ table after flushed)
          ∙ ap (λ layers. ok (visible (lookup_layers (to_key key) layers)))
              (append_assoc ts (table ∷ []) (tables rest) ∙ ap (λ es. ts ++ tables es) (sym oldest))
          ∙ sym (lookup-layers keep db ts key before),
    )
