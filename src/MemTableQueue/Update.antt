-- ===== src/MemTableQueue/Update.antt =====
-- What an update of the tables in memory leaves behind.
use project_db.MemTableQueue
use project_db.MemTable
use project_db.Common.{
  ℕ, ◌≡◌, sym, ap, ◌∙◌, inl, inr, Option, some, List, [], ◌∷◌, ◌++◌, Bytes, Result, ok,
  if◌then◌else◌,
}
use project_db.Compaction.Layers.{lookup_layers}
use project_db.FileSystem.{file_content, write_file}
use project_db.Key.{Key, beq}
use project_db.MemTable.{MemTable, get_value, new_mem_table}
use project_db.MemTableQueue.{
  FlushJob, QueueEntry, Shared, MemTableQueue, emplace_if_empty, back, change_back, or_empty,
  write_log, try_launch_flush_to_disk, update_back, emplace_back,
}
use project_db.MemTableQueue.Lookup.{
  tables, change_back-layers, entries-cases, emplace_if_empty-layers, try_launch-layers, get-layers,
}
use project_db.Serializer.Streams.{OStream, ostream, write}
use project_db.TransactionLog.{write_set, write_remove}
use project_db.TransactionLog.Loop.{write_set-bytes, write_remove-bytes, to_key}
use project_db.Value.{Value, tombstone, of_string}
use project_db.MemTable.Laws.{get_value-set, get_value-remove}
use project_db.FileSystem.Names.{gen_transaction_log_file_name}

-- Writing to the end of a log does not fail.
abbrev pub IsTotal : (OStream → Result OStream) → Type 0
IsTotal transaction = (content : Bytes) → (os : OStream) × (transaction (ostream content) ≡ ok os)

pub write_set-IsTotal : (key value : Bytes) → IsTotal (write_set key value)
unfolding write
write_set-IsTotal key value content = (_, write_set-bytes key value (ostream content))

pub write_remove-IsTotal : (key : Bytes) → IsTotal (write_remove key)
unfolding write
write_remove-IsTotal key content = (_, write_remove-bytes key (ostream content))

write_log-ok :
    (transaction : OStream → Result OStream) (q : MemTableQueue) (shared : Shared)
    → IsTotal transaction
    → (shared' : Shared) × (write_log transaction q shared ≡ ok shared')
unfolding write_log
write_log-ok transaction q shared total =
    let name = (back q.m_queue).log_file_name in
    let content = or_empty (file_content shared.files name) in
    let (os, runs) = total content in
    (record shared { files = write_file name os.content shared.files }, rw runs)

emplace_back-entry :
    (q : MemTableQueue) (shared : Shared)
    → q.m_queue ≡ []
    → (e : QueueEntry) × ((emplace_back q shared).0.m_queue ≡ e ∷ [])
unfolding emplace_back
emplace_back-entry q shared n =
    let name = (gen_transaction_log_file_name shared.transaction_log_file_counter_base).0 in
    let e : QueueEntry = record { mem_table = new_mem_table; log_file_name = name } in
    (e, ap (λ es. es ++ e ∷ []) n)

pub emplace_if_empty-back :
    (q : MemTableQueue) (shared : Shared)
    → (e : QueueEntry) × (rest : List QueueEntry) × ((emplace_if_empty q shared).0.m_queue
        ≡ e ∷ rest)
unfolding emplace_if_empty
emplace_if_empty-back q shared = elim (entries-cases q.m_queue) [
  | inl n ↦ (
    (emplace_back-entry q shared n).0,
    [],
    rw (n, emplace_if_empty) (emplace_back-entry q shared n).1,
  )
  | inr (e, rest, c) ↦ (e, rest, rw (c, emplace_if_empty) c)
]

pub update_back_lem :
    (max_size : ℕ) (transaction : OStream → Result OStream) (change : MemTable → MemTable)
    (q : MemTableQueue) (shared shared' : Shared)
    → write_log transaction (emplace_if_empty q shared).0 (emplace_if_empty q shared).1 ≡ ok shared'
    → update_back max_size transaction change q shared
      ≡ ok (
          try_launch_flush_to_disk max_size
            (record { m_queue = change_back change (emplace_if_empty q shared).0.m_queue })
            shared')
unfolding update_back
update_back_lem max_size transaction change q shared shared' h = rw h

module _ (max_size : ℕ) (k : Key) (v : Value) (transaction : OStream → Result OStream)
    (change : MemTable → MemTable) (total : IsTotal transaction)
    (changes : (m : MemTable) (j : Key)
      → get_value (change m) j ≡ (if beq k j then some v else get_value m j))
    (q : MemTableQueue) (shared : Shared) where
  update_back-layers :
      (job : Option FlushJob) × (q' : MemTableQueue) × (shared' : Shared) × (update_back max_size
          transaction change q shared
        ≡ ok (job, q', shared'))
      × ((j : Key)
          → lookup_layers j (tables q'.m_queue)
            ≡ (if beq k j then some v else lookup_layers j (tables q.m_queue)))
  update_back-layers =
      let opened = emplace_if_empty q shared in
      let (shared', logged) = write_log-ok transaction opened.0 opened.1 total in
      let (e, rest, there) = emplace_if_empty-back q shared in
      let q₁ : MemTableQueue = record { m_queue = change_back change opened.0.m_queue } in
      let done = try_launch_flush_to_disk max_size q₁ shared' in
      (
        done.0,
        done.1,
        done.2,
        update_back_lem max_size transaction change q shared shared' logged,
        λ j.
            try_launch-layers max_size q₁ shared' j
            ∙ ap (λ es. lookup_layers j (tables (change_back change es))) there
            ∙ change_back-layers k v change changes j e rest
            ∙ ap (λ o. if beq k j then some v else o)
                (ap (λ es. lookup_layers j (tables es)) (sym there)
                  ∙ emplace_if_empty-layers j q shared),
      )

-- `set` succeeds whatever the queue holds, and, whether or not it begins a new table or launches a
-- flush, a lookup of its key then finds the new value, and a lookup of any other key what it found
-- before.
pub get-set :
    (max_size : ℕ) (key value wanted : Bytes) (q : MemTableQueue) (shared : Shared)
    → (job : Option FlushJob) × (q' : MemTableQueue) × (shared' : Shared) × (MemTableQueue.set
          max_size key value q shared
        ≡ ok (job, q', shared'))
      × (MemTableQueue.get q' wanted ≡ (
          if beq (to_key key) (to_key wanted)
          then some (of_string value)
          else MemTableQueue.get q wanted))
unfolding MemTableQueue.set
get-set max_size key value wanted q shared =
    let (job, q', shared', runs, finds) =
      update_back-layers max_size (to_key key) (of_string value) (write_set key value)
        (λ m. MemTable.set m (to_key key) (of_string value)) (write_set-IsTotal key value)
        (λ m j. get_value-set m (to_key key) j (of_string value)) q shared in
    (job, q', shared', runs, rw (get-layers q' wanted, get-layers q wanted) (finds (to_key wanted)))

-- `remove` succeeds whatever the queue holds, and, whether or not it begins a new table or launches a
-- flush, a lookup of its key then finds a tombstone, and a lookup of any other key what it found
-- before.
pub get-remove :
    (max_size : ℕ) (key wanted : Bytes) (q : MemTableQueue) (shared : Shared)
    → (job : Option FlushJob) × (q' : MemTableQueue) × (shared' : Shared) × (MemTableQueue.remove
          max_size key q shared
        ≡ ok (job, q', shared'))
      × (MemTableQueue.get q' wanted ≡ (
          if beq (to_key key) (to_key wanted) then some tombstone else MemTableQueue.get q wanted))
unfolding MemTableQueue.remove
get-remove max_size key wanted q shared =
    let (job, q', shared', runs, finds) =
      update_back-layers max_size (to_key key) tombstone (write_remove key)
        (λ m. MemTable.remove m (to_key key)) (write_remove-IsTotal key)
        (λ m j. get_value-remove m (to_key key) j) q shared in
    (job, q', shared', runs, rw (get-layers q' wanted, get-layers q wanted) (finds (to_key wanted)))
