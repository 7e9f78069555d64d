-- ===== src/Database/Runs.antt =====
-- The runs of a database: what the client calls, one after the other, and the flushes that end in the
-- background between the calls. A flush takes effect when it ends.
use project_db.Database
use project_db.Common.{
  ℕ, ◌+◌, ◌*◌, ◌^◌, ◌<◌, ◌≡◌, Option, none, some, List, [], ◌∷◌, ◌++◌, length, Bytes, ok,
}
use project_db.Config.{DbConfig}
use project_db.Database.{FlushFuture, ProjectDb}
use project_db.Database.Background.{flush_done}
use project_db.Database.FlushDone.{pending}
use project_db.Database.Represents.{Contents, store}
use project_db.FileSystem.{FileSystem}
use project_db.MemTableQueue.{FlushJob}
use project_db.Serializer.Containers.{size_of_size_t}
use project_db.Serializer.Strings.{StringFits}
use project_db.SsTable.{of_table}
use project_db.SsTableIndex.{SsTableIndex}
use project_db.SsTableOps.{flush_ss_table}

pub data Event : Type 0 where
  set_event : (key value : Bytes) → Event
  remove_event : (key : Bytes) → Event
  get_event : (key : Bytes) (answer : Option Bytes) → Event
  flush_event : Event

-- A call that returns, or the end of a flush. A map has no more entries than a `size_t` counts.
pub data Step (config : DbConfig) : Event → ProjectDb → ProjectDb → Type 0 where
  set_step :
      (key value : Bytes) (db db' : ProjectDb)
      → Database.set config key value db ≡ ok db'
      → Step config (set_event key value) db db'
  remove_step :
      (key : Bytes) (db db' : ProjectDb)
      → Database.remove config key db ≡ ok db'
      → Step config (remove_event key) db db'
  get_step :
      (key : Bytes) (answer : Option Bytes) (db db' : ProjectDb)
      → Database.get config key db ≡ ok (answer, db')
      → Step config (get_event key answer) db db'
  flush_step :
      (now : ℕ) (db : ProjectDb) (before after : List FlushFuture) (job : FlushJob)
      (index : SsTableIndex) (fs : FileSystem)
      → db.m_flush_to_disk_futures ≡ before ++ pending job ∷ after
      → length job.table < 256 ^ size_of_size_t
      → flush_ss_table config.sstable_index_block_size_in_bytes
          (of_table now job.table)
          job.file_name
          db.shared.files
        ≡ ok (index, fs)
      → Step config flush_event db (flush_done db before job index after fs)

pub data Run (config : DbConfig) : List Event → ProjectDb → ProjectDb → Type 0 where
  run_end : (db : ProjectDb) → Run config [] db db
  run_next :
      (event : Event) (events : List Event) (db db₁ db' : ProjectDb)
      → Step config event db db₁
      → Run config events db₁ db'
      → Run config (event ∷ events) db db'

-- The map after an event, and after all of them.
unfoldable pub after_event : Event → Contents → Contents
unfolding store
after_event (set_event key value) contents = store key (some value) contents
after_event (remove_event key) contents = store key none contents
after_event (get_event key answer) contents = contents
after_event flush_event contents = contents

unfoldable pub after_events : List Event → Contents → Contents
unfolding after_event
after_events [] contents = contents
after_events (event ∷ events) contents = after_events events (after_event event contents)

-- Each answer is that of the map at its time.
abbrev pub AnswersAs : Contents → List Event → Type 0
AnswersAs contents [] = Unit {0}
AnswersAs contents (get_event key answer ∷ events) =
    (answer ≡ contents key) × AnswersAs contents events
AnswersAs contents (set_event key value ∷ events) =
    AnswersAs (store key (some value) contents) events
AnswersAs contents (remove_event key ∷ events) = AnswersAs (store key none contents) events
AnswersAs contents (flush_event ∷ events) = AnswersAs contents events

-- The strings of a call can be stored.
abbrev pub EventFits : Event → Type 0
EventFits (set_event key value) = StringFits key × StringFits value
EventFits (remove_event key) = StringFits key
EventFits (get_event key answer) = Unit {0}
EventFits flush_event = Unit {0}

-- The counters have room for `n` more updates.
abbrev pub HasRoomFor : ℕ → ProjectDb → Type 0
HasRoomFor n db =
    (db.shared.sstable_file_counter_base + n < 2 ^ 32)
    × (db.shared.transaction_log_file_counter_base + 2 * n < 2 ^ 32)
