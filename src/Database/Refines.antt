-- ===== src/Database/Refines.antt =====
-- Every run of the database is one of the map.
use project_db.Database
use project_db.Common.{
  ℕ, suc, ◌+◌, ◌*◌, ◌^◌, ◌<◌, ◌≡◌, refl, sym, ◌∙◌, Bool, Option, none, some, List, ◌∷◌, ◌++◌, arith,
  length, All, Bytes, Result, ok, ok-injective,
}
use project_db.Config.{DbConfig}
use project_db.Database.{FlushFuture, ProjectDb}
use project_db.Database.Background.{flush_done, flush_done-IsSound}
use project_db.Database.FlushDone.{pending}
use project_db.Database.Get.{get-Represents}
use project_db.Database.MemoryUpdate.{RisesBy}
use project_db.Database.Represents.{Contents, store, Represents, IsUncompacted}
use project_db.Database.Runs.{
  Event, Step, set_step, remove_step, get_step, flush_step, Run, run_end, run_next, after_event,
  after_events, EventFits, HasRoomFor, AnswersAs,
}
use project_db.Database.Update.{Updates, set-Updates, remove-Updates}
use project_db.Database.Updated.{HasRoom}
use project_db.FileSystem.{FileSystem}
use project_db.MemTableQueue.{FlushJob, Shared}
use project_db.Serializer.Containers.{size_of_size_t}
use project_db.SsTable.{of_table}
use project_db.SsTableIndex.{SsTableIndex}
use project_db.SsTableOps.{flush_ss_table}
use mathlib.Core.Path.{subst}

-- The state after a step of a run, for what is left of the run.
abbrev StepsTo : Bool → ℕ → Contents → ProjectDb → Type 0
StepsTo keep n contents db = Represents keep contents db × HasRoomFor n db

module _ (config : DbConfig) (off : IsUncompacted config) (n : ℕ) (contents : Contents)
    (db : ProjectDb) (room : HasRoomFor (suc n) db)
    (r : Represents config.keep_sstable_file_open contents db) where
  room_now : HasRoom db
  room_now = (omega (arith, room.0), omega (arith, room.1))

  room_left :
      (shared : Shared)
      → RisesBy 2 db.shared shared
      → (shared.sstable_file_counter_base + n < 2 ^ 32)
        × (shared.transaction_log_file_counter_base + 2 * n < 2 ^ 32)
  room_left shared (tables_rise, logs_rise) =
      (omega (arith, room.0, tables_rise), omega (arith, room.1, logs_rise))

  updated-StepsTo :
      (key : Bytes) (value : Option Bytes) (result : Result ProjectDb) (db' : ProjectDb)
      → Updates config.keep_sstable_file_open key value contents db result
      → result ≡ ok db'
      → StepsTo config.keep_sstable_file_open n (store key value contents) db'
  updated-StepsTo key value result db' (db₁, runs₁, r₁, rise) runs =
      subst (StepsTo config.keep_sstable_file_open n (store key value contents))
        (ok-injective (sym runs₁ ∙ runs)) (r₁, room_left db₁.shared rise)

  got-StepsTo :
      (key : Bytes) (answer : Option Bytes) (db' : ProjectDb)
      → Database.get config key db ≡ ok (answer, db')
      → (answer ≡ contents key) × StepsTo config.keep_sstable_file_open n contents db'
  got-StepsTo key answer db' runs =
      let (db₁, runs₁, (r₁, futures, base, logs)) = get-Represents config contents key db off r in
      subst (λ p. (p.0 ≡ contents key) × StepsTo config.keep_sstable_file_open n contents p.1)
        (ok-injective (sym runs₁ ∙ runs))
        (refl, (r₁, (omega (arith, room.0, base), omega (arith, room.1, logs))))

  flushed-StepsTo :
      (now : ℕ) (before after : List FlushFuture) (job : FlushJob) (index : SsTableIndex)
      (fs : FileSystem)
      → db.m_flush_to_disk_futures ≡ before ++ pending job ∷ after
      → length job.table < 256 ^ size_of_size_t
      → flush_ss_table config.sstable_index_block_size_in_bytes
          (of_table now job.table)
          job.file_name
          db.shared.files
        ≡ ok (index, fs)
      → StepsTo config.keep_sstable_file_open n contents (flush_done db before job index after fs)
  flushed-StepsTo now before after job index fs running small runs =
      let (ts, sound, shows) = r in
      (
        (
          ts,
          flush_done-IsSound config.sstable_index_block_size_in_bytes now db ts before after job
              index fs sound running small runs,
          shows,
        ),
        (omega (arith, room.0), omega (arith, room.1)),
      )

-- Each step answers as the map, and takes the database from a state that represents the map to one
-- that represents the map after it.
AnswersAt : Contents → Event → List Event → Type 0
AnswersAt contents event events =
    AnswersAs (after_event event contents) events → AnswersAs contents (event ∷ events)

Step-AnswersAs :
    (config : DbConfig) (contents : Contents) (event : Event) (events : List Event)
    (db db' : ProjectDb)
    → IsUncompacted config
    → Step config event db db'
    → EventFits event
    → HasRoomFor (suc (length events)) db
    → Represents config.keep_sstable_file_open contents db
    → AnswersAt contents event events
      × StepsTo config.keep_sstable_file_open (length events) (after_event event contents) db'
unfolding AnswersAt after_event
Step-AnswersAs config contents event events db db' off (set_step key value _ _ runs)
      (key_fits, value_fits) room r =
    (
      λ h. h,
      updated-StepsTo config off (length events) contents db room r key (some value) _ db'
          (set-Updates config key value contents db off key_fits value_fits
            (room_now config off (length events) contents db room r) r)
          runs,
    )
Step-AnswersAs config contents event events db db' off (remove_step key _ _ runs) key_fits room r =
    (
      λ h. h,
      updated-StepsTo config off (length events) contents db room r key none _ db'
          (remove-Updates config key contents db off key_fits
            (room_now config off (length events) contents db room r) r)
          runs,
    )
Step-AnswersAs config contents event events db db' off (get_step key answer _ _ runs) fits room r =
    let (same, next) =
      got-StepsTo config off (length events) contents db room r key answer db' runs in
    ((λ h. (same, h)), next)
Step-AnswersAs config contents event events db db' off
      (flush_step now _ before after job index fs running small runs) fits room r =
    (
      λ h. h,
      flushed-StepsTo config off (length events) contents db room r now before after job index fs
          running small runs,
    )

-- A database that represents a map, and whose counters have room, answers every `get` of a run as the
-- map does that every `set` and `remove` before it has changed, wherever in the run flushes end, as
-- long as compaction is disabled and the strings can be stored; and it represents the map at the end.
pub Run-AnswersAs :
    (config : DbConfig) (contents : Contents) (events : List Event) (db db' : ProjectDb)
    → IsUncompacted config
    → Run config events db db'
    → All EventFits events
    → HasRoomFor (length events) db
    → Represents config.keep_sstable_file_open contents db
    → AnswersAs contents events
      × Represents config.keep_sstable_file_open (after_events events contents) db'
unfolding after_events AnswersAt
Run-AnswersAs config contents events db db' off (run_end _) fits room r = (tt, r)
Run-AnswersAs config contents events db db' off (run_next event rest _ db₁ _ step run) (fits, more)
      room r =
    let (now, (r₁, room₁)) =
      Step-AnswersAs config contents event rest db db₁ off step fits room r in
    let (later, r₂) =
      Run-AnswersAs config (after_event event contents) rest db₁ db' off run more room₁ r₁ in
    (now later, r₂)
