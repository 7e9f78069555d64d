-- ===== src/Database/Update.antt =====
-- `set` and `remove` change the map that the database represents at their key.
-- The step succeeds, what the database then represents has changed at the key only, and the counters
-- have risen by one for the tables and two for the logs at most.
use project_db.MemTableQueue
use project_db.MemTable
use project_db.Database
use project_db.Common.{
  ◌≡◌, refl, sym, ◌∙◌, Bool, Option, none, some, arith, Bytes, Result, ok, ok-injective,
  if◌then◌else◌,
}
use project_db.Config.{DbConfig}
use project_db.Database.{ProjectDb, set_checked, remove_checked}
use project_db.Database.Checked.{check_futures-Represents}
use project_db.Database.MemoryUpdate.{RisesBy}
use project_db.Database.MemoryUpdated.{update_back-Launched}
use project_db.Database.Represents.{Contents, store, Represents, IsUncompacted}
use project_db.Database.Sound.{TableOk}
use project_db.Database.Storable.{set-TableOk, remove-TableOk}
use project_db.Database.Updated.{HasRoom, updated_db, updated-IsSound, view_stored}
use project_db.Key.{beq}
use project_db.MemTable.{MemTable}
use project_db.MemTableQueue.{FlushJob, Shared, MemTableQueue, update_back}
use project_db.MemTableQueue.Update.{
  IsTotal, write_set-IsTotal, write_remove-IsTotal, get-set, get-remove,
}
use project_db.Serializer.Streams.{OStream}
use project_db.Serializer.Strings.{StringFits}
use project_db.TransactionLog.{write_set, write_remove}
use project_db.TransactionLog.Loop.{to_key}
use project_db.Value.{Value, tombstone, of_string, underlying_value}
use mathlib.Core.Path.{subst}

abbrev pub Updates : Bool → Bytes → Option Bytes → Contents → ProjectDb → Result ProjectDb → Type 0
Updates keep key value contents db result =
    (db' : ProjectDb) × (result ≡ ok db')
    × Represents keep (store key value contents) db'
    × RisesBy 2 db.shared db'.shared

set_checked_lem :
    (config : DbConfig) (key value : Bytes) (db : ProjectDb)
    (result : Option FlushJob × MemTableQueue × Shared)
    → MemTableQueue.set config.memtable_approximate_max_size_in_bytes key value db.m_mem_table_queue
        db.shared
      ≡ ok result
    → set_checked config key value db ≡ ok (updated_db db result)
unfolding set_checked updated_db
set_checked_lem config key value db result runs = rw runs refl

remove_checked_lem :
    (config : DbConfig) (key : Bytes) (db : ProjectDb)
    (result : Option FlushJob × MemTableQueue × Shared)
    → MemTableQueue.remove config.memtable_approximate_max_size_in_bytes key db.m_mem_table_queue
        db.shared
      ≡ ok result
    → remove_checked config key db ≡ ok (updated_db db result)
unfolding remove_checked updated_db
remove_checked_lem config key db result runs = rw runs refl

-- What the check of the background jobs leaves has the counters of before.
Updates-checked :
    {keep : Bool} (key : Bytes) (value : Option Bytes) (contents : Contents) (db db₁ : ProjectDb)
    (result : Result ProjectDb)
    → db₁.shared.sstable_file_counter_base ≡ db.shared.sstable_file_counter_base
    → db₁.shared.transaction_log_file_counter_base ≡ db.shared.transaction_log_file_counter_base
    → Updates keep key value contents db₁ result
    → Updates keep key value contents db result
Updates-checked key value contents db db₁ result base logs
      (db', runs, r, (tables_rise, logs_rise)) =
    (db', runs, r, (omega (arith, tables_rise, base), omega (arith, logs_rise, logs)))

module _ (config : DbConfig) (key : Bytes) (key_fits : StringFits key) (contents : Contents)
    (db : ProjectDb) (room : HasRoom db) {keep : Bool} (r : Represents keep contents db) where
  -- An update whose value is found afterwards.
  update_back-Updates :
      (transaction : OStream → Result OStream) (change : MemTable → MemTable) (v : Value)
      → IsTotal transaction
      → ((m : MemTable) → TableOk m.m_table → TableOk (change m).m_table)
      → ((wanted : Bytes)
          → (job : Option FlushJob) × (q' : MemTableQueue) × (shared' : Shared) × (update_back
                config.memtable_approximate_max_size_in_bytes transaction change
                db.m_mem_table_queue db.shared
              ≡ ok (job, q', shared'))
            × (MemTableQueue.get q' wanted ≡ (
                if beq (to_key key) (to_key wanted)
                then some v
                else MemTableQueue.get db.m_mem_table_queue wanted)))
      → (result : Option FlushJob × MemTableQueue × Shared) × (update_back
            config.memtable_approximate_max_size_in_bytes transaction change db.m_mem_table_queue
            db.shared
          ≡ ok result)
        × Represents keep (store key (underlying_value v) contents) (updated_db db result)
        × RisesBy 2 db.shared (updated_db db result).shared
  unfolding updated_db
  update_back-Updates transaction change v total keeps finds =
      let (ts, sound, shows) = r in
      let (result, runs, launched) =
        update_back-Launched config.memtable_approximate_max_size_in_bytes transaction change total
          keeps db.m_flush_to_disk_futures sound.newest sound.oldest_log db.m_mem_table_queue
          db.shared room.0 room.1 (sound.aligned, sound.tables_ok, sound.logs) sound.jobs in
      (
        result,
        runs,
        (
          ts,
          updated-IsSound db ts result sound launched,
          λ wanted.
              let (job, q', shared', runs', found) = finds wanted in
              view_stored db ts result key v wanted contents
                (subst
                  (λ res. MemTableQueue.get res.1 wanted ≡ (
                    if beq (to_key key) (to_key wanted)
                    then some v
                    else MemTableQueue.get db.m_mem_table_queue wanted))
                  (ok-injective (sym runs' ∙ runs)) found)
                (shows wanted),
        ),
        launched.3,
      )

  set_checked-Updates :
      (value : Bytes)
      → StringFits value
      → Updates keep key (some value) contents db (set_checked config key value db)
  unfolding MemTableQueue.set underlying_value
  set_checked-Updates value value_fits =
      let (result, runs, r', rise) =
        update_back-Updates (write_set key value)
          (λ m. MemTable.set m (to_key key) (of_string value)) (of_string value)
          (write_set-IsTotal key value) (set-TableOk key value key_fits value_fits)
          (λ wanted.
            get-set config.memtable_approximate_max_size_in_bytes key value wanted
              db.m_mem_table_queue db.shared) in
      (updated_db db result, set_checked_lem config key value db result runs, r', rise)

  remove_checked-Updates : Updates keep key none contents db (remove_checked config key db)
  unfolding MemTableQueue.remove underlying_value
  remove_checked-Updates =
      let (result, runs, r', rise) =
        update_back-Updates (write_remove key) (λ m. MemTable.remove m (to_key key)) tombstone
          (write_remove-IsTotal key) (remove-TableOk key key_fits)
          (λ wanted.
            get-remove config.memtable_approximate_max_size_in_bytes key wanted db.m_mem_table_queue
              db.shared) in
      (updated_db db result, remove_checked_lem config key db result runs, r', rise)

-- As long as compaction is disabled and the next counters of files are `unsigned` numbers (one for the
-- tables, two for the logs), `set` of a key and a value that can be stored
-- succeeds in a database that represents a map, whatever
-- flushes are ready, and what the database represents then differs only in that the key has the
-- value, and the counters are at most one further for the tables and two for the logs.
pub set-Updates :
    (config : DbConfig) (key value : Bytes) (contents : Contents) (db : ProjectDb)
    → IsUncompacted config
    → StringFits key
    → StringFits value
    → HasRoom db
    → Represents config.keep_sstable_file_open contents db
    → Updates config.keep_sstable_file_open key
        (some value)
        contents
        db
        (Database.set config key value db)
unfolding Database.set
set-Updates config key value contents db off key_fits value_fits room r =
    let (db₁, checked, (r₁, futures, base, logs)) =
      check_futures-Represents config off contents db r in
    rw checked (
      Updates-checked key (some value) contents db db₁ _ base logs (
        set_checked-Updates config key key_fits contents db₁ (rw (base, logs) room) r₁ value
          value_fits))

-- As long as compaction is disabled and the next counters of files are `unsigned` numbers (one for the
-- tables, two for the logs), `remove` of a key that can be stored
-- succeeds in a database that represents a map, whatever flushes
-- are ready, and what the database represents then differs only in that the key has no value,
-- and the counters are at most one further for the tables and two for the logs.
pub remove-Updates :
    (config : DbConfig) (key : Bytes) (contents : Contents) (db : ProjectDb)
    → IsUncompacted config
    → StringFits key
    → HasRoom db
    → Represents config.keep_sstable_file_open contents db
    → Updates config.keep_sstable_file_open key none contents db (Database.remove config key db)
unfolding Database.remove
remove-Updates config key contents db off key_fits room r =
    let (db₁, checked, (r₁, futures, base, logs)) =
      check_futures-Represents config off contents db r in
    rw checked (
      Updates-checked key none contents db db₁ _ base logs
        (remove_checked-Updates config key key_fits contents db₁ (rw (base, logs) room) r₁))
