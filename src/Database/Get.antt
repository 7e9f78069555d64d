-- ===== src/Database/Get.antt =====
-- `get` answers as the map that the database represents.
use project_db.MemTableQueue
use project_db.SsTableIndexQueue
use project_db.Database
use project_db.Common.{
  ℕ, ◌≤◌, ◌≡◌, refl, sym, ap, ◌∙◌, ◌⊎◌, inl, inr, Bool, Option, List, Bytes, ok, Option-cases,
}
use project_db.Config.{DbConfig}
use project_db.Database.{ProjectDb, lookup, check_futures}
use project_db.Database.Checked.{check_futures-Represents, CheckedFrom}
use project_db.Database.HandOff.{lookup-layers}
use project_db.Database.Represents.{Contents, Represents, IsUncompacted}
use project_db.Database.Sound.{IsSound}
use project_db.FileSystem.Names.{gen_ss_table_file_name}
use project_db.MemTableQueue.{MemTableQueue}
use project_db.SsTable.{Table}
use project_db.SsTableIndexQueue.{SsTableIndexQueue}
use project_db.SsTableIndexQueue.Lookup.{get-lookup_layers}
use project_db.SsTableIndexQueue.Names.{get-IsNamed}
use project_db.TransactionLog.Loop.{to_key}
use mathlib.Core.Path.{subst}

looked_up : ProjectDb → SsTableIndexQueue → ProjectDb
looked_up db q = record db { m_ss_table_index_queue = q }

lookup_after :
    (keep : Bool) (db : ProjectDb) (key : Bytes)
    → ((lookup keep db key).1 ≡ db)
      ⊎ ((lookup keep db key).1
          ≡ looked_up db
              (SsTableIndexQueue.get keep db.shared.files db.m_ss_table_index_queue (to_key key)).1)
unfolding lookup looked_up
lookup_after keep db key = elim (Option-cases (MemTableQueue.get db.m_mem_table_queue key)) [
  | inl n ↦ inr (rw (n, lookup) refl)
  | inr (v, s) ↦ inl (rw (s, lookup) refl)
]

looked_up-IsSound :
    {keep : Bool} (db : ProjectDb) (ts : List Table) (key : Bytes)
    → IsSound keep db ts
    → IsSound keep
        (looked_up db
          (SsTableIndexQueue.get keep db.shared.files db.m_ss_table_index_queue (to_key key)).1)
        ts
unfolding looked_up
looked_up-IsSound {keep} db ts key sound = record {
  served =
      (get-lookup_layers keep db.shared.files db.m_ss_table_index_queue ts (to_key key)
        sound.served).1;
  newest = sound.newest;
  names =
      get-IsNamed (λ name. (c : ℕ) × (c ≤ sound.newest) × (name ≡ gen_ss_table_file_name c)) keep
        db.shared.files db.m_ss_table_index_queue (to_key key) sound.names;
  jobs = sound.jobs;
  flushed = sound.flushed;
  aligned = sound.aligned;
  tables_ok = sound.tables_ok;
  oldest_log = sound.oldest_log;
  logs = sound.logs;
  idle = sound.idle;
}

module _ {keep : Bool} (contents : Contents) (db : ProjectDb) (key : Bytes) where
  lookup-Represents :
      Represents keep contents db
      → ((lookup keep db key).0 ≡ ok (contents key))
        × Represents keep contents (lookup keep db key).1
  unfolding looked_up
  lookup-Represents (ts, sound, shows) = (
    lookup-layers keep db ts key sound.served ∙ ap ok (shows key),
    elim (lookup_after keep db key) [
      | inl same ↦ subst (Represents keep contents) (sym same) (ts, sound, shows)
      | inr opened ↦
          subst (Represents keep contents) (sym opened)
            (ts, looked_up-IsSound db ts key sound, shows)
    ],
  )

get_lem :
    (config : DbConfig) (key : Bytes) (db db' : ProjectDb) (value : Option Bytes)
    → check_futures config db ≡ ok db'
    → (lookup config.keep_sstable_file_open db' key).0 ≡ ok value
    → Database.get config key db ≡ ok (value, (lookup config.keep_sstable_file_open db' key).1)
unfolding Database.get
get_lem config key db db' value checked found = rw checked (rw found refl)

-- A lookup leaves the futures and the counters.
lookup_leaves :
    (keep : Bool) (db : ProjectDb) (key : Bytes)
    → ((lookup keep db key).1.m_flush_to_disk_futures ≡ db.m_flush_to_disk_futures)
      × ((lookup keep db key).1.shared ≡ db.shared)
unfolding looked_up
lookup_leaves keep db key = elim (lookup_after keep db key) [
  | inl same ↦ (ap (λ d. d.m_flush_to_disk_futures) same, ap (λ d. d.shared) same)
  | inr opened ↦ (ap (λ d. d.m_flush_to_disk_futures) opened, ap (λ d. d.shared) opened)
]

-- As long as compaction is disabled, `get` of any key succeeds, whatever flushes are ready, its
-- answer is that of the map that the database represents, the database still represents it, the
-- counters stay, and the futures that are left begin with the first that was not ready.
pub get-Represents :
    (config : DbConfig) (contents : Contents) (key : Bytes) (db : ProjectDb)
    → IsUncompacted config
    → Represents config.keep_sstable_file_open contents db
    → (db' : ProjectDb) × (Database.get config key db ≡ ok (contents key, db'))
      × CheckedFrom config.keep_sstable_file_open contents db db'
get-Represents config contents key db off r =
    let (db₁, checked, (r₁, futures, base, logs)) =
      check_futures-Represents config off contents db r in
    let (found, r₂) = lookup-Represents contents db₁ key r₁ in
    let (futures', shared') = lookup_leaves config.keep_sstable_file_open db₁ key in
    (
      (lookup config.keep_sstable_file_open db₁ key).1,
      get_lem config key db db₁ (contents key) checked found,
      (
        r₂,
        futures' ∙ futures,
        ap (λ s. s.sstable_file_counter_base) shared' ∙ base,
        ap (λ s. s.transaction_log_file_counter_base) shared' ∙ logs,
      ),
    )
