-- ===== src/Tests/Runs.antt =====
-- The theorems on runs of the database, at a state with a flush that runs.
use project_db.Database
use project_db.Common.{
  refl, false, none, [], ◌∷◌, arith, ◌≤◌, ◌≡◌, ◌≢◌, some, List, length, All, Bytes, ok, ◌^◌,
  out_of_range, err, ltb, if◌then◌else◌,
}
use project_db.Config.{DbConfig, default_config}
use project_db.Database.{ProjectDb, finish_flush}
use project_db.Database.FlushDone.{pending}
use project_db.Database.Represents.{Contents, Represents, store}
use project_db.Database.Sound.{IsThere, IsSound, view}
use project_db.Database.Updated.{HasRoom}
use project_db.FileSystem.{FileSystem, file_content}
use project_db.FileSystem.Laws.{job_file_name, log_name}
use project_db.FileSystem.Names.{decimal_loop, gen_file_name, deprecated_file_ext, extension}
use project_db.Key.{string_eq}
use project_db.MemTable.{new_mem_table}
use project_db.MemTableQueue.{FlushJob}
use project_db.Serializer.Strings.{StringFits}
use project_db.SsTableIndexQueue.{new_queue}
use project_db.Tests.Data.{old_table, old_table-IsSorted, old_table-Fits}
use project_db.Database.Background.{flush_done, flush_done-IsSound}
use project_db.Database.Checked.{CheckedFrom}
use project_db.Database.Drains.{IsFlushEvent, flushes-drain}
use project_db.Database.FlushTaken.{finish_flush-IsSound, Taken}
use project_db.Database.Get.{get-Represents}
use project_db.Database.Runs.{
  Event, set_event, Run, get_event, set_step, get_step, run_end, run_next, after_events, AnswersAs,
}
use project_db.Database.Update.{Updates, set-Updates, remove-Updates}
use project_db.SsTable.{of_table}
use project_db.SsTableIndex.{SsTableIndex}
use project_db.SsTableIndex.Seek.{Describes}
use project_db.SsTableOps.{flush_ss_table}
use project_db.SsTableOps.Disk.{flush_ss_table-Describes}
use project_db.SsTableOps.Flush.{encode_ss_table}
use project_db.Database.Refines.{Run-AnswersAs}
use project_db.FileSystem.Counter.{get_counter_from_file_name, get_counter_from_file_name-gen}

abbrev config : DbConfig
config = record default_config { num_sstable_to_compact = 0 }

abbrev job : FlushJob
job = record { table = old_table.m_table; file_name = job_file_name 1 }

abbrev busy_files : FileSystem
busy_files = (log_name 0, []) ∷ (log_name 1, []) ∷ []

-- The old table is full, and the table in use is empty.
abbrev busy : ProjectDb
busy = record {
  m_mem_table_queue = record {
    m_queue =
        record { mem_table = record { m_table = old_table.m_table }; log_file_name = log_name 0 }
        ∷ record { mem_table = new_mem_table; log_file_name = log_name 1 }
        ∷ [];
  };
  m_ss_table_index_queue = new_queue;
  m_flush_to_disk_futures = pending job ∷ [];
  m_ss_table_compaction_future = none;
  shared = record {
    files = busy_files;
    sstable_file_counter_base = 1;
    transaction_log_file_counter_base = 2;
  };
}

logs-IsThere : IsThere busy_files (log_name 0) × IsThere busy_files (log_name 1)
unfolding file_content string_eq gen_file_name decimal_loop
logs-IsThere = (([], refl), ([], refl))

busy-IsSound : IsSound false busy []
busy-IsSound = record {
  served = tt;
  newest = 0;
  names = tt;
  jobs = (1, omega arith, refl, omega arith);
  flushed = (tt, tt);
  aligned = (refl, tt);
  tables_ok = ((old_table-IsSorted, old_table-Fits.1.1), ((tt, tt), tt));
  oldest_log = 0;
  logs =
      (0, omega arith, refl, logs-IsThere.0, (1, omega arith, refl, logs-IsThere.1, omega arith));
  idle = refl;
}

abbrev contents : Contents
contents = view busy []

busy-Represents : Represents false contents busy
busy-Represents = ([], busy-IsSound, λ key. refl)

a-StringFits : StringFits (b'a' ∷ [])
a-StringFits = (omega arith, (omega arith, tt), tt)

busy-HasRoom : HasRoom busy
busy-HasRoom = (omega arith, omega arith)

-- The flush ends.
abbrev flushed_index : SsTableIndex
flushed_index =
    (flush_ss_table-Describes 30 (of_table 0 job.table) job.file_name busy_files old_table-Fits.1).0

abbrev flushed_files : FileSystem
flushed_files =
    (flush_ss_table-Describes 30 (of_table 0 job.table) job.file_name busy_files old_table-Fits.1).1

flush_runs :
    flush_ss_table 30 (of_table 0 job.table) job.file_name busy_files
    ≡ ok (flushed_index, flushed_files)
flush_runs =
    (flush_ss_table-Describes 30 (of_table 0 job.table) job.file_name busy_files old_table-Fits.1).2

flush_ss_table-Describes_example :
    (index : SsTableIndex) × (fs' : FileSystem) × (flush_ss_table 30
        (of_table 0 job.table)
        job.file_name
        busy_files
      ≡ ok (index, fs'))
    × Describes index (encode_ss_table (of_table 0 job.table)) job.table
    × (index.m_ss_table_file_name ≡ job.file_name)
    × (index.m_ifs ≡ none)
    × (file_content fs' job.file_name ≡ some (encode_ss_table (of_table 0 job.table)))
    × ((other_name : Bytes)
        → other_name ≢ job.file_name
        → extension other_name ≢ deprecated_file_ext
        → file_content fs' other_name ≡ file_content busy_files other_name)
flush_ss_table-Describes_example =
    flush_ss_table-Describes 30 (of_table 0 job.table) job.file_name busy_files old_table-Fits.1

abbrev flushed_db : ProjectDb
flushed_db = flush_done busy [] job flushed_index [] flushed_files

flush_done-IsSound_example : IsSound false flushed_db []
flush_done-IsSound_example =
    flush_done-IsSound 30 0 busy [] [] [] job flushed_index flushed_files busy-IsSound refl
      old_table-Fits.1.0 flush_runs

flushed_db-IsSound : IsSound false flushed_db []
flushed_db-IsSound =
    flush_done-IsSound 30 0 busy [] [] [] job flushed_index flushed_files busy-IsSound refl
      old_table-Fits.1.0 flush_runs

finish_flush-IsSound_example :
    (db' : ProjectDb) × (finish_flush flushed_index flushed_db ≡ ok db')
    × Taken false flushed_db [] job.table [] db'
finish_flush-IsSound_example =
    finish_flush-IsSound flushed_db [] job flushed_index [] flushed_db-IsSound refl

get-Represents_example :
    (db' : ProjectDb) × (Database.get config (b'a' ∷ []) busy ≡ ok (contents (b'a' ∷ []), db'))
    × CheckedFrom false contents busy db'
get-Represents_example = get-Represents config contents (b'a' ∷ []) busy refl busy-Represents

set-Updates_example :
    Updates false
      (b'a' ∷ [])
      (some (b'a' ∷ []))
      contents
      busy
      (Database.set config (b'a' ∷ []) (b'a' ∷ []) busy)
set-Updates_example =
    set-Updates config (b'a' ∷ []) (b'a' ∷ []) contents busy refl a-StringFits a-StringFits
      busy-HasRoom busy-Represents

remove-Updates_example :
    Updates false (b'a' ∷ []) none contents busy (Database.remove config (b'a' ∷ []) busy)
remove-Updates_example =
    remove-Updates config (b'a' ∷ []) contents busy refl a-StringFits busy-HasRoom busy-Represents

flushes-drain_example :
    (events : List Event) × (db₁ : ProjectDb) × (db₂ : ProjectDb) × All IsFlushEvent events
    × Run config events busy db₁
    × (Database.get config (b'a' ∷ []) db₁ ≡ ok (contents (b'a' ∷ []), db₂))
    × (db₂.m_flush_to_disk_futures ≡ [])
    × (length db₂.m_mem_table_queue.m_queue ≤ 1)
flushes-drain_example =
    flushes-drain config contents (b'a' ∷ []) busy refl busy-Represents (old_table-Fits.1.0, tt)

-- The client sets a key and gets it.
abbrev after_set : Contents
after_set = store (b'a' ∷ []) (some (b'a' ∷ [])) contents

set_result :
    Updates false
      (b'a' ∷ [])
      (some (b'a' ∷ []))
      contents
      busy
      (Database.set config (b'a' ∷ []) (b'a' ∷ []) busy)
set_result =
    set-Updates config (b'a' ∷ []) (b'a' ∷ []) contents busy refl a-StringFits a-StringFits
      busy-HasRoom busy-Represents

abbrev set_db : ProjectDb
set_db = set_result.0

abbrev got_db : ProjectDb
got_db = (get-Represents config after_set (b'a' ∷ []) set_db refl set_result.2).0

abbrev two_calls : List Event
two_calls = set_event (b'a' ∷ []) (b'a' ∷ []) ∷ get_event (b'a' ∷ []) (after_set (b'a' ∷ [])) ∷ []

two_calls-Run : Run config two_calls busy got_db
two_calls-Run =
    run_next (set_event (b'a' ∷ []) (b'a' ∷ [])) _ busy set_db got_db
      (set_step (b'a' ∷ []) (b'a' ∷ []) busy set_db set_result.1)
      (run_next (get_event (b'a' ∷ []) (after_set (b'a' ∷ []))) [] set_db got_db got_db
        (get_step (b'a' ∷ []) (after_set (b'a' ∷ [])) set_db got_db
          (get-Represents config after_set (b'a' ∷ []) set_db refl set_result.2).1)
        (run_end got_db))

Run-AnswersAs_example :
    AnswersAs contents two_calls × Represents false (after_events two_calls contents) got_db
Run-AnswersAs_example =
    Run-AnswersAs config contents two_calls busy got_db refl two_calls-Run
      ((a-StringFits, a-StringFits), (tt, tt)) (omega arith, omega arith) busy-Represents

get_counter_from_file_name-gen_example :
    get_counter_from_file_name (gen_file_name 12 (b'.' ∷ b's' ∷ []))
    ≡ (if ltb 12 (2 ^ 31) then ok 12 else err out_of_range)
get_counter_from_file_name-gen_example = get_counter_from_file_name-gen 12 (b's' ∷ [])
