-- ===== src/Database/Restart.antt =====
-- A start on a directory of whole tables.
use project_db.SsTableIndexQueue
use mathlib.Core.List.{Permᴰ}
use project_db.Common.{
  ℕ, ◌≤◌, ◌≡◌, refl, sym, ap, ◌∙◌, Bool, some, List, [], ◌∷◌, ◌++◌, append-nil, append_assoc, All,
  All-append, ok, ◌^◌, ◌<◌, none, arith, All-map, Bytes, ◌-◌,
}
use project_db.Database.Directory.{
  Holds, tables_at, All-Perm, files_with_ext-temporary, Holds-temporary, counter_after,
  up_to_counter, next_counter-generated, HaveNext, HaveNext-AreReadable,
}
use project_db.Database.FlushFiles.{closed_read}
use project_db.Database.Lifetime.{
  load_tables, next_counter, load_logs, remove_temporary_files, init,
}
use project_db.Database.Sound.{NamedUpTo}
use project_db.FileSystem.{FileSystem, file_content}
use project_db.FileSystem.Names.{
  codes, gen_ss_table_file_name, sstable_file_ext, transaction_log_file_ext,
}
use project_db.FileSystem.Sorted.{
  generated, files_with_ext, sort_names, get_files_with_ext_sorted, IsRising, sort_names-generated,
}
use project_db.SsTable.{Table, SsTable}
use project_db.SsTableIndex.{SsTableIndex, new_index}
use project_db.SsTableIndexQueue.{SsTableIndexQueue, new_queue}
use project_db.SsTableIndexQueue.Lookup.{AllServe, AllServe-append}
use project_db.SsTableOps.{load_ss_table}
use project_db.SsTableOps.Flush.{encode_ss_table}
use project_db.SsTableOps.Load.{load_ss_table-Describes}
use mathlib.Core.Path.{subst}
use project_db.Compaction.Layers.{lookup_layers, visible}
use project_db.Config.{DbConfig}
use project_db.Database.{ProjectDb}
use project_db.Database.Files.{letters_differ}
use project_db.Database.Represents.{Represents}
use project_db.MemTableQueue.{Shared}
use project_db.TransactionLog.Loop.{to_key}

-- The queue that is loaded serves the tables, and has their names.
abbrev Loaded : Bool → FileSystem → List Table → ℕ → SsTableIndexQueue → Type 0
Loaded keep fs ts newest q = AllServe keep fs q.m_queue ts × All (NamedUpTo newest) q.m_queue

module _ (keep : Bool) (block_size : ℕ) (fs : FileSystem) (table : ℕ → SsTable) (newest : ℕ) where
  load_one :
      (c : ℕ)
      → c ≤ newest
      → Holds fs table c
      → (q : SsTableIndexQueue) (ts : List Table) → Loaded keep fs ts newest q
      → (index : SsTableIndex) × (load_ss_table block_size
            (gen_ss_table_file_name c)
            (file_content fs (gen_ss_table_file_name c))
            (some new_index)
          ≡ ok (table c, some index))
        × Loaded keep fs (ts ++ (table c).m_table ∷ []) newest (SsTableIndexQueue.insert q index)
  unfolding SsTableIndexQueue.insert
  load_one c le (fits, there) q ts (served, named) =
      let (index, runs, described, name, closed) =
        load_ss_table-Describes block_size (gen_ss_table_file_name c) (table c) fits in
      (
        index,
        rw there runs,
        (
          AllServe-append keep fs q.m_queue (index ∷ []) ts ((table c).m_table ∷ []) served (
            (
              encode_ss_table (table c),
              described,
              closed_read keep (file_content fs index.m_ss_table_file_name) index closed
                  ∙ ap (file_content fs) name
                  ∙ there,
            ),
            tt,
          ),
          All-append (NamedUpTo newest) q.m_queue (index ∷ []) named ((c, le, name), tt),
        ),
      )

  load_tables_next :
      (name : Bytes) (names : List Bytes) (q : SsTableIndexQueue) (ss_table : SsTable)
      (index : SsTableIndex)
      → load_ss_table block_size name (file_content fs name) (some new_index)
        ≡ ok (ss_table, some index)
      → load_tables block_size fs (name ∷ names) q
        ≡ load_tables block_size fs names (SsTableIndexQueue.insert q index)
  unfolding load_tables
  load_tables_next name names q ss_table index runs = rw runs refl

  pub load_tables-Loaded :
      (cs : List ℕ) (q : SsTableIndexQueue) (ts : List Table)
      → All (λ c. c ≤ newest) cs
      → All (Holds fs table) cs
      → Loaded keep fs ts newest q
      → (q' : SsTableIndexQueue) × (load_tables block_size fs (generated (codes "sst") cs) q
          ≡ ok q')
        × Loaded keep fs (ts ++ tables_at table cs) newest q'
  unfolding load_tables gen_ss_table_file_name
  load_tables-Loaded [] q ts le h loaded =
      (q, refl, subst (λ us. Loaded keep fs us newest q) (sym (append-nil ts)) loaded)
  load_tables-Loaded (c ∷ cs) q ts (le, les) (h, hs) loaded =
      let (index, runs, loaded₁) = load_one c le h q ts loaded in
      let (q', runs', loaded') =
        load_tables-Loaded cs (SsTableIndexQueue.insert q index) (ts ++ (table c).m_table ∷ []) les
          hs loaded₁ in
      (
        q',
        load_tables_next (gen_ss_table_file_name c) (generated (codes "sst") cs) q (table c) index
              runs
            ∙ runs',
        subst (λ us. Loaded keep fs us newest q')
            (append_assoc ts ((table c).m_table ∷ []) (tables_at table cs)) loaded',
      )

-- Without a log, the database holds what was loaded.
loaded_db : SsTableIndexQueue → FileSystem → ℕ → Shared → ProjectDb
loaded_db q fs counter shared = record {
  m_mem_table_queue = record { m_queue = [] };
  m_ss_table_index_queue = q;
  m_flush_to_disk_futures = [];
  m_ss_table_compaction_future = none;
  shared = record shared { files = fs; sstable_file_counter_base = counter };
}

loaded_db-Represents :
    {keep : Bool} (q : SsTableIndexQueue) (fs : FileSystem) (counter : ℕ) (shared : Shared)
    (ts : List Table)
    → Loaded keep fs ts counter q
    → Represents keep
        (λ key. visible (lookup_layers (to_key key) ts))
        (loaded_db q fs counter shared)
unfolding loaded_db
loaded_db-Represents q fs counter shared ts (served, named) = (
  ts,
  record {
    served = served;
    newest = counter;
    names = named;
    jobs = omega arith;
    flushed = tt;
    aligned = tt;
    tables_ok = tt;
    oldest_log = 0;
    logs = omega arith;
    idle = refl;
  },
  λ key. ap (λ us. visible (lookup_layers (to_key key) us)) (append-nil ts),
)

init_lem :
    (config : DbConfig) (shared : Shared) (names : List Bytes) (q : SsTableIndexQueue) (counter : ℕ)
    → get_files_with_ext_sorted sstable_file_ext (remove_temporary_files shared.files) ≡ ok names
    → load_tables config.sstable_index_block_size_in_bytes
        (remove_temporary_files shared.files)
        names
        new_queue
      ≡ ok q
    → next_counter names shared.sstable_file_counter_base ≡ ok counter
    → get_files_with_ext_sorted transaction_log_file_ext (remove_temporary_files shared.files)
      ≡ ok []
    → init config shared ≡ ok (loaded_db q (remove_temporary_files shared.files) counter shared)
unfolding init loaded_db load_logs next_counter
init_lem config shared names q counter sorted loaded counted no_logs =
    rw sorted (rw loaded (rw counted (rw no_logs refl)))

sorted_names :
    (ext : Bytes) (fs : FileSystem) (names sorted : List Bytes)
    → files_with_ext ext fs ≡ names
    → sort_names names ≡ ok sorted
    → get_files_with_ext_sorted ext fs ≡ ok sorted
unfolding get_files_with_ext_sorted
sorted_names ext fs names sorted found runs = ap sort_names found ∙ runs

-- A start on a directory that holds whole tables and no log, beside temporary files, succeeds
-- whatever the order of the directory is, and the database then shows every key as the tables do,
-- in the order of their counters, as long as these are below 2^31 - 1.
pub init-Represents :
    (config : DbConfig) (shared : Shared) (table : ℕ → SsTable) (cs : List ℕ)
    → HaveNext cs
    → files_with_ext sstable_file_ext shared.files ≡ generated (codes "sst") cs
    → files_with_ext transaction_log_file_ext shared.files ≡ []
    → All (Holds shared.files table) cs
    → (sorted : List ℕ) × IsRising sorted
      × Permᴰ cs sorted
      × (db : ProjectDb) × (init config shared ≡ ok db)
      × Represents config.keep_sstable_file_open
          (λ key. visible (lookup_layers (to_key key) (tables_at table sorted)))
          db
unfolding sort_names
init-Represents config shared table cs readable tables_found logs_found held =
    let fs = remove_temporary_files shared.files in
    let (sorted, sorts, rising, same) =
      sort_names-generated (codes "sst") cs (HaveNext-AreReadable cs readable) in
    let counter = counter_after shared.sstable_file_counter_base sorted in
    let (q, loads, loaded) =
      load_tables-Loaded config.keep_sstable_file_open config.sstable_index_block_size_in_bytes fs
        table counter sorted new_queue []
        (up_to_counter shared.sstable_file_counter_base sorted rising)
        (All-Perm (Holds fs table) cs sorted same
          (All-map (Holds-temporary shared.files table) cs held))
        (tt, tt) in
    (
      sorted,
      rising,
      same,
      loaded_db q fs counter shared,
      init_lem config shared (generated (codes "sst") sorted) q counter
          (sorted_names sstable_file_ext fs (generated (codes "sst") cs) _
            (files_with_ext-temporary sstable_file_ext shared.files (letters_differ _ _ refl)
                (letters_differ _ _ refl) (letters_differ _ _ refl)
              ∙ tables_found)
            sorts)
          loads
          (next_counter-generated (codes "sst") shared.sstable_file_counter_base sorted
            (All-Perm (λ c. c < 2 ^ 31 - 1) cs sorted same readable))
          (sorted_names transaction_log_file_ext fs [] []
            (files_with_ext-temporary transaction_log_file_ext shared.files
                (letters_differ _ _ refl) (letters_differ _ _ refl) (letters_differ _ _ refl)
              ∙ logs_found)
            refl),
      loaded_db-Represents q fs counter shared (tables_at table sorted) loaded,
    )
