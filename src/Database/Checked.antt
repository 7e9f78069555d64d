-- ===== src/Database/Checked.antt =====
-- The checks of the background jobs, as long as compaction is disabled.
use project_db.Common.{
  ◌≡◌, refl, sym, ap, ◌∙◌, inl, inr, Bool, none, some, List, [], ◌∷◌, ok, ◌++◌, ◌>>=◌,
  if◌then◌else◌, ◌⊎◌, Option, Result, err,
}
use project_db.Config.{DbConfig}
use project_db.Database.{
  FlushFuture, ProjectDb, finish_flushes, launch_compaction, check_futures,
  check_flush_to_disk_futures, check_future,
}
use project_db.Database.FlushTaken.{finish_flush-IsSound}
use project_db.Database.Represents.{Contents, Represents, IsUncompacted}
use project_db.SsTableIndexQueue.{try_launch_compaction}
use project_db.Database.Sound.{Flushed, AllFlushed}
use project_db.FileSystem.{FileSystem}
use project_db.MemTableQueue.{FlushJob}
use project_db.SsTableIndex.{SsTableIndex}
use mathlib.Core.Path.{subst}

-- The futures from the first on that is not ready.
unfoldable pub unfinished : List FlushFuture → List FlushFuture
unfinished [] = []
unfinished (f ∷ futures) = elim f.result [ none ↦ f ∷ futures | some outcome ↦ unfinished futures ]

-- The database still represents the map, and the results that were ready are taken.
abbrev pub CheckedFrom : Bool → Contents → ProjectDb → ProjectDb → Type 0
CheckedFrom keep contents db db' =
    Represents keep contents db'
    × (db'.m_flush_to_disk_futures ≡ unfinished db.m_flush_to_disk_futures)
    × (db'.shared.sstable_file_counter_base ≡ db.shared.sstable_file_counter_base)
    × (db'.shared.transaction_log_file_counter_base ≡ db.shared.transaction_log_file_counter_base)

-- A flush of a sound database is still running, or has its index.
pub outcome-cases :
    (fs : FileSystem) (f : FlushFuture)
    → Flushed fs f.job f.result
    → (f.result ≡ none) ⊎ ((index : SsTableIndex) × (f.result ≡ some (ok index)))
outcome-cases fs f h = by_result f.job f.result h
  where
    by_result :
        (job : FlushJob) (result : Option (Result SsTableIndex))
        → Flushed fs job result
        → (result ≡ none) ⊎ ((index : SsTableIndex) × (result ≡ some (ok index)))
    by_result job none h = inl refl
    by_result job (some (ok index)) h = inr (index, refl)
    by_result job (some (err thrown)) h = absurd h

module _ {keep : Bool} (contents : Contents) where
  finish_flushes_lem :
      (futures : List FlushFuture) (db : ProjectDb)
      → db.m_flush_to_disk_futures ≡ futures
      → Represents keep contents db
      → (db' : ProjectDb) × (finish_flushes futures db ≡ ok db') × CheckedFrom keep contents db db'
  unfolding finish_flushes unfinished
  finish_flushes_lem [] db running r =
      (db, refl, (r, running ∙ sym (ap unfinished running), refl, refl))
  finish_flushes_lem (f ∷ futures) db running (ts, sound, shows) =
      elim (outcome-cases db.shared.files f
        (subst (AllFlushed db.shared.files) running sound.flushed).0) [
          | inl n ↦ (
            db,
            rw n refl,
            (
              (ts, sound, shows),
              running
                  ∙ sym (
                      ap unfinished running ∙ rw n (ap (λ o. record f { result = o } ∷ futures) n)),
              refl,
              refl,
            ),
          )
          | inr (index, done) ↦
              let (db₁, runs₁, (sound₁, same, futures₁, base₁, logs₁)) =
                finish_flush-IsSound db ts f.job index futures sound
                  (running ∙ ap (λ o. record f { result = o } ∷ futures) done) in
              let (db₂, runs₂, (r₂, futures₂, base₂, logs₂)) =
                finish_flushes_lem futures db₁ futures₁
                  (ts ++ f.job.table ∷ [], sound₁, λ key. same key ∙ shows key) in
              (
                db₂,
                rw done (rw runs₁ runs₂),
                (
                  r₂,
                  futures₂ ∙ ap unfinished futures₁ ∙ sym (ap unfinished running ∙ rw done refl),
                  base₂ ∙ base₁,
                  logs₂ ∙ logs₁,
                ),
              )
        ]

not_launched :
    (config : DbConfig) (db : ProjectDb)
    → IsUncompacted config
    → launch_compaction config.num_sstable_to_compact db ≡ db
unfolding launch_compaction try_launch_compaction
not_launched config db off = rw off

check_futures_lem :
    (config : DbConfig) (db db' : ProjectDb)
    → db.m_ss_table_compaction_future ≡ none
    → finish_flushes db.m_flush_to_disk_futures db ≡ ok db'
    → launch_compaction config.num_sstable_to_compact db' ≡ db'
    → check_futures config db ≡ ok db'
unfolding check_futures
check_futures_lem config db db' idle runs stays =
    ap
      (λ o. do
        (has_compaction_running, db₁) ← check_future config o db
        if has_compaction_running then ok db₁ else check_flush_to_disk_futures config db₁)
      idle
    ∙ rw (runs) (ap ok stays)

module _ {keep : Bool} (config : DbConfig) (off : IsUncompacted config) (contents : Contents)
    (db : ProjectDb) where
  pub check_futures-Represents :
      Represents keep contents db
      → (db' : ProjectDb) × (check_futures config db ≡ ok db') × CheckedFrom keep contents db db'
  unfolding check_futures
  check_futures-Represents r =
      let (db', runs, checked) = finish_flushes_lem contents db.m_flush_to_disk_futures db refl r in
      (db', check_futures_lem config db db' r.1.idle runs (not_launched config db' off), checked)
