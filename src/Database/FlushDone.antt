-- ===== src/Database/FlushDone.antt =====
-- A background flush runs to its end.
use project_db.Common.{
  ℕ, ◌<◌, ◌≡◌, sym, ◌∙◌, ◌≢◌, none, some, List, [], ◌∷◌, ◌++◌, arith, All, All-map,
  All-append_right, ok,
}
use project_db.Database.{FlushFuture}
use project_db.Database.Files.{job-injective}
use project_db.Database.Sound.{Aligned, TableOk, EntryOk, JobsFrom}
use project_db.FileSystem.Laws.{job_file_name}
use project_db.MemTableQueue.{FlushJob, QueueEntry}
use project_db.SsTableIndex.{SsTableIndex}
use mathlib.Core.Path.{subst}

-- The future with its result.
abbrev pub ready : FlushJob → SsTableIndex → FlushFuture
ready job index = record { job = job; result = some (ok index) }

abbrev pub pending : FlushJob → FlushFuture
pending job = record { job = job; result = none }

pub JobsFrom-above :
    (lo hi : ℕ) (futures : List FlushFuture)
    → JobsFrom lo futures hi
    → All (λ f. (c : ℕ) × (lo < c) × (f.job.file_name ≡ job_file_name c)) futures
JobsFrom-above lo hi [] h = tt
JobsFrom-above lo hi (f ∷ futures) (c, more, name, h) = (
  (c, more, name),
  All-map (λ g (d, above, name_g). (d, omega (arith, above, more), name_g)) futures
      (JobsFrom-above c hi futures h),
)

apart :
    (f g : FlushFuture) (c d : ℕ)
    → f.job.file_name ≡ job_file_name c
    → g.job.file_name ≡ job_file_name d
    → c < d
    → (f.job.file_name ≢ g.job.file_name) × (g.job.file_name ≢ f.job.file_name)
apart f g c d hf hg lt =
    let distinct : c ≢ d = λ e. omega (arith, e, lt) in
    (
      (λ e. distinct (job-injective c d (sym hf ∙ e ∙ hg))),
      (λ e. distinct (job-injective c d (sym hf ∙ sym e ∙ hg))),
    )

-- No other job has the file of this one.
pub JobsFrom-distinct :
    (lo hi : ℕ) (before after : List FlushFuture) (f : FlushFuture)
    → JobsFrom lo (before ++ f ∷ after) hi
    → All (λ g. g.job.file_name ≢ f.job.file_name) before
      × All (λ g. g.job.file_name ≢ f.job.file_name) after
JobsFrom-distinct lo hi [] after f (c, more, name, h) = (
  tt,
  All-map (λ g (d, above, name_g). (apart f g c d name name_g above).1) after
      (JobsFrom-above c hi after h),
)
JobsFrom-distinct lo hi (g ∷ before) after f (c, more, name, h) =
    let (d, above, name_f) =
      (All-append_right _ before (f ∷ after) (JobsFrom-above c hi (before ++ f ∷ after) h)).0 in
    let (left, right) = JobsFrom-distinct c hi before after f h in
    (((apart g f c d name name_f above).0, left), right)

-- A result does not change the jobs.
pub JobsFrom-ready :
    (lo hi : ℕ) (before after : List FlushFuture) (job : FlushJob) (index : SsTableIndex)
    → JobsFrom lo (before ++ pending job ∷ after) hi
    → JobsFrom lo (before ++ ready job index ∷ after) hi
JobsFrom-ready lo hi [] after job index h = h
JobsFrom-ready lo hi (g ∷ before) after job index (c, more, name, h) =
    (c, more, name, JobsFrom-ready c hi before after job index h)

pub Aligned-ready :
    (before after : List FlushFuture) (job : FlushJob) (index : SsTableIndex) (es : List QueueEntry)
    → Aligned (before ++ pending job ∷ after) es
    → Aligned (before ++ ready job index ∷ after) es
Aligned-ready [] after job index [] a = absurd a
Aligned-ready [] after job index (e ∷ []) a = absurd a
Aligned-ready [] after job index (e ∷ e' ∷ es) a = a
Aligned-ready (g ∷ before) after job index [] a = absurd a
Aligned-ready (g ∷ before) after job index (e ∷ []) a = absurd a
Aligned-ready (g ∷ before) after job index (e ∷ e' ∷ es) (same, a) =
    (same, Aligned-ready before after job index (e' ∷ es) a)

-- The table of a job is that of a table in memory, so it can be stored.
pub Aligned-TableOk :
    (before after : List FlushFuture) (f : FlushFuture) (es : List QueueEntry)
    → Aligned (before ++ f ∷ after) es
    → All EntryOk es
    → TableOk f.job.table
Aligned-TableOk [] after f [] a o = absurd a
Aligned-TableOk [] after f (e ∷ []) a o = absurd a
Aligned-TableOk [] after f (e ∷ e' ∷ es) (same, a) o = subst TableOk (sym same) o.0
Aligned-TableOk (g ∷ before) after f [] a o = absurd a
Aligned-TableOk (g ∷ before) after f (e ∷ []) a o = absurd a
Aligned-TableOk (g ∷ before) after f (e ∷ e' ∷ es) (same, a) o =
    Aligned-TableOk before after f (e' ∷ es) a o.1
