-- ===== src/Database/MemoryGrows.antt =====
-- What an update of the tables in memory keeps.
use project_db.Common.{ℕ, suc, ◌≡◌, refl, List, [], ◌∷◌, ◌++◌, arith, All}
use project_db.Database.{FlushFuture}
use project_db.Database.FlushDone.{pending}
use project_db.Database.Sound.{IsThere, Aligned, TableOk, EntryOk, JobsFrom, LogsFrom}
use project_db.FileSystem.{FileSystem}
use project_db.FileSystem.Laws.{job_file_name, log_name}
use project_db.MemTable.{MemTable}
use project_db.MemTableQueue.{FlushJob, QueueEntry, Shared, back, change_back}

-- The tables in memory, their logs and the futures of their flushes.
abbrev pub MemoryOk : List FlushFuture → List QueueEntry → ℕ → Shared → Type 0
MemoryOk futures es lo shared =
    Aligned futures es
    × All EntryOk es
    × LogsFrom shared.files lo es shared.transaction_log_file_counter_base

pub LogsFrom-next :
    (fs : FileSystem) (lo hi : ℕ) (es : List QueueEntry) (m : MemTable)
    → IsThere fs (log_name hi)
    → LogsFrom fs lo es hi
    → LogsFrom fs lo (es ++ record { mem_table = m; log_file_name = log_name hi } ∷ []) (suc hi)
LogsFrom-next fs lo hi [] m there l = (hi, l, refl, there, omega arith)
LogsFrom-next fs lo hi (e ∷ es) m there (c, le, name, e_there, l) =
    (c, le, name, e_there, LogsFrom-next fs (suc c) hi es m there l)

pub back-log :
    (fs : FileSystem) (lo hi : ℕ) (e : QueueEntry) (es : List QueueEntry)
    → LogsFrom fs lo (e ∷ es) hi
    → (c : ℕ) × ((back (e ∷ es)).log_file_name ≡ log_name c)
unfolding back
back-log fs lo hi e [] (c, le, name, there, l) = (c, name)
back-log fs lo hi e (e' ∷ es) (c, le, name, there, l) = back-log fs (suc c) hi e' es l

pub LogsFrom-change_back :
    (fs : FileSystem) (f : MemTable → MemTable) (lo hi : ℕ) (es : List QueueEntry)
    → LogsFrom fs lo es hi
    → LogsFrom fs lo (change_back f es) hi
unfolding change_back
LogsFrom-change_back fs f lo hi [] l = l
LogsFrom-change_back fs f lo hi (e ∷ []) l = l
LogsFrom-change_back fs f lo hi (e ∷ e' ∷ es) (c, le, name, there, l) =
    (c, le, name, there, LogsFrom-change_back fs f (suc c) hi (e' ∷ es) l)

pub Aligned-change_back :
    (f : MemTable → MemTable) (futures : List FlushFuture) (es : List QueueEntry)
    → Aligned futures es
    → Aligned futures (change_back f es)
unfolding change_back
Aligned-change_back f [] [] a = tt
Aligned-change_back f [] (e ∷ []) a = tt
Aligned-change_back f [] (e ∷ e' ∷ es) a = absurd a
Aligned-change_back f (g ∷ futures) [] a = absurd a
Aligned-change_back f (g ∷ futures) (e ∷ []) a = absurd a
Aligned-change_back f (g ∷ futures) (e ∷ e' ∷ []) (same, a) =
    (same, Aligned-change_back f futures (e' ∷ []) a)
Aligned-change_back f (g ∷ futures) (e ∷ e' ∷ e'' ∷ es) (same, a) =
    (same, Aligned-change_back f futures (e' ∷ e'' ∷ es) a)

pub EntryOk-change_back :
    (f : MemTable → MemTable)
    → ((m : MemTable) → TableOk m.m_table → TableOk (f m).m_table)
    → (es : List QueueEntry) → All EntryOk es
    → All EntryOk (change_back f es)
unfolding change_back
EntryOk-change_back f keeps [] h = tt
EntryOk-change_back f keeps (e ∷ []) (h, hs) = (keeps e.mem_table h, tt)
EntryOk-change_back f keeps (e ∷ e' ∷ es) (h, hs) = (h, EntryOk-change_back f keeps (e' ∷ es) hs)

-- A flush of the last table before a new one.
pub Aligned-next :
    (futures : List FlushFuture) (e : QueueEntry) (es : List QueueEntry) (job : FlushJob)
    (next : QueueEntry)
    → job.table ≡ (back (e ∷ es)).mem_table.m_table
    → Aligned futures (e ∷ es)
    → Aligned (futures ++ pending job ∷ []) ((e ∷ es) ++ next ∷ [])
unfolding back
Aligned-next [] e [] job next same a = (same, tt)
Aligned-next [] e (e' ∷ es) job next same a = absurd a
Aligned-next (g ∷ futures) e [] job next same a = absurd a
Aligned-next (g ∷ futures) e (e' ∷ es) job next same (h, a) =
    (h, Aligned-next futures e' es job next same a)

pub JobsFrom-next :
    (lo hi : ℕ) (futures : List FlushFuture) (job : FlushJob)
    → job.file_name ≡ job_file_name (suc hi)
    → JobsFrom lo futures hi
    → JobsFrom lo (futures ++ pending job ∷ []) (suc hi)
JobsFrom-next lo hi [] job name h = (suc hi, omega (arith, h), name, omega arith)
JobsFrom-next lo hi (f ∷ futures) job name (c, lt, f_name, h) =
    (c, lt, f_name, JobsFrom-next c hi futures job name h)
