-- ===== src/Database/Files.antt =====
-- The names of the files are different, and changes of one file leave the others as they are.
use project_db.Common.{
  ℕ, suc, ◌≤◌, ◌≡◌, sym, ap, ◌∙◌, ◌≢◌, Bool, Option, none, some, List, [], ◌∷◌, arith, All, Bytes,
  false, ◌==◌, Result, ok, err,
}
use project_db.Database.{FlushFuture}
use project_db.Database.Sound.{SameFile, IsThere, Flushed, AllFlushed, LogsFrom}
use project_db.FileSystem.{FileSystem}
use project_db.FileSystem.Counter.{gen_file_name-injective}
use project_db.FileSystem.Laws.{extension-gen, remove_ext-job, job_file_name, log_name}
use project_db.FileSystem.Names.{
  codes, sstable_file_ext, gen_ss_table_file_name, extension, remove_ext,
}
use project_db.MemTableQueue.{FlushJob, QueueEntry}
use project_db.SsTable.{Table}
use project_db.SsTableIndex.{SsTableIndex}
use project_db.SsTableIndexQueue.Lookup.{AllServe}
use mathlib.Core.Path.{subst}

pub AllServe-frame :
    (keep : Bool) (fs fs' : FileSystem) (is : List SsTableIndex) (ts : List Table)
    → All (λ i. SameFile fs fs' i.m_ss_table_file_name) is
    → AllServe keep fs is ts
    → AllServe keep fs' is ts
AllServe-frame keep fs fs' [] [] same s = tt
AllServe-frame keep fs fs' (i ∷ is) (t ∷ ts) (same, rest) ((file, d, e), s) =
    ((file, d, rw same e), AllServe-frame keep fs fs' is ts rest s)
AllServe-frame keep fs fs' [] (t ∷ ts) same s = absurd s
AllServe-frame keep fs fs' (i ∷ is) [] same s = absurd s

Flushed-frame :
    (fs fs' : FileSystem) (job : FlushJob) (result : Option (Result SsTableIndex))
    → SameFile fs fs' job.file_name
    → Flushed fs job result
    → Flushed fs' job result
Flushed-frame fs fs' job none same f = tt
Flushed-frame fs fs' job (some (err thrown)) same f = absurd f
Flushed-frame fs fs' job (some (ok index)) same (file, d, name, closed, there) =
    (file, d, name, closed, same ∙ there)

pub AllFlushed-frame :
    (fs fs' : FileSystem) (futures : List FlushFuture)
    → All (λ f. SameFile fs fs' f.job.file_name) futures
    → AllFlushed fs futures
    → AllFlushed fs' futures
AllFlushed-frame fs fs' [] same f = tt
AllFlushed-frame fs fs' (f ∷ futures) (same, rest) (now, later) =
    (Flushed-frame fs fs' f.job f.result same now, AllFlushed-frame fs fs' futures rest later)

pub LogsFrom-frame :
    (fs fs' : FileSystem) (lo hi : ℕ) (es : List QueueEntry)
    → ((c : ℕ) → lo ≤ c → IsThere fs (log_name c) → IsThere fs' (log_name c))
    → LogsFrom fs lo es hi
    → LogsFrom fs' lo es hi
LogsFrom-frame fs fs' lo hi [] kept l = l
LogsFrom-frame fs fs' lo hi (e ∷ es) kept (c, le, name, there, l) = (
  c,
  le,
  name,
  subst (IsThere fs') (sym name) (kept c le (subst (IsThere fs) name there)),
  LogsFrom-frame fs fs' (suc c) hi es (λ d more. kept d (omega (arith, more, le))) l,
)

-- Extensions.
pub extension-ss_table : (c : ℕ) → extension (gen_ss_table_file_name c) ≡ sstable_file_ext
extension-ss_table c = (extension-gen c).0

-- Names with different extensions are different.
pub names_differ :
    (x y : Bytes) {ext ext' : Bytes} → extension x ≡ ext → extension y ≡ ext' → ext ≢ ext' → x ≢ y
names_differ x y hx hy apart e = apart (sym hx ∙ ap extension e ∙ hy)

pub ss_table-injective : (c d : ℕ) → gen_ss_table_file_name c ≡ gen_ss_table_file_name d → c ≡ d
unfolding gen_ss_table_file_name
ss_table-injective c d h = gen_file_name-injective c d (codes "sst") (codes "sst") h

pub log_name-injective : (c d : ℕ) → log_name c ≡ log_name d → c ≡ d
log_name-injective c d h = gen_file_name-injective c d (codes "txl") (codes "txl") h

pub job-injective : (c d : ℕ) → job_file_name c ≡ job_file_name d → c ≡ d
job-injective c d h =
    ss_table-injective c d (sym (remove_ext-job c) ∙ ap remove_ext h ∙ remove_ext-job d)

-- Extensions are told apart by their first letters.
abbrev second_letter : Bytes → ℕ
second_letter (period ∷ letter ∷ rest) = letter
second_letter _ = 0

pub letters_differ :
    (ext ext' : Bytes) → (second_letter ext == second_letter ext') ≡ false → ext ≢ ext'
letters_differ ext ext' h e =
    let same : second_letter ext ≡ second_letter ext' = ap second_letter e in ground arith

pub ext_differs :
    (x : Bytes) {ext ext' : Bytes} → extension x ≡ ext → ext ≢ ext' → extension x ≢ ext'
ext_differs x h differ e = differ (sym h ∙ e)
