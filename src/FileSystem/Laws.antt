-- ===== src/FileSystem/Laws.antt =====
-- The extensions that the code appends are those that it takes off again.
use project_db.Common.{◌≡◌, refl, ◌≢◌, [], ◌∷◌, ◌++◌, All, Bytes, ℕ, false, arith, ◌==◌, ap}
use project_db.FileSystem.Names.{
  split_ext, add_char, codes, sstable_file_ext, merged_sstable_file_ext, transaction_log_file_ext,
  deprecated_file_ext, gen_deprecated_file_name, gen_ss_table_file_name,
  gen_flush_in_progress_ss_table_file_name, gen_merged_ss_table_file_name,
  gen_transaction_log_file_name, extension, remove_ext, to_string, gen_file_name,
  sstable_file_flush_in_progress_ext,
}

abbrev IsPeriodFree : Bytes → Type 0
IsPeriodFree = All (λ c. c ≢ b'.')

not_period : (c : ℕ) → c ≢ b'.' → (c == b'.') ≡ false
not_period c h = ground arith

split_ext_free : (s : Bytes) → IsPeriodFree s → split_ext s ≡ (s, [])
unfolding split_ext add_char
split_ext_free [] h = refl
split_ext_free (c ∷ s) (h, hs) = rw (split_ext_free s hs, not_period c h)

-- after a stem, the extension
split_ext-append : (s t : Bytes) → IsPeriodFree t → split_ext (s ++ b'.' ∷ t) ≡ (s, b'.' ∷ t)
unfolding split_ext add_char
split_ext-append [] t h = rw (split_ext_free t h)
split_ext-append (c ∷ s) t h = rw (split_ext-append s t h)

extension-append :
    (c : ℕ) (s t : Bytes) → IsPeriodFree t → extension (c ∷ (s ++ b'.' ∷ t)) ≡ b'.' ∷ t
unfolding extension
extension-append c s t h = ap (λ p. p.1) (split_ext-append s t h)

remove_ext-append :
    (c : ℕ) (s t : Bytes) → IsPeriodFree t → remove_ext (c ∷ (s ++ b'.' ∷ t)) ≡ c ∷ s
unfolding remove_ext
remove_ext-append c s t h = rw (split_ext-append s t h)

ip_free : IsPeriodFree (codes "ip")
ip_free = ((λ e. cc), ((λ e. cc), tt))

merged_free : IsPeriodFree (codes "merged")
merged_free = ((λ e. cc), ((λ e. cc), ((λ e. cc), ((λ e. cc), ((λ e. cc), ((λ e. cc), tt))))))

deprecated_free : IsPeriodFree (codes "deprecated")
deprecated_free = (
  (λ e. cc),
  (
    (λ e. cc),
    (
      (λ e. cc),
      ((λ e. cc), ((λ e. cc), ((λ e. cc), ((λ e. cc), ((λ e. cc), ((λ e. cc), ((λ e. cc), tt))))))),
    ),
  ),
)

letters_free : IsPeriodFree (codes "sst") × IsPeriodFree (codes "txl")
letters_free =
    (((λ e. cc), ((λ e. cc), ((λ e. cc), tt))), ((λ e. cc), ((λ e. cc), ((λ e. cc), tt))))

-- The name without its extension.
base_name : ℕ → Bytes
base_name counter = codes "roject_db_" ++ to_string counter

gen_file_name_lem :
    (counter : ℕ) (ext : Bytes) → gen_file_name counter ext ≡ b'p' ∷ (base_name counter ++ ext)
unfolding gen_file_name base_name
gen_file_name_lem counter ext = refl

-- Renaming a finished file takes off what the name of the unfinished file had appended, both for a
-- flush and for a compaction, and leaves any name before it, whatever periods it holds.
pub remove_ext-gen :
    (c : ℕ) (s : Bytes)
    → (remove_ext (gen_flush_in_progress_ss_table_file_name (c ∷ s)) ≡ c ∷ s)
      × (remove_ext (gen_merged_ss_table_file_name (c ∷ s)) ≡ c ∷ s)
unfolding gen_flush_in_progress_ss_table_file_name gen_merged_ss_table_file_name
remove_ext-gen c s =
    (remove_ext-append c s (codes "ip") ip_free, remove_ext-append c s (codes "merged") merged_free)

-- The files that a start loads are told apart by their extensions: tables and logs have the one
-- that their names were made with, a merged or deprecated table has another.
pub extension-gen :
    (counter : ℕ)
    → (extension (gen_ss_table_file_name counter) ≡ sstable_file_ext)
      × (extension (gen_transaction_log_file_name counter).0 ≡ transaction_log_file_ext)
      × (extension (gen_merged_ss_table_file_name (gen_ss_table_file_name counter))
          ≡ merged_sstable_file_ext)
      × (extension (gen_deprecated_file_name (gen_ss_table_file_name counter))
          ≡ deprecated_file_ext)
unfolding gen_ss_table_file_name gen_transaction_log_file_name gen_merged_ss_table_file_name
    base_name gen_deprecated_file_name
extension-gen counter = (
  extension-append b'p' (base_name counter) (codes "sst") letters_free.0,
  extension-append b'p' (base_name counter) (codes "txl") letters_free.1,
  extension-append b'p' (base_name counter ++ codes ".sst") (codes "merged") merged_free,
  extension-append b'p' (base_name counter ++ codes ".sst") (codes "deprecated") deprecated_free,
)

-- The file of a running flush, and a log.
abbrev pub job_file_name : ℕ → Bytes
job_file_name c = gen_flush_in_progress_ss_table_file_name (gen_ss_table_file_name c)

abbrev pub log_name : ℕ → Bytes
log_name c = gen_file_name c transaction_log_file_ext

pub extension-log : (c : ℕ) → extension (log_name c) ≡ transaction_log_file_ext
unfolding gen_file_name base_name
extension-log c = extension-append b'p' (base_name c) (codes "txl") letters_free.1

pub extension-job : (c : ℕ) → extension (job_file_name c) ≡ sstable_file_flush_in_progress_ext
unfolding gen_ss_table_file_name gen_flush_in_progress_ss_table_file_name base_name
extension-job c = extension-append b'p' (base_name c ++ codes ".sst") (codes "ip") ip_free

pub extension-deprecated_log :
    (c : ℕ) → extension (gen_deprecated_file_name (log_name c)) ≡ deprecated_file_ext
unfolding gen_file_name gen_deprecated_file_name base_name
extension-deprecated_log c =
    extension-append b'p' (base_name c ++ codes ".txl") (codes "deprecated") deprecated_free

pub remove_ext-job : (c : ℕ) → remove_ext (job_file_name c) ≡ gen_ss_table_file_name c
unfolding gen_ss_table_file_name gen_flush_in_progress_ss_table_file_name base_name
remove_ext-job c = remove_ext-append b'p' (base_name c ++ codes ".sst") (codes "ip") ip_free

-- The file of a merged table.
abbrev pub merged_name : ℕ → Bytes
merged_name c = gen_merged_ss_table_file_name (gen_ss_table_file_name c)

pub remove_ext-merged_name : (c : ℕ) → remove_ext (merged_name c) ≡ gen_ss_table_file_name c
unfolding gen_ss_table_file_name gen_merged_ss_table_file_name base_name
remove_ext-merged_name c =
    remove_ext-append b'p' (base_name c ++ codes ".sst") (codes "merged") merged_free
