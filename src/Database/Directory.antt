-- ===== src/Database/Directory.antt =====
-- What a start finds in the directory.
use mathlib.Core.List.{Permᴰ}
use project_db.Common.{
  ℕ, ◌+◌, ◌^◌, ◌≤◌, ◌<◌, ◌≡◌, refl, ◌∙◌, ◌≢◌, true, some, List, [], ◌∷◌, arith, All, All-map, Bytes,
  ok, ltb, lt→ltb, ◌-◌,
}
use project_db.Database.Files.{extension-ss_table, letters_differ, ext_differs}
use project_db.Database.Lifetime.{last_name, next_counter, remove_temporary_files}
use project_db.FileSystem.{FileSystem, file_content, remove_files_with_ext}
use project_db.FileSystem.Counter.{get_counter_from_file_name-gen}
use project_db.FileSystem.Frame.{file_content-remove_files_with_ext}
use project_db.FileSystem.Names.{
  sstable_file_ext, sstable_file_flush_in_progress_ext, merged_sstable_file_ext,
  deprecated_file_ext, gen_file_name, gen_ss_table_file_name, extension,
}
use project_db.FileSystem.Sorted.{files_with_ext, generated, AreReadable, IsRising}
use project_db.Key.{string_eq_iff}
use project_db.SsTable.{Table, SsTable}
use project_db.SsTableOps.Flush.{encode_ss_table}
use project_db.SsTableOps.Load.{SsTableFits}
use mathlib.Core.Path.{subst}

-- The file of the counter holds the table.
abbrev pub Holds : FileSystem → (ℕ → SsTable) → ℕ → Type 0
Holds fs table c =
    SsTableFits (table c)
    × (file_content fs (gen_ss_table_file_name c) ≡ some (encode_ss_table (table c)))

abbrev pub tables_at : (ℕ → SsTable) → List ℕ → List Table
tables_at table [] = []
tables_at table (c ∷ cs) = (table c).m_table ∷ tables_at table cs

pub All-Perm : (P : ℕ → Type 0) (xs ys : List ℕ) → Permᴰ xs ys → All P xs → All P ys
All-Perm P _ _ Permᴰ.nil h = tt
All-Perm P _ _ (Permᴰ.cons e d) (h, hs) = (subst P e h, All-Perm P _ _ d hs)
All-Perm P _ _ (Permᴰ.swap e f) (h, (h', hs)) = (subst P f h', (subst P e h, hs))
All-Perm P _ _ (Permᴰ.trans d e) h = All-Perm P _ _ e (All-Perm P _ _ d h)

-- The temporary files are gone, and nothing else.
files_with_ext-remove :
    (ext gone : Bytes) (fs : FileSystem)
    → gone ≢ ext
    → files_with_ext ext (remove_files_with_ext gone fs) ≡ files_with_ext ext fs
unfolding files_with_ext remove_files_with_ext
files_with_ext-remove ext gone [] h = refl
files_with_ext-remove ext gone ((n, c) ∷ fs) h = ground (
  arith,
  string_eq_iff (extension n) ext,
  string_eq_iff (extension n) gone,
  files_with_ext-remove ext gone fs h,
)

pub files_with_ext-temporary :
    (ext : Bytes) (fs : FileSystem)
    → deprecated_file_ext ≢ ext
    → sstable_file_flush_in_progress_ext ≢ ext
    → merged_sstable_file_ext ≢ ext
    → files_with_ext ext (remove_temporary_files fs) ≡ files_with_ext ext fs
unfolding remove_temporary_files
files_with_ext-temporary ext fs a b c =
    files_with_ext-remove ext merged_sstable_file_ext _ c
    ∙ files_with_ext-remove ext sstable_file_flush_in_progress_ext _ b
    ∙ files_with_ext-remove ext deprecated_file_ext fs a

pub Holds-temporary :
    (fs : FileSystem) (table : ℕ → SsTable) (c : ℕ)
    → Holds fs table c
    → Holds (remove_temporary_files fs) table c
unfolding remove_temporary_files
Holds-temporary fs table c (fits, there) =
    let name = gen_ss_table_file_name c in
    let other_ext =
      λ (ext : Bytes) (h : sstable_file_ext ≢ ext). ext_differs name (extension-ss_table c) h in
    (
      fits,
      file_content-remove_files_with_ext merged_sstable_file_ext name _
            (other_ext _ (letters_differ _ _ refl))
          ∙ file_content-remove_files_with_ext sstable_file_flush_in_progress_ext name _
              (other_ext _ (letters_differ _ _ refl))
          ∙ file_content-remove_files_with_ext deprecated_file_ext name fs
              (other_ext _ (letters_differ _ _ refl))
          ∙ there,
    )

-- The last counter.
abbrev last_counter : ℕ → List ℕ → ℕ
last_counter c [] = c
last_counter c (d ∷ ds) = last_counter d ds

abbrev pub counter_after : ℕ → List ℕ → ℕ
counter_after base [] = base
counter_after base (c ∷ cs) = 1 + last_counter c cs

last_counter-lem : (c : ℕ) (cs : List ℕ) → All (λ d. c ≤ d) cs → IsRising cs → c ≤ last_counter c cs
last_counter-lem c [] h r = omega arith
last_counter-lem c (d ∷ ds) (le, h) (above, r) =
    let step = last_counter-lem d ds above r in omega (arith, le, step)

up_to_last : (c : ℕ) (cs : List ℕ) → IsRising (c ∷ cs) → All (λ d. d ≤ last_counter c cs) (c ∷ cs)
up_to_last c [] r = (omega arith, tt)
up_to_last c (d ∷ ds) (above, r) = (last_counter-lem c (d ∷ ds) above r, up_to_last d ds r)

pub up_to_counter : (base : ℕ) (cs : List ℕ) → IsRising cs → All (λ d. d ≤ counter_after base cs) cs
up_to_counter base [] r = tt
up_to_counter base (c ∷ cs) r =
    All-map (λ d (le : d ≤ last_counter c cs). omega (arith, le)) (c ∷ cs) (up_to_last c cs r)

last_name-generated :
    (ext : Bytes) (c : ℕ) (cs : List ℕ)
    → last_name (gen_file_name c (b'.' ∷ ext)) (generated ext cs)
      ≡ gen_file_name (last_counter c cs) (b'.' ∷ ext)
last_name-generated ext c [] = refl
last_name-generated ext c (d ∷ ds) = last_name-generated ext d ds

-- The counters that have a successor in `int`.
abbrev pub HaveNext : List ℕ → Type 0
HaveNext = All (λ c. c < 2 ^ 31 - 1)

pub HaveNext-AreReadable : (cs : List ℕ) → HaveNext cs → AreReadable cs
HaveNext-AreReadable = All-map (λ c (h : c < 2 ^ 31 - 1). omega (arith, h))

last_counter-HaveNext : (c : ℕ) (cs : List ℕ) → HaveNext (c ∷ cs) → last_counter c cs < 2 ^ 31 - 1
last_counter-HaveNext c [] (h, hs) = h
last_counter-HaveNext c (d ∷ ds) (h, hs) = last_counter-HaveNext d ds hs

pub next_counter-generated :
    (ext : Bytes) (base : ℕ) (cs : List ℕ)
    → HaveNext cs
    → next_counter (generated ext cs) base ≡ ok (counter_after base cs)
unfolding next_counter
next_counter-generated ext base [] h = refl
next_counter-generated ext base (c ∷ cs) h =
    let below = last_counter-HaveNext c cs h in
    let small : ltb (last_counter c cs) (2 ^ 31) ≡ true =
      lt→ltb (last_counter c cs) (2 ^ 31) (omega (arith, below)) in
    rw (last_name-generated ext c cs, get_counter_from_file_name-gen (last_counter c cs) ext, small)
      (rw (lt→ltb (last_counter c cs) (2 ^ 31 - 1) below) refl)
