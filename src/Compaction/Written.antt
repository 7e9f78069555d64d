-- ===== src/Compaction/Written.antt =====
-- What the rounds of a compaction read and write.
use project_db.Common.{
  ℕ, ◌+◌, ◌≤◌, ◌<◌, ◌≡◌, refl, sym, ap, ◌∙◌, ◌≢◌, none, some, List, [], ◌∷◌, arith, length, All,
  All-map, Bytes, ok,
}
use project_db.Compaction.{SourceTable, MergedTable}
use project_db.Compaction.Disk.{load_source, flush_merged}
use project_db.Database.Files.{
  extension-ss_table, names_differ, ss_table-injective, letters_differ, ext_differs,
}
use project_db.Database.Sound.{SameFile}
use project_db.FileSystem.{FileSystem, file_content}
use project_db.FileSystem.Laws.{extension-gen, merged_name, remove_ext-merged_name}
use project_db.FileSystem.Names.{
  merged_sstable_file_ext, deprecated_file_ext, gen_ss_table_file_name,
  gen_merged_ss_table_file_name, extension, remove_ext,
}
use project_db.SsTable.{SsTable}
use project_db.SsTable.Stored.{TableFits}
use project_db.SsTableIndex.{SsTableIndex}
use project_db.SsTableIndex.Seek.{Describes}
use project_db.SsTableOps.Disk.{flush_ss_table-Describes}
use project_db.SsTableOps.Flush.{encode_ss_table}
use project_db.SsTableOps.Load.{SsTableFits, load_ss_table-encode}

-- A table in the file of a counter, and what the rounds take of it.
abbrev pub source_of : ℕ × SsTable → SourceTable
source_of (c, t) = record {
  file_size = length (encode_ss_table t);
  name = gen_ss_table_file_name c;
  content = t;
}

abbrev pub sources_of : List (ℕ × SsTable) → List SourceTable
sources_of [] = []
sources_of (s ∷ ss) = source_of s ∷ sources_of ss

abbrev pub names_of : List (ℕ × SsTable) → List Bytes
names_of [] = []
names_of ((c, t) ∷ ss) = gen_ss_table_file_name c ∷ names_of ss

abbrev pub HoldsSource : FileSystem → ℕ × SsTable → Type 0
HoldsSource fs (c, t) =
    SsTableFits t × (file_content fs (gen_ss_table_file_name c) ≡ some (encode_ss_table t))

-- All entries of the sources.
abbrev pub total_length : List (ℕ × SsTable) → ℕ
total_length [] = 0
total_length ((c, t) ∷ ss) = length t.m_table + total_length ss

-- The counters rise from above `lo`.
abbrev pub RiseFrom : ℕ → List (ℕ × SsTable) → Type 0
RiseFrom lo [] = Unit {0}
RiseFrom lo ((c, t) ∷ ss) = (lo < c) × RiseFrom c ss

-- The merged table is in its file, and its index describes it.
abbrev pub WrittenAs : FileSystem → MergedTable → SsTableIndex → Type 0
WrittenAs fs m index =
    Describes index (encode_ss_table m.content) m.content.m_table
    × (index.m_ss_table_file_name ≡ gen_merged_ss_table_file_name m.base_name)
    × (index.m_ifs ≡ none)
    × (file_content fs (gen_merged_ss_table_file_name m.base_name)
        ≡ some (encode_ss_table m.content))

abbrev pub Written : FileSystem → List MergedTable → List SsTableIndex → Type 0
Written fs [] [] = Unit {0}
Written fs (m ∷ ms) (i ∷ is) = WrittenAs fs m i × Written fs ms is
Written fs _ _ = ⊥

-- Files that are neither deprecated nor a merged table of one of the counters are as they were.
abbrev pub Untouched : ℕ → List (ℕ × SsTable) → FileSystem → FileSystem → Type 0
Untouched c ss fs fs' =
    (name : Bytes)
    → name ≢ merged_name c
    → All (λ s. name ≢ merged_name s.0) ss
    → extension name ≢ deprecated_file_ext
    → SameFile fs fs' name

extension-merged_name : (c : ℕ) → extension (merged_name c) ≡ merged_sstable_file_ext
extension-merged_name c = (extension-gen c).2

merged_name-injective : (c d : ℕ) → merged_name c ≡ merged_name d → c ≡ d
merged_name-injective c d h =
    ss_table-injective c d
      (sym (remove_ext-merged_name c) ∙ ap remove_ext h ∙ remove_ext-merged_name d)

source_name-ne : (c d : ℕ) → gen_ss_table_file_name c ≢ merged_name d
source_name-ne c d =
    names_differ _ _ (extension-ss_table c) (extension-merged_name d) (letters_differ _ _ refl)

source_names-ne :
    (c : ℕ) (ss : List (ℕ × SsTable)) → All (λ s. gen_ss_table_file_name c ≢ merged_name s.0) ss
source_names-ne c [] = tt
source_names-ne c ((d, t) ∷ ss) = (source_name-ne c d, source_names-ne c ss)

-- A source stays as it is.
pub HoldsSource-Untouched :
    (c : ℕ) (ss rest : List (ℕ × SsTable)) (fs fs' : FileSystem)
    → Untouched c ss fs fs'
    → All (HoldsSource fs) rest
    → All (HoldsSource fs') rest
HoldsSource-Untouched c ss rest fs fs' frame h =
    All-map
      (λ s (fits, there). (
        fits,
        frame (gen_ss_table_file_name s.0) (source_name-ne s.0 c) (source_names-ne s.0 ss)
              (ext_differs _ (extension-ss_table s.0) (letters_differ _ _ refl))
            ∙ there,
      ))
      rest h

above-ne : (c d : ℕ) → c < d → merged_name c ≢ merged_name d
above-ne c d lt e = let same = merged_name-injective c d e in omega (arith, same, lt)

later_names-ne :
    (c lo : ℕ) (ss : List (ℕ × SsTable))
    → c ≤ lo
    → RiseFrom lo ss
    → All (λ s. merged_name c ≢ merged_name s.0) ss
later_names-ne c lo [] le r = tt
later_names-ne c lo ((d, t) ∷ ss) le (lt, r) =
    (above-ne c d (omega (arith, le, lt)), later_names-ne c d ss (omega (arith, le, lt)) r)

-- So does a merged table, when those of later counters are written.
pub WrittenAs-Untouched :
    (c d : ℕ) (ss : List (ℕ × SsTable)) (t : SsTable) (index : SsTableIndex) (fs fs' : FileSystem)
    → c < d
    → RiseFrom d ss
    → Untouched d ss fs fs'
    → WrittenAs fs (record { base_name = gen_ss_table_file_name c; content = t }) index
    → WrittenAs fs' (record { base_name = gen_ss_table_file_name c; content = t }) index
WrittenAs-Untouched c d ss t index fs fs' lt rise frame (described, name, closed, there) = (
  described,
  name,
  closed,
  frame (merged_name c) (above-ne c d lt) (later_names-ne c d ss (omega (arith, lt)) rise)
        (ext_differs _ (extension-merged_name c) (letters_differ _ _ refl))
      ∙ there,
)

pub load_source-HoldsSource :
    (block_size : ℕ) (fs : FileSystem) (c : ℕ) (t : SsTable)
    → HoldsSource fs (c, t)
    → load_source block_size fs (gen_ss_table_file_name c) ≡ ok (t, length (encode_ss_table t))
unfolding load_source
load_source-HoldsSource block_size fs c t (fits, there) =
    rw there (rw (load_ss_table-encode block_size (gen_ss_table_file_name c) t fits) refl)

pub flush_merged-WrittenAs :
    (block_size : ℕ) (c : ℕ) (t : SsTable) (fs : FileSystem)
    → TableFits t.m_table
    → (index : SsTableIndex) × (fs' : FileSystem) × (flush_merged block_size t
          (gen_ss_table_file_name c)
          fs
        ≡ ok (index, fs'))
      × WrittenAs fs' (record { base_name = gen_ss_table_file_name c; content = t }) index
      × Untouched c [] fs fs'
unfolding flush_merged
flush_merged-WrittenAs block_size c t fs fits =
    let (index, fs', runs, described, name, closed, there, frame) =
      flush_ss_table-Describes block_size t (merged_name c) fs fits in
    (
      index,
      fs',
      runs,
      (described, name, closed, there),
      λ other_name ne _ live. frame other_name ne live,
    )
