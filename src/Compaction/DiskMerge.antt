-- ===== src/Compaction/DiskMerge.antt =====
-- On whole tables, the compaction of the files writes what the compaction of the tables gives.
use project_db.Common.{
  ℕ, ◌+◌, ◌^◌, ◌<◌, refl, ◌∙◌, inl, inr, some, List, [], ◌∷◌, arith, length, All, ltb, Bool-cases,
  ◌≡◌, ok, All-map,
}
use project_db.Compaction.{merge_rounds, MergedTable, merge_ss_tables}
use project_db.Compaction.Disk.{merge_files_loop, merge_files}
use project_db.Compaction.DiskRounds.{
  RoundsLeave, group_of, files_on, files_end, files_begin, rounds_close_two, rounds_close,
}
use project_db.Compaction.Written.{
  source_of, sources_of, names_of, HoldsSource, total_length, RiseFrom, HoldsSource-Untouched,
  load_source-HoldsSource, flush_merged-WrittenAs, Written, Untouched,
}
use project_db.FileSystem.{FileSystem, remove_files_with_ext}
use project_db.FileSystem.Names.{gen_ss_table_file_name, deprecated_file_ext}
use project_db.Serializer.Containers.{size_of_size_t}
use project_db.SsTable.{SsTable, merge_ss_table}
use project_db.SsTable.Merge.Size.{
  StorableUpTo, merge_ss_table-StorableUpTo, StorableUpTo-TableFits,
}
use project_db.SsTableOps.Flush.{encode_ss_table}
use project_db.SsTableIndex.{SsTableIndex}
use project_db.Database.Files.{extension-ss_table, letters_differ, ext_differs}
use project_db.FileSystem.Frame.{file_content-remove_files_with_ext}
use project_db.Compaction.DiskGroups.{grow-RoundsLeave, close-RoundsLeave, single-RoundsLeave}

module _ (block_size max_size : ℕ) where
  loop-Written :
      (c : ℕ) (curr : SsTable) (size n : ℕ) (next : ℕ × SsTable) (rest : List (ℕ × SsTable))
      (fs : FileSystem)
      → StorableUpTo n curr
      → n + total_length (next ∷ rest) < 256 ^ size_of_size_t
      → RiseFrom c (next ∷ rest)
      → All (HoldsSource fs) (next ∷ rest)
      → RoundsLeave c
          (next ∷ rest)
          fs
          (merge_rounds max_size
            (gen_ss_table_file_name c)
            curr
            size
            (source_of next)
            (sources_of rest))
          (merge_files_loop block_size max_size
            (some (group_of c curr size))
            (names_of (next ∷ rest))
            fs)
  unfolding merge_rounds
  loop-Written c curr size n (d, t) [] fs stored small (lt, _) ((fits, there), _) =
      let merged = merge_ss_table curr t in
      let merged_stored =
        merge_ss_table-StorableUpTo n (length t.m_table) curr t stored
          (omega arith, fits.1.1, fits.1.2) in
      let (index, fs', runs, written, frame) = flush_merged-WrittenAs block_size c merged fs (
        StorableUpTo-TableFits (n + length t.m_table) merged (omega (arith, small))
          merged_stored) in
      (
        index ∷ [],
        fs',
        files_on block_size max_size c curr size (gen_ss_table_file_name d) [] fs t _
              (load_source-HoldsSource block_size fs d t (fits, there)) refl
            ∙ files_end block_size max_size c merged _ fs fs' index runs,
        (written, tt),
        λ name ne _ live. frame name ne tt live,
      )
  loop-Written c curr size n (d, t) ((d', t') ∷ []) fs stored small (lt, (lt', rise))
        ((fits, there), (held', held)) =
      let merged = merge_ss_table curr t in
      let merged_stored =
        merge_ss_table-StorableUpTo n (length t.m_table) curr t stored
          (omega arith, fits.1.1, fits.1.2) in
      elim (Bool-cases (ltb max_size (size + length (encode_ss_table t)))) [
        | inr room ↦
            grow-RoundsLeave block_size max_size c curr size d t (d', t') [] fs (fits, there) room
              (loop-Written c merged (size + length (encode_ss_table t)) (n + length t.m_table)
                (d', t') [] fs merged_stored (omega (arith, small)) (omega (arith, lt, lt'), rise)
                (held', held))
        | inl full ↦
            let (index, fs₁, flushed, written, frame) =
              flush_merged-WrittenAs block_size c merged fs (
                StorableUpTo-TableFits (n + length t.m_table) merged (omega (arith, small))
                  merged_stored) in
            let held₁ = (HoldsSource-Untouched c [] ((d', t') ∷ []) fs fs₁ frame (held', tt)).0 in
            close-RoundsLeave block_size max_size c curr size d t d' t' [] fs fs₁ index _ _
              (fits, there) full (lt, (lt', rise)) flushed written frame
              (rounds_close_two block_size max_size (gen_ss_table_file_name c) curr size
                (source_of (d, t)) (source_of (d', t')) full)
              (single-RoundsLeave block_size max_size d' t' fs₁ held₁ held'.0.1)
      ]
  loop-Written c curr size n (d, t) ((d', t') ∷ (d'', t'') ∷ rest) fs stored small (lt, (lt', rise))
        ((fits, there), (held', held)) =
      let merged = merge_ss_table curr t in
      let merged_stored =
        merge_ss_table-StorableUpTo n (length t.m_table) curr t stored
          (omega arith, fits.1.1, fits.1.2) in
      elim (Bool-cases (ltb max_size (size + length (encode_ss_table t)))) [
        | inr room ↦
            grow-RoundsLeave block_size max_size c curr size d t (d', t') ((d'', t'') ∷ rest) fs
              (fits, there) room
              (loop-Written c merged (size + length (encode_ss_table t)) (n + length t.m_table)
                (d', t') ((d'', t'') ∷ rest) fs merged_stored (omega (arith, small))
                (omega (arith, lt, lt'), rise) (held', held))
        | inl full ↦
            let (index, fs₁, flushed, written, frame) =
              flush_merged-WrittenAs block_size c merged fs (
                StorableUpTo-TableFits (n + length t.m_table) merged (omega (arith, small))
                  merged_stored) in
            let (held₁, held₂) =
              HoldsSource-Untouched c [] ((d', t') ∷ (d'', t'') ∷ rest) fs fs₁ frame
                (held', held) in
            let (is, fs₂, runs, later, frame₂) =
              loop-Written d' t' (length (encode_ss_table t')) (length t'.m_table) (d'', t'') rest
                fs₁ (omega arith, held'.0.1.1, held'.0.1.2) (omega (arith, small)) rise held₂ in
            close-RoundsLeave block_size max_size c curr size d t d' t' ((d'', t'') ∷ rest) fs fs₁
              index _ _ (fits, there) full (lt, (lt', rise)) flushed written frame
              (rounds_close block_size max_size (gen_ss_table_file_name c) curr size
                (source_of (d, t)) (source_of (d', t')) (source_of (d'', t'')) (sources_of rest)
                full)
              (
                is,
                fs₂,
                files_begin block_size max_size d' t' _ (names_of ((d'', t'') ∷ rest)) fs₁
                      (load_source-HoldsSource block_size fs₁ d' t' held₁)
                    ∙ runs,
                later,
                frame₂,
              )
      ]

-- The removal of deprecated files leaves the sources.
HoldsSource-cleaned :
    (ss : List (ℕ × SsTable)) (fs : FileSystem)
    → All (HoldsSource fs) ss
    → All (HoldsSource (remove_files_with_ext deprecated_file_ext fs)) ss
HoldsSource-cleaned ss fs held =
    All-map {Q = HoldsSource (remove_files_with_ext deprecated_file_ext fs)}
      (λ s (fits, there). (
        fits,
        file_content-remove_files_with_ext deprecated_file_ext (gen_ss_table_file_name s.0) fs (
              ext_differs (gen_ss_table_file_name s.0) (extension-ss_table s.0)
                (letters_differ _ _ refl))
            ∙ there,
      ))
      ss held

-- A compaction of sources that lie in the files of rising counters, with fewer entries in all than
-- a `size_t` counts, throws no exception. It writes the tables that the compaction of the tables
-- gives, each into the merged file of the first source of its group and with an index that
-- describes the file, and leaves every file that is neither deprecated nor a merged file of one of
-- the counters as it was.
pub merge_files-Written :
    (block_size max_size c : ℕ) (t : SsTable) (next : ℕ × SsTable) (rest : List (ℕ × SsTable))
    (fs : FileSystem)
    → RiseFrom c (next ∷ rest)
    → total_length ((c, t) ∷ next ∷ rest) < 256 ^ size_of_size_t
    → All (HoldsSource fs) ((c, t) ∷ next ∷ rest)
    → (outputs : List MergedTable) × (is : List SsTableIndex) × (fs' : FileSystem)
      × (merge_ss_tables max_size (sources_of ((c, t) ∷ next ∷ rest)) ≡ ok outputs)
      × (merge_files block_size max_size (names_of ((c, t) ∷ next ∷ rest)) fs ≡ ok (is, fs'))
      × Written fs' outputs is
      × Untouched c (next ∷ rest) fs fs'
unfolding merge_ss_tables merge_files
merge_files-Written block_size max_size c t next rest fs rise small held =
    let cleaned = remove_files_with_ext deprecated_file_ext fs in
    let (held_first, held_rest) = HoldsSource-cleaned ((c, t) ∷ next ∷ rest) fs held in
    let (fits, _) = held_first in
    let (is, fs', runs, written, frame) =
      loop-Written block_size max_size c t (length (encode_ss_table t)) (length t.m_table) next rest
        cleaned (omega arith, fits.1.1, fits.1.2) (omega (arith, small)) rise held_rest in
    (
      merge_rounds max_size (gen_ss_table_file_name c) t (length (encode_ss_table t))
          (source_of next) (sources_of rest),
      is,
      fs',
      refl,
      files_begin block_size max_size c t _ (names_of (next ∷ rest)) cleaned
            (load_source-HoldsSource block_size cleaned c t held_first)
          ∙ runs,
      written,
      λ name ne others live.
          frame name ne others live
          ∙ file_content-remove_files_with_ext deprecated_file_ext name fs live,
    )
