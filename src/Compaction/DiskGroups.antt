-- ===== src/Compaction/DiskGroups.antt =====
-- How a group of a compaction of files (db/sstable_ops.cpp) grows and ends.
use project_db.Common.{
  ℕ, ◌+◌, ◌≡◌, sym, ◌∙◌, true, false, none, some, List, [], ◌∷◌, length, ok, ltb,
}
use project_db.Compaction.{MergedTable, merge_rounds}
use project_db.Compaction.Disk.{flush_merged, merge_files_loop}
use project_db.Compaction.DiskRounds.{
  RoundsLeave, next_group, go_on, group_of, rounds_on, files_on, files_close, files_end,
  files_begin,
}
use project_db.Compaction.Written.{
  source_of, sources_of, names_of, HoldsSource, RiseFrom, WrittenAs, Written, Untouched,
  load_source-HoldsSource, flush_merged-WrittenAs,
}
use project_db.FileSystem.{FileSystem}
use project_db.FileSystem.Names.{gen_ss_table_file_name}
use project_db.SsTable.{SsTable, merge_ss_table}
use project_db.SsTable.Stored.{TableFits}
use project_db.SsTableIndex.{SsTableIndex}
use project_db.SsTableOps.Flush.{encode_ss_table}
use mathlib.Core.Path.{subst}

module _ (block_size max_size : ℕ) where
  -- The group goes on with `t`.
  pub grow-RoundsLeave :
      (c : ℕ) (curr : SsTable) (size d : ℕ) (t : SsTable) (after : ℕ × SsTable)
      (rest : List (ℕ × SsTable)) (fs : FileSystem)
      → HoldsSource fs (d, t)
      → ltb max_size (size + length (encode_ss_table t)) ≡ false
      → RoundsLeave c
          (after ∷ rest)
          fs
          (merge_rounds max_size
            (gen_ss_table_file_name c)
            (merge_ss_table curr t)
            (size + length (encode_ss_table t))
            (source_of after)
            (sources_of rest))
          (merge_files_loop block_size max_size
            (some (group_of c (merge_ss_table curr t) (size + length (encode_ss_table t))))
            (names_of (after ∷ rest))
            fs)
      → RoundsLeave c
          ((d, t) ∷ after ∷ rest)
          fs
          (merge_rounds max_size
            (gen_ss_table_file_name c)
            curr
            size
            (source_of (d, t))
            (sources_of (after ∷ rest)))
          (merge_files_loop block_size max_size
            (some (group_of c curr size))
            (names_of ((d, t) ∷ after ∷ rest))
            fs)
  grow-RoundsLeave c curr size d t after rest fs held room later =
      go_on c d t (after ∷ rest) fs _ _ _ _
        (rounds_on block_size max_size (gen_ss_table_file_name c) curr size (source_of (d, t))
          (source_of after) (sources_of rest) room)
        (files_on block_size max_size c curr size _ (names_of (after ∷ rest)) fs t _
          (load_source-HoldsSource block_size fs d t held) room)
        later

  -- The group ends with `t`, and the later sources make their own.
  pub close-RoundsLeave :
      (c : ℕ) (curr : SsTable) (size d : ℕ) (t : SsTable) (d' : ℕ) (t' : SsTable)
      (rest : List (ℕ × SsTable)) (fs fs₁ : FileSystem) (index : SsTableIndex)
      (outputs later_tables : List MergedTable)
      → HoldsSource fs (d, t)
      → ltb max_size (size + length (encode_ss_table t)) ≡ true
      → RiseFrom c ((d, t) ∷ (d', t') ∷ rest)
      → flush_merged block_size (merge_ss_table curr t) (gen_ss_table_file_name c) fs
        ≡ ok (index, fs₁)
      → WrittenAs fs₁
          (record { base_name = gen_ss_table_file_name c; content = merge_ss_table curr t })
          index
      → Untouched c [] fs fs₁
      → outputs
        ≡ record { base_name = gen_ss_table_file_name c; content = merge_ss_table curr t }
          ∷ later_tables
      → RoundsLeave d' rest fs₁ later_tables
          (merge_files_loop block_size max_size none (names_of ((d', t') ∷ rest)) fs₁)
      → RoundsLeave c ((d, t) ∷ (d', t') ∷ rest) fs outputs (
          merge_files_loop block_size max_size
            (some (group_of c curr size))
            (names_of ((d, t) ∷ (d', t') ∷ rest))
            fs)
  close-RoundsLeave c curr size d t d' t' rest fs fs₁ index outputs later_tables held full
        (lt, (lt', rise)) flushed written frame same (others, fs₂, runs, later, frame₂) =
      let (all_written, left) =
        next_group c d' (merge_ss_table curr t) t t' d rest fs fs₁ index later_tables others fs₂ lt
          lt' rise written frame later frame₂ in
      (
        index ∷ others,
        fs₂,
        files_close block_size max_size c curr size _ (names_of ((d', t') ∷ rest)) fs fs₁ fs₂ t _
            index others (load_source-HoldsSource block_size fs d t held) full flushed runs,
        subst (λ ms. Written fs₂ ms (index ∷ others)) (sym same) all_written,
        left,
      )

  -- A last source alone.
  pub single-RoundsLeave :
      (d : ℕ) (t : SsTable) (fs : FileSystem)
      → HoldsSource fs (d, t)
      → TableFits t.m_table
      → RoundsLeave d [] fs
          (record { base_name = gen_ss_table_file_name d; content = t } ∷ [])
          (merge_files_loop block_size max_size none (names_of ((d, t) ∷ [])) fs)
  single-RoundsLeave d t fs held fits =
      let (index, fs', runs, written, frame) = flush_merged-WrittenAs block_size d t fs fits in
      (
        index ∷ [],
        fs',
        files_begin block_size max_size d t _ [] fs (load_source-HoldsSource block_size fs d t held)
            ∙ files_end block_size max_size d t _ fs fs' index runs,
        (written, tt),
        frame,
      )
