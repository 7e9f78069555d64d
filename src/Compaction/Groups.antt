-- ===== src/Compaction/Groups.antt =====
-- What a compaction does to the values of a key.
use project_db.Common.{ℕ, Option, List, [], ◌∷◌, All, Bytes, ◌+◌, refl, inl, inr, ltb, Bool-cases}
use project_db.Compaction.{SourceTable, MergedTable, merge_rounds}
use project_db.Compaction.Layers.{
  or_older, lookup_layers, Kept, Unchanged, Kept-Unchanged, Kept-merge, or_older_assoc,
  Unchanged-or_older,
}
use project_db.Key.{Key, key_ord}
use project_db.SsTable.{Table, SsTable, merge_ss_table}
use project_db.SsTable.Merge.{find-merge_ss_table, merge_ss_table-IsSorted}
use project_db.StdMap.{find, IsSorted}
use project_db.Value.{Value}

abbrev pub source_tables : List SourceTable → List Table
source_tables [] = []
source_tables (s ∷ ss) = s.content.m_table ∷ source_tables ss

abbrev pub merged_tables : List MergedTable → List Table
merged_tables [] = []
merged_tables (m ∷ ms) = m.content.m_table ∷ merged_tables ms

abbrev pub SortedSources : List SourceTable → Type 0
SortedSources = All (λ s. IsSorted s.content.m_table)

module _ (k : Key) (max_size : ℕ) where
  -- One more source in the group: `l` is what its sources so far say of the key.
  pub merged_Kept :
      (l : Option Value) (curr : SsTable) (next : SourceTable)
      → IsSorted curr.m_table
      → IsSorted next.content.m_table
      → Kept l (find k curr.m_table)
      → Kept
          (or_older (find k next.content.m_table) l)
          (find k (merge_ss_table curr next.content).m_table)
  merged_Kept l curr next sc sn h =
      rw (find-merge_ss_table curr next.content k sc sn)
        (Kept-merge l (find k curr.m_table) (find k next.content.m_table) h)

  pub merge_rounds-Unchanged :
      (base : Bytes) (curr : SsTable) (size : ℕ) (next : SourceTable) (rest : List SourceTable)
      (l : Option Value)
      → IsSorted curr.m_table
      → SortedSources (next ∷ rest)
      → Kept l (find k curr.m_table)
      → Unchanged
          (or_older (lookup_layers k (source_tables (next ∷ rest))) l)
          (lookup_layers k (merged_tables (merge_rounds max_size base curr size next rest)))
  unfolding merge_rounds lookup_layers
  merge_rounds-Unchanged base curr size next [] l sc s h =
      Kept-Unchanged _ _ (merged_Kept l curr next sc s.0 h)
  merge_rounds-Unchanged base curr size next (after ∷ []) l sc s h =
      let merged = merge_ss_table curr next.content in
      let l' = or_older (find k next.content.m_table) l in
      let kept = merged_Kept l curr next sc s.0 h in
      rw (or_older_assoc (find k after.content.m_table) (find k next.content.m_table) l)
        (elim (Bool-cases (ltb max_size (size + next.file_size))) [
          | inl full ↦ rw full (
              Unchanged-or_older l' (find k merged.m_table) (find k after.content.m_table)
                (find k after.content.m_table) (Kept-Unchanged _ _ kept) (inr refl))
          | inr room ↦ rw room (
              merge_rounds-Unchanged base merged (size + next.file_size) after [] l'
                (merge_ss_table-IsSorted curr next.content sc s.0) s.1 kept)
        ])
  merge_rounds-Unchanged base curr size next (after ∷ third ∷ rest) l sc s h =
      let merged = merge_ss_table curr next.content in
      let l' = or_older (find k next.content.m_table) l in
      let kept = merged_Kept l curr next sc s.0 h in
      let later = lookup_layers k (source_tables (after ∷ third ∷ rest)) in
      let outs = merge_rounds max_size after.name after.content after.file_size third rest in
      rw (or_older_assoc later (find k next.content.m_table) l)
        (elim (Bool-cases (ltb max_size (size + next.file_size))) [
          | inl full ↦ rw full (
              Unchanged-or_older l' (find k merged.m_table) later
                (lookup_layers k (merged_tables outs)) (Kept-Unchanged _ _ kept)
                (merge_rounds-Unchanged after.name after.content after.file_size third rest
                  (find k after.content.m_table) s.1.0 s.1.1 (inl refl)))
          | inr room ↦ rw room (
              merge_rounds-Unchanged base merged (size + next.file_size) after (third ∷ rest) l'
                (merge_ss_table-IsSorted curr next.content sc s.0) s.1 kept)
        ])
