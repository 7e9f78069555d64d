-- ===== src/Compaction/Effect.antt =====
-- What clients see of a compaction: `older` and `newer` are the tables that it does not touch.
use project_db.Common.{
  ℕ, ◌+◌, ◌≤◌, ◌≡◌, refl, inr, Option, List, [], ◌∷◌, ◌++◌, Bytes, ok, ap, inl, true, false, none,
  some, arith, ok-injective, ge→ltb,
}
use project_db.Compaction.{SourceTable, MergedTable, merge_rounds, merge_ss_tables}
use project_db.Compaction.Groups.{
  source_tables, merged_tables, SortedSources, merged_Kept, merge_rounds-Unchanged,
}
use project_db.Compaction.Layers.{
  or_older, lookup_layers, Kept, Unchanged, or_older_assoc, lookup_layers-append,
  Unchanged-or_older, visible, Kept-visible, Kept-newer,
}
use project_db.Key.{Key, key_ord}
use project_db.SsTable.{Table, SsTable, merge_ss_table}
use project_db.StdMap.{find, IsSorted}
use project_db.Value.{Value, is_tombstone_value, underlying_value}
use project_db.SsTable.Merge.{merge_ss_table-IsSorted, find-merge_ss_table}
use mathlib.Core.Path.{subst}

module _ (k : Key) (older newer : List Table) where
  layered :
      (group : List Table)
      → lookup_layers k (older ++ (group ++ newer))
        ≡ or_older
            (lookup_layers k newer)
            (or_older (lookup_layers k group) (lookup_layers k older))
  layered group =
      rw (lookup_layers-append k older (group ++ newer), lookup_layers-append k group newer)
        (or_older_assoc (lookup_layers k newer) (lookup_layers k group) (lookup_layers k older))

  -- From the tables of a compaction to all tables.
  Unchanged-layered :
      (before after : List Table)
      → Unchanged (lookup_layers k before) (lookup_layers k after)
      → Unchanged
          (lookup_layers k (older ++ (before ++ newer)))
          (lookup_layers k (older ++ (after ++ newer)))
  Unchanged-layered before after h =
      rw (layered before, layered after)
        (Unchanged-or_older _ _ (lookup_layers k newer) (lookup_layers k newer)
          (Unchanged-or_older (lookup_layers k older) (lookup_layers k older) _ _ (inr refl) h)
          (inr refl))

  -- A compaction of sorted tables that succeeds changes the value of no key, and adds none, unless the
  -- key was removed, wherever the tables stand among older and newer ones.
  pub merge_ss_tables-Unchanged :
      (max_size : ℕ) (sources : List SourceTable) (merged : List MergedTable)
      → SortedSources sources
      → merge_ss_tables max_size sources ≡ ok merged
      → Unchanged
          (lookup_layers k (older ++ (source_tables sources ++ newer)))
          (lookup_layers k (older ++ (merged_tables merged ++ newer)))
  unfolding merge_ss_tables lookup_layers
  merge_ss_tables-Unchanged max_size [] merged s e = cc
  merge_ss_tables-Unchanged max_size (curr ∷ []) merged s e = cc
  merge_ss_tables-Unchanged max_size (curr ∷ next ∷ rest) merged s e =
      Unchanged-layered (source_tables (curr ∷ next ∷ rest)) (merged_tables merged) (
        subst
          (λ ms.
            Unchanged (lookup_layers k (source_tables (curr ∷ next ∷ rest)))
              (lookup_layers k (merged_tables ms)))
          (ok-injective e)
          (merge_rounds-Unchanged k max_size curr.name curr.content curr.file_size next rest
            (find k curr.content.m_table) s.0 s.1 (inl refl)))

abbrev pub total_file_size : List SourceTable → ℕ
total_file_size [] = 0
total_file_size (s ∷ ss) = s.file_size + total_file_size ss

module _ (k : Key) (max_size : ℕ) where
  -- A group that is not cut becomes one table.
  one_group :
      (base : Bytes) (curr : SsTable) (size : ℕ) (next : SourceTable) (rest : List SourceTable)
      (l : Option Value)
      → IsSorted curr.m_table
      → SortedSources (next ∷ rest)
      → size + total_file_size (next ∷ rest) ≤ max_size
      → Kept l (find k curr.m_table)
      → (m : MergedTable) × (merge_rounds max_size base curr size next rest ≡ m ∷ [])
        × Kept
            (or_older (lookup_layers k (source_tables (next ∷ rest))) l)
            (find k m.content.m_table)
  unfolding merge_rounds lookup_layers
  one_group base curr size next [] l sc s fits h = (
    record { base_name = base; content = merge_ss_table curr next.content },
    refl,
    merged_Kept k max_size l curr next sc s.0 h,
  )
  one_group base curr size next (after ∷ []) l sc s fits h =
      rw
        (
          ge→ltb max_size (size + next.file_size) (omega (arith, fits)),
          or_older_assoc (find k after.content.m_table) (find k next.content.m_table) l,
        )
        (one_group base (merge_ss_table curr next.content) (size + next.file_size) after []
          (or_older (find k next.content.m_table) l)
          (merge_ss_table-IsSorted curr next.content sc s.0) s.1 (omega (arith, fits))
          (merged_Kept k max_size l curr next sc s.0 h))
  one_group base curr size next (after ∷ third ∷ rest) l sc s fits h =
      rw
        (
          ge→ltb max_size (size + next.file_size) (omega (arith, fits)),
          or_older_assoc (lookup_layers k (source_tables (after ∷ third ∷ rest)))
              (find k next.content.m_table) l,
        )
        (one_group base (merge_ss_table curr next.content) (size + next.file_size) after
          (third ∷ rest) (or_older (find k next.content.m_table) l)
          (merge_ss_table-IsSorted curr next.content sc s.0) s.1 (omega (arith, fits))
          (merged_Kept k max_size l curr next sc s.0 h))

-- A compaction of the oldest tables, two or more and sorted, whose files are together no larger than the
-- limit makes one table, and no lookup shows a difference, whatever newer tables there are.
pub merge_ss_tables-visible :
    (k : Key) (newer : List Table) (max_size : ℕ) (curr next : SourceTable)
    (rest : List SourceTable)
    → SortedSources (curr ∷ next ∷ rest)
    → total_file_size (curr ∷ next ∷ rest) ≤ max_size
    → (m : MergedTable) × (merge_ss_tables max_size (curr ∷ next ∷ rest) ≡ ok (m ∷ []))
      × (visible (lookup_layers k (source_tables (curr ∷ next ∷ rest) ++ newer))
          ≡ visible (lookup_layers k (m.content.m_table ∷ newer)))
unfolding merge_ss_tables
merge_ss_tables-visible k newer max_size curr next rest s fits =
    let (m, one, kept) =
      one_group k max_size curr.name curr.content curr.file_size next rest
        (find k curr.content.m_table) s.0 s.1 (omega (arith, fits)) (inl refl) in
    (
      m,
      ap ok one,
      rw (lookup_layers-append k (source_tables (curr ∷ next ∷ rest)) newer)
          (unfold lookup_layers in Kept-visible _ _ (Kept-newer _ _ (lookup_layers k newer) kept)),
    )

-- A removed key can come back. When two sorted tables are compacted, the newer has a tombstone for the
-- key and the older a value, and an older table that is not compacted has a value that is no tombstone,
-- then the key is not visible before the compaction, and that oldest value is visible after it.
pub merge_ss_tables_resurrects :
    (k : Key) (older : List Table) (max_size : ℕ) (old new : SourceTable) (v w t : Value)
    → SortedSources (old ∷ new ∷ [])
    → lookup_layers k older ≡ some v
    → is_tombstone_value v ≡ false
    → find k old.content.m_table ≡ some w
    → find k new.content.m_table ≡ some t
    → is_tombstone_value t ≡ true
    → (m : MergedTable) × (merge_ss_tables max_size (old ∷ new ∷ []) ≡ ok (m ∷ []))
      × (visible (lookup_layers k (older ++ source_tables (old ∷ new ∷ []))) ≡ none)
      × (visible (lookup_layers k (older ++ m.content.m_table ∷ [])) ≡ some v.m_value)
unfolding merge_ss_tables merge_rounds
merge_ss_tables_resurrects k older max_size old new v w t s ev live eo en dead = (
  record { base_name = old.name; content = merge_ss_table old.content new.content },
  refl,
  rw (lookup_layers-append k older (source_tables (old ∷ new ∷ [])))
      (unfold lookup_layers underlying_value in rw en (rw dead)),
  rw (lookup_layers-append k older ((merge_ss_table old.content new.content).m_table ∷ [])) (
      unfold lookup_layers underlying_value in
      rw (find-merge_ss_table old.content new.content k s.0 s.1.0, eo, en)
        (rw dead (rw ev (rw live)))),
)
