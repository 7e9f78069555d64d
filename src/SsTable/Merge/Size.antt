-- ===== src/SsTable/Merge/Size.antt =====
-- The merge of tables that can be stored can be stored.
use project_db.Common.{ℕ, ◌+◌, ◌^◌, ◌≤◌, ◌<◌, inl, inr, [], ◌∷◌, arith, length, All, Bool-cases}
use project_db.Key.{Key, less, key_ord}
use project_db.Serializer.Containers.{size_of_size_t}
use project_db.SsTable.{Table, SsTable, merge_ss_table}
use project_db.SsTable.Merge.{
  merge_entries, merge_table-entries, merge_ss_table-IsSorted, merge_entries_lem,
}
use project_db.SsTable.Stored.{stored_entry, TableFits}
use project_db.StdMap.{IsSorted}
use project_db.Value.{Value, is_tombstone_value}

module _ (P : Key × Value → Type 0) where
  All-merge_entries : (old new : Table) → All P old → All P new → All P (merge_entries old new)
  unfolding merge_entries
  All-merge_entries [] new ho hn = hn
  All-merge_entries ((k_old, v_old) ∷ old) [] ho hn = ho
  All-merge_entries ((k_old, v_old) ∷ old) ((k_new, v_new) ∷ new) (o, ho) (n, hn) =
      elim (Bool-cases (less k_old k_new)) [
        | inl first ↦
            rw (merge_entries_lem k_old v_old old k_new v_new new, first)
              (o, All-merge_entries old ((k_new, v_new) ∷ new) ho (n, hn))
        | inr not_first ↦ elim (Bool-cases (less k_new k_old)) [
          | inl later ↦
              rw (merge_entries_lem k_old v_old old k_new v_new new, not_first, later)
                (n, All-merge_entries ((k_old, v_old) ∷ old) new (o, ho) hn)
          | inr same ↦ elim (Bool-cases (is_tombstone_value v_new)) [
            | inl gone ↦
                rw (merge_entries_lem k_old v_old old k_new v_new new, not_first, same, gone)
                  (All-merge_entries old new ho hn)
            | inr kept ↦
                rw (merge_entries_lem k_old v_old old k_new v_new new, not_first, same, kept)
                  (n, All-merge_entries old new ho hn)
          ]
        ]
      ]

length-merge_entries : (old new : Table) → length (merge_entries old new) ≤ length old + length new
unfolding merge_entries
length-merge_entries [] new = omega arith
length-merge_entries ((k_old, v_old) ∷ old) [] = omega arith
length-merge_entries ((k_old, v_old) ∷ old) ((k_new, v_new) ∷ new) =
    elim (Bool-cases (less k_old k_new)) [
      | inl first ↦
          rw (merge_entries_lem k_old v_old old k_new v_new new, first)
            (omega (arith, length-merge_entries old ((k_new, v_new) ∷ new)))
      | inr not_first ↦ elim (Bool-cases (less k_new k_old)) [
        | inl later ↦
            rw (merge_entries_lem k_old v_old old k_new v_new new, not_first, later)
              (omega (arith, length-merge_entries ((k_old, v_old) ∷ old) new))
        | inr same ↦ elim (Bool-cases (is_tombstone_value v_new)) [
          | inl gone ↦
              rw (merge_entries_lem k_old v_old old k_new v_new new, not_first, same, gone)
                (omega (arith, length-merge_entries old new))
          | inr kept ↦
              rw (merge_entries_lem k_old v_old old k_new v_new new, not_first, same, kept)
                (omega (arith, length-merge_entries old new))
        ]
      ]
    ]

-- What can be stored, and has `n` entries at most.
abbrev pub StorableUpTo : ℕ → SsTable → Type 0
StorableUpTo n s = (length s.m_table ≤ n) × All stored_entry.Fits s.m_table × IsSorted s.m_table

pub merge_ss_table-StorableUpTo :
    (n m : ℕ) (old new : SsTable)
    → StorableUpTo n old
    → StorableUpTo m new
    → StorableUpTo (n + m) (merge_ss_table old new)
merge_ss_table-StorableUpTo n m old new (lo, fo, so) (ln, fn, sn) =
    let entries = merge_table-entries old new so sn in
    (
      rw entries (omega (arith, length-merge_entries old.m_table new.m_table, lo, ln)),
      rw entries (All-merge_entries stored_entry.Fits old.m_table new.m_table fo fn),
      merge_ss_table-IsSorted old new so sn,
    )

pub StorableUpTo-TableFits :
    (n : ℕ) (s : SsTable) → n < 256 ^ size_of_size_t → StorableUpTo n s → TableFits s.m_table
StorableUpTo-TableFits n s small (l, f, sorted) = (omega (arith, small, l), f, sorted)
