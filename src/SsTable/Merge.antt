-- ===== src/SsTable/Merge.antt =====
-- What the merge of two tables holds.
pub mod Size
use project_db.Common.{
  ◌≡◌, sym, ◌∙◌, true, false, Option, none, some, [], ◌∷◌, ◌++◌, append-nil, append_assoc,
  if◌then◌else◌, inl, inr, Bool-cases, refl, arith,
}
use project_db.StdMap.{IsSorted, emplace, find, Above}
use project_db.StdMap.Order.{emplace_last, AllBelow, AllBelow-shift, Above-trans, AllBelow-nil}
use project_db.Key.{less, Key, less_total, beq_iff, less_irrefl, key_ord}
use project_db.Value.{Value, is_tombstone_value}
use project_db.SsTable.{Table, emplace_all, merge_loop, SsTable, merge_ss_table}
use project_db.StdMap.Find.{find-Above}

-- The merge without its accumulator.
pub merge_entries : Table → Table → Table
merge_entries [] new = new
merge_entries ((k_old, v_old) ∷ old) [] = (k_old, v_old) ∷ old
merge_entries ((k_old, v_old) ∷ old) ((k_new, v_new) ∷ new) = elim (less k_old k_new) [
  | true ↦ (k_old, v_old) ∷ merge_entries old ((k_new, v_new) ∷ new)
  | false ↦ elim (less k_new k_old) [
    | true ↦ (k_new, v_new) ∷ merge_entries ((k_old, v_old) ∷ old) new
    | false ↦ elim (is_tombstone_value v_new) [
      | true ↦ merge_entries old new
      | false ↦ (k_new, v_new) ∷ merge_entries old new
    ]
  ]
]

-- What the merge keeps of a key's values in the two tables: the new one, unless it is a tombstone
-- over a value of the old table.
abbrev pub merge_value : Option Value → Option Value → Option Value
merge_value old none = old
merge_value none (some v) = some v
merge_value (some w) (some v) = if is_tombstone_value v then none else some v

emplace_all-append : (m acc : Table) → IsSorted m → AllBelow acc m → emplace_all m acc ≡ acc ++ m
unfolding emplace_all
emplace_all-append [] acc s b = sym (append-nil acc)
emplace_all-append ((k, v) ∷ m) acc s b = rw (emplace_last k v acc b.0) (
    emplace_all-append m (acc ++ (k, v) ∷ []) s.1 (AllBelow-shift acc k v m b.1 s.0)
    ∙ append_assoc acc ((k, v) ∷ []) m)

module _ (k_old : Key) (v_old : Value) (old : Table) (k_new : Key) (v_new : Value)
    (new : Table) where
  merge_loop_lem :
      (acc : Table)
      → merge_loop ((k_old, v_old) ∷ old) ((k_new, v_new) ∷ new) acc ≡ (
          if less k_old k_new
          then merge_loop old ((k_new, v_new) ∷ new) (emplace k_old v_old acc)
          else if less k_new k_old
          then merge_loop ((k_old, v_old) ∷ old) new (emplace k_new v_new acc)
          else if is_tombstone_value v_new
          then merge_loop old new acc
          else merge_loop old new (emplace k_new v_new acc))
  unfolding merge_loop
  merge_loop_lem acc = elim (Bool-cases (less k_old k_new)) [
    | inl lt ↦ rw (lt, merge_loop)
    | inr ge ↦ elim (Bool-cases (less k_new k_old)) [
      | inl gt ↦ rw (ge, gt, merge_loop)
      | inr le ↦ elim (Bool-cases (is_tombstone_value v_new)) [
        | inl t ↦ rw (ge, le, t, merge_loop)
        | inr t ↦ rw (ge, le, t, merge_loop)
      ]
    ]
  ]

  pub merge_entries_lem : merge_entries ((k_old, v_old) ∷ old) ((k_new, v_new) ∷ new) ≡ (
      if less k_old k_new
      then (k_old, v_old) ∷ merge_entries old ((k_new, v_new) ∷ new)
      else if less k_new k_old
      then (k_new, v_new) ∷ merge_entries ((k_old, v_old) ∷ old) new
      else if is_tombstone_value v_new
      then merge_entries old new
      else (k_new, v_new) ∷ merge_entries old new)
  unfolding merge_entries
  merge_entries_lem = elim (Bool-cases (less k_old k_new)) [
    | inl lt ↦ rw (lt, merge_entries)
    | inr ge ↦ elim (Bool-cases (less k_new k_old)) [
      | inl gt ↦ rw (ge, gt, merge_entries)
      | inr le ↦ elim (Bool-cases (is_tombstone_value v_new)) [
        | inl t ↦ rw (ge, le, t, merge_entries)
        | inr t ↦ rw (ge, le, t, merge_entries)
      ]
    ]
  ]

pub merge_entries-nil : (old : Table) → merge_entries old [] ≡ old
unfolding merge_entries
merge_entries-nil [] = refl
merge_entries-nil ((k, v) ∷ old) = refl

merge_loop-append :
    (old new acc : Table)
    → IsSorted old
    → IsSorted new
    → AllBelow acc old
    → AllBelow acc new
    → merge_loop old new acc ≡ acc ++ merge_entries old new
merge_loop-append [] new acc so sn bo bn =
    unfold merge_loop merge_entries in emplace_all-append new acc sn bn
merge_loop-append ((k_old, v_old) ∷ old) [] acc so sn bo bn =
    unfold merge_loop merge_entries in emplace_all-append ((k_old, v_old) ∷ old) acc so bo
merge_loop-append ((k_old, v_old) ∷ old) ((k_new, v_new) ∷ new) acc so sn bo bn = ground (
  arith,
  merge_loop_lem k_old v_old old k_new v_new new acc,
  merge_entries_lem k_old v_old old k_new v_new new,
  emplace_last k_old v_old acc,
  emplace_last k_new v_new acc,
  AllBelow-shift acc k_old v_old old,
  AllBelow-shift acc k_old v_old ((k_new, v_new) ∷ new),
  AllBelow-shift acc k_new v_new ((k_old, v_old) ∷ old),
  AllBelow-shift acc k_new v_new old,
  AllBelow-shift acc k_new v_new new,
  Above-trans k_old k_new new,
  Above-trans k_new k_old old,
  less_total k_old k_new,
  append_assoc acc ((k_old, v_old) ∷ []) (merge_entries old ((k_new, v_new) ∷ new)),
  append_assoc acc ((k_new, v_new) ∷ []) (merge_entries ((k_old, v_old) ∷ old) new),
  append_assoc acc ((k_new, v_new) ∷ []) (merge_entries old new),
  merge_loop-append old ((k_new, v_new) ∷ new) (acc ++ (k_old, v_old) ∷ []),
  merge_loop-append ((k_old, v_old) ∷ old) new (acc ++ (k_new, v_new) ∷ []),
  merge_loop-append old new (acc ++ (k_new, v_new) ∷ []),
  merge_loop-append old new acc,
)

merge_entries-Above :
    (i : Key) (old new : Table) → Above i old → Above i new → Above i (merge_entries old new)
merge_entries-Above i [] new ao an = unfold merge_entries in an
merge_entries-Above i ((k_old, v_old) ∷ old) [] ao an = unfold merge_entries in ao
merge_entries-Above i ((k_old, v_old) ∷ old) ((k_new, v_new) ∷ new) ao an = ground (
  arith,
  merge_entries_lem k_old v_old old k_new v_new new,
  merge_entries-Above i old ((k_new, v_new) ∷ new) ao.1 an,
  merge_entries-Above i ((k_old, v_old) ∷ old) new ao an.1,
  merge_entries-Above i old new ao.1 an.1,
)

merge_entries-IsSorted :
    (old new : Table) → IsSorted old → IsSorted new → IsSorted (merge_entries old new)
merge_entries-IsSorted [] new so sn = unfold merge_entries in sn
merge_entries-IsSorted ((k_old, v_old) ∷ old) [] so sn = unfold merge_entries in so
merge_entries-IsSorted ((k_old, v_old) ∷ old) ((k_new, v_new) ∷ new) so sn = ground (
  arith,
  merge_entries_lem k_old v_old old k_new v_new new,
  Above-trans k_old k_new new,
  Above-trans k_new k_old old,
  less_total k_old k_new,
  merge_entries-Above k_old old ((k_new, v_new) ∷ new) so.0,
  merge_entries-Above k_new ((k_old, v_old) ∷ old) new,
  merge_entries-Above k_new old new,
  merge_entries-IsSorted old ((k_new, v_new) ∷ new) so.1 sn,
  merge_entries-IsSorted ((k_old, v_old) ∷ old) new so sn.1,
  merge_entries-IsSorted old new so.1 sn.1,
)

find-merge_entries :
    (k : Key) (old new : Table)
    → IsSorted old
    → IsSorted new
    → find k (merge_entries old new) ≡ merge_value (find k old) (find k new)
unfolding find
find-merge_entries k [] new so sn = unfold merge_entries in ground arith
find-merge_entries k ((k_old, v_old) ∷ old) [] so sn = unfold merge_entries in ground arith
find-merge_entries k ((k_old, v_old) ∷ old) ((k_new, v_new) ∷ new) so sn = ground (
  arith,
  merge_entries_lem k_old v_old old k_new v_new new,
  beq_iff k_old k,
  beq_iff k_new k,
  less_irrefl k,
  less_total k_old k_new,
  find-Above k old,
  find-Above k new,
  Above-trans k k_new new,
  Above-trans k k_old old,
  find-merge_entries k old ((k_new, v_new) ∷ new) so.1 sn,
  find-merge_entries k ((k_old, v_old) ∷ old) new so sn.1,
  find-merge_entries k old new so.1 sn.1,
)

pub merge_table-entries :
    (old new : SsTable)
    → IsSorted old.m_table
    → IsSorted new.m_table
    → (merge_ss_table old new).m_table ≡ merge_entries old.m_table new.m_table
unfolding merge_ss_table
merge_table-entries old new so sn =
    merge_loop-append old.m_table new.m_table [] so sn (AllBelow-nil old.m_table)
      (AllBelow-nil new.m_table)

-- The merge of two sorted tables is sorted.
pub merge_ss_table-IsSorted :
    (old new : SsTable)
    → IsSorted old.m_table
    → IsSorted new.m_table
    → IsSorted (merge_ss_table old new).m_table
merge_ss_table-IsSorted old new so sn =
    rw (merge_table-entries old new so sn) (merge_entries-IsSorted old.m_table new.m_table so sn)

-- For sorted tables, the merge holds of each key the newer value, but nothing where a tombstone of
-- the new table meets an entry of the old one.
pub find-merge_ss_table :
    (old new : SsTable) (k : Key)
    → IsSorted old.m_table
    → IsSorted new.m_table
    → find k (merge_ss_table old new).m_table
      ≡ merge_value (find k old.m_table) (find k new.m_table)
find-merge_ss_table old new k so sn =
    rw (merge_table-entries old new so sn) (find-merge_entries k old.m_table new.m_table so sn)
