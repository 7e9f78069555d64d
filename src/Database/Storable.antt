-- ===== src/Database/Storable.antt =====
-- A table to which an entry is added that can be stored can be stored still.
use project_db.MemTable
use project_db.Common.{inl, inr, [], ◌∷◌, arith, All, Bytes, Bool-cases}
use project_db.Database.Sound.{TableOk}
use project_db.Key.{Key, key_ord}
use project_db.MemTable.{MemTable}
use project_db.Serializer.Strings.{StringFits}
use project_db.SsTable.{Table}
use project_db.SsTable.Stored.{stored_entry}
use project_db.StdMap.{Ord, StdMap, insert_or_assign}
use project_db.StdMap.Order.{insert_or_assign-IsSorted}
use project_db.TransactionLog.Loop.{to_key}
use project_db.Value.{Value, tombstone, of_string}
use project_db.Value.Stored.{kind_code}
use mathlib.Core.Path.{subst}

module _ {ℓ κ ι} {K : Type ℓ} {V : Type κ} ⦃o : Ord K⦄ (P : K × V → Type ι) where
  All-insert_or_assign :
      (k : K) (v : V) (m : StdMap K V) → P (k, v) → All P m → All P (insert_or_assign k v m)
  unfolding insert_or_assign
  All-insert_or_assign k v [] h a = (h, tt)
  All-insert_or_assign k v ((j, w) ∷ m) h (b, a) = elim (Bool-cases (o.less k j)) [
    | inl first ↦ rw first (h, (b, a))
    | inr after ↦ elim (Bool-cases (o.less j k)) [
      | inl later ↦ rw (after, later) (b, All-insert_or_assign k v m h a)
      | inr same ↦ rw (after, same) (subst (λ i. P (i, v)) (o.less_total k j after same) h, a)
    ]
  ]

insert-TableOk :
    (k : Key) (v : Value) (t : Table)
    → stored_entry.Fits (k, v)
    → TableOk t
    → TableOk (insert_or_assign k v t)
insert-TableOk k v t fits (sorted, stored) = (
  insert_or_assign-IsSorted k v t sorted,
  All-insert_or_assign stored_entry.Fits k v t fits stored,
)

pub set-TableOk :
    (key value : Bytes)
    → StringFits key
    → StringFits value
    → (m : MemTable) → TableOk m.m_table
    → TableOk (MemTable.set m (to_key key) (of_string value)).m_table
unfolding MemTable.set kind_code
set-TableOk key value key_fits value_fits m h =
    insert-TableOk (to_key key) (of_string value) m.m_table
      ((key_fits, tt), (((omega arith, tt), value_fits), tt)) h

nil-StringFits : StringFits []
nil-StringFits = (omega arith, tt, tt)

pub remove-TableOk :
    (key : Bytes)
    → StringFits key
    → (m : MemTable) → TableOk m.m_table
    → TableOk (MemTable.remove m (to_key key)).m_table
unfolding MemTable.remove kind_code
remove-TableOk key key_fits m h =
    insert-TableOk (to_key key) tombstone m.m_table
      ((key_fits, tt), (((omega arith, tt), nil-StringFits), tt)) h
