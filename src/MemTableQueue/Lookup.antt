-- ===== src/MemTableQueue/Lookup.antt =====
-- What a lookup in the tables in memory finds, and after an update.
use project_db.MemTableQueue
use project_db.Common.{
  ◌≡◌, refl, sym, ap, none, some, List, [], ◌∷◌, ◌++◌, if◌then◌else◌, ℕ, ◌⊎◌, inl, inr, Bytes,
  Bool-cases, ◌∙◌,
}
use project_db.Compaction.Layers.{
  or_older, lookup_layers, or_older_assoc, lookup_layers-append, or_older-none,
}
use project_db.Key.{Key, beq, key_ord}
use project_db.MemTable.{MemTable, get_value, needs_flush_to_disk}
use project_db.MemTableQueue.{
  QueueEntry, find_entry, change_back, Shared, MemTableQueue, emplace_back, emplace_if_empty,
  try_launch_flush_to_disk, back, launch_flush_to_disk,
}
use project_db.SsTable.{Table}
use project_db.SsTableIndexQueue.{reverse}
use project_db.StdMap.{find}
use project_db.Value.{Value}
use project_db.TransactionLog.Loop.{to_key}

abbrev pub tables : List QueueEntry → List Table
tables [] = []
tables (entry ∷ rest) = entry.mem_table.m_table ∷ tables rest

find_entry_lem :
    (k : Key) (entry : QueueEntry) (older : List QueueEntry)
    → find_entry k (entry ∷ older) ≡ or_older (get_value entry.mem_table k) (find_entry k older)
unfolding find_entry
find_entry_lem k entry older =
    elim (get_value entry.mem_table k)
      as (λ o.
        (elim o [ none ↦ find_entry k older | some v ↦ some v ])
        ≡ or_older o (find_entry k older)) [ none ↦ refl | some v ↦ refl ]

find_entry-nil : (k : Key) → find_entry k [] ≡ none
unfolding find_entry
find_entry-nil k = refl

find_entry-append :
    (k : Key) (xs ys : List QueueEntry)
    → find_entry k (xs ++ ys) ≡ or_older (find_entry k xs) (find_entry k ys)
find_entry-append k [] ys = rw (find_entry-nil k)
find_entry-append k (x ∷ xs) ys =
    rw (find_entry_lem k x (xs ++ ys), find_entry_lem k x xs, find_entry-append k xs ys)
      (sym (or_older_assoc (get_value x.mem_table k) (find_entry k xs) (find_entry k ys)))

-- A lookup in the tables in memory finds what the newest of them that holds the key says.
pub find_entry-layers :
    (k : Key) (es : List QueueEntry) → find_entry k (reverse es) ≡ lookup_layers k (tables es)
unfolding lookup_layers get_value
find_entry-layers k [] = find_entry-nil k
find_entry-layers k (e ∷ es) = rw (
  find_entry-append k (reverse es) (e ∷ []),
  find_entry-layers k es,
  find_entry_lem k e [],
  find_entry-nil k,
  or_older-none (find k e.mem_table.m_table),
)

module _ (k : Key) (v : Value) (change : MemTable → MemTable)
    (changes : (m : MemTable) (j : Key)
      → get_value (change m) j ≡ (if beq k j then some v else get_value m j))
    (j : Key) where
  pub change_back-layers :
      (e : QueueEntry) (es : List QueueEntry)
      → lookup_layers j (tables (change_back change (e ∷ es)))
        ≡ (if beq k j then some v else lookup_layers j (tables (e ∷ es)))
  unfolding lookup_layers change_back get_value
  change_back-layers e [] = changes e.mem_table j
  change_back-layers e (e₂ ∷ es) =
      rw (change_back-layers e₂ es)
        (elim (Bool-cases (beq k j)) [ inl same ↦ rw same | inr differ ↦ rw differ ])

new_table-layers :
    (k : Key) (ts : List Table) → lookup_layers k (ts ++ [] ∷ []) ≡ lookup_layers k ts
unfolding lookup_layers find
new_table-layers k ts = rw (lookup_layers-append k ts ([] ∷ []))

tables-append : (xs ys : List QueueEntry) → tables (xs ++ ys) ≡ tables xs ++ tables ys
tables-append [] ys = refl
tables-append (x ∷ xs) ys = ap (◌∷◌ x.mem_table.m_table) (tables-append xs ys)

pub get-layers :
    (q : MemTableQueue) (key : Bytes)
    → MemTableQueue.get q key ≡ lookup_layers (to_key key) (tables q.m_queue)
unfolding MemTableQueue.get
get-layers q key = find_entry-layers (to_key key) q.m_queue

emplace_back-layers :
    (k : Key) (q : MemTableQueue) (shared : Shared)
    → lookup_layers k (tables (emplace_back q shared).0.m_queue)
      ≡ lookup_layers k (tables q.m_queue)
unfolding emplace_back
emplace_back-layers k q shared =
    rw (tables-append q.m_queue _) (new_table-layers k (tables q.m_queue))

pub entries-cases :
    (es : List QueueEntry)
    → (es ≡ []) ⊎ ((e : QueueEntry) × (rest : List QueueEntry) × (es ≡ e ∷ rest))
entries-cases [] = inl refl
entries-cases (e ∷ rest) = inr (e, rest, refl)

-- After the test for an empty queue there is a last entry, and nothing else has changed.
pub emplace_if_empty-layers :
    (k : Key) (q : MemTableQueue) (shared : Shared)
    → lookup_layers k (tables (emplace_if_empty q shared).0.m_queue)
      ≡ lookup_layers k (tables q.m_queue)
unfolding emplace_if_empty
emplace_if_empty-layers k q shared = elim (entries-cases q.m_queue) [
  | inl n ↦
      rw (n, emplace_if_empty)
        (emplace_back-layers k q shared ∙ ap (λ es. lookup_layers k (tables es)) n)
  | inr (e, rest, c) ↦ rw (c, emplace_if_empty) (ap (λ es. lookup_layers k (tables es)) c)
]

module _ (max_size : ℕ) (q : MemTableQueue) (shared : Shared) where
  pub try_launch_lem : try_launch_flush_to_disk max_size q shared ≡ (
      let (q', shared') = emplace_back q shared in
      let (job, shared'') = launch_flush_to_disk (back q.m_queue).mem_table shared' in
      if needs_flush_to_disk max_size (back q.m_queue).mem_table
      then (some job, q', shared'')
      else (none, q, shared))
  unfolding try_launch_flush_to_disk
  try_launch_lem = refl

  pub try_launch-layers :
      (k : Key)
      → lookup_layers k (tables (try_launch_flush_to_disk max_size q shared).1.m_queue)
        ≡ lookup_layers k (tables q.m_queue)
  try_launch-layers k =
      rw try_launch_lem
        (elim (Bool-cases (needs_flush_to_disk max_size (back q.m_queue).mem_table)) [
          | inl due ↦ rw due (emplace_back-layers k q shared)
          | inr room ↦ rw room
        ])
