-- ===== src/SsTableIndexQueue/Lookup.antt =====
-- `get` finds in a queue of tables what the newest table that holds the key says.
use project_db.Common.{
  ◌≡◌, Bool, some, List, [], ◌∷◌, Bytes, refl, ok, ◌⊎◌, inl, inr, true, false, Option, none, sym,
  ◌∙◌, ap, ◌++◌, append-nil, append_assoc,
}
use project_db.FileSystem.{FileSystem, file_content}
use project_db.SsTable.{Table}
use project_db.SsTableIndex.{SsTableIndex, keep_open, seek_file, seek}
use project_db.SsTableIndex.Seek.{Describes, seek_in-find}
use project_db.Compaction.Layers.{or_older, lookup_layers, lookup_layers-append}
use project_db.Key.{Key, key_ord}
use project_db.SsTableIndexQueue.{SsTableIndexQueue, reverse, get_loop, get, insert, get_round}
use project_db.StdMap.{find}
use project_db.Value.{Value}
use mathlib.Core.Path.{subst}

-- The file that `seek` reads for this index holds the table and is described by the index.
abbrev pub Serves : Bool → FileSystem → SsTableIndex → Table → Type 0
Serves keep_open fs index t =
    (file : Bytes) × Describes index file t
    × (seek_file keep_open (file_content fs index.m_ss_table_file_name) index ≡ some file)

abbrev pub AllServe : Bool → FileSystem → List SsTableIndex → List Table → Type 0
AllServe keep_open fs [] [] = Unit {0}
AllServe keep_open fs (i ∷ is) (t ∷ ts) = Serves keep_open fs i t × AllServe keep_open fs is ts
AllServe keep_open fs _ _ = ⊥

Describes-m_ifs :
    {index : SsTableIndex} {file : Bytes} {t : Table} (m : Option (Option Bytes))
    → Describes index file t
    → Describes (record index { m_ifs = m }) file t
Describes-m_ifs m d = record {
  header = d.header;
  content = d.content;
  indexes = d.indexes;
  sorted = d.sorted;
  fits = d.fits;
}

open-cases : (o : Option (Option Bytes)) → (o ≡ none) ⊎ ((f : Option Bytes) × (o ≡ some f))
open-cases none = inl refl
open-cases (some f) = inr (f, refl)

Describes-keep_open :
    {index : SsTableIndex} {file : Bytes} {t : Table} (keep : Bool) (f : Option Bytes)
    → Describes index file t
    → Describes (keep_open keep f index) file t
unfolding keep_open
Describes-keep_open false f d = d
Describes-keep_open {index} true f d = elim (open-cases index.m_ifs) [
  | inl n ↦ rw (n, keep_open) (Describes-m_ifs _ d)
  | inr (g, o) ↦ rw (o, keep_open) d
]

-- Before a file is opened, `seek` reads it under its name.
first_open :
    (index : SsTableIndex) (file : Option Bytes)
    → index.m_ifs ≡ none
    → seek_file true file index ≡ file
unfolding seek_file
first_open index file n = rw (n, seek_file)

value-cases : (o : Option Value) → (o ≡ none) ⊎ ((v : Value) × (o ≡ some v))
value-cases none = inl refl
value-cases (some v) = inr (v, refl)

module _ (k : Key) (fs : FileSystem) where
  -- Opening the file leaves the index as it is.
  Serves-keep_open :
      (keep : Bool) (index : SsTableIndex) (t : Table)
      → Serves keep fs index t
      → Serves keep fs (keep_open keep (file_content fs index.m_ss_table_file_name) index) t
  unfolding keep_open seek_file
  Serves-keep_open false index t s = s
  Serves-keep_open true index t (file, d, e) = elim (open-cases index.m_ifs) [
    | inl n ↦
        (file, Describes-keep_open true _ d, rw (n, keep_open) (sym (first_open index _ n) ∙ e))
    | inr (f, o) ↦ (file, Describes-keep_open true _ d, rw (o, keep_open) e)
  ]

  seek-Serves :
      (keep : Bool) (index : SsTableIndex) (t : Table)
      → Serves keep fs index t
      → let file = file_content fs index.m_ss_table_file_name in
        seek keep file index k ≡ (ok (find k t), keep_open keep file index)
  unfolding seek
  seek-Serves keep index t (file, d, e) = rw (
    e,
    seek_in-find (keep_open keep (file_content fs index.m_ss_table_file_name) index) file t k
        (Describes-keep_open keep _ d),
  )

  get_loop_lem :
      (keep : Bool) (it : SsTableIndex) (older : List SsTableIndex)
      → get_loop keep fs k (it ∷ older)
        ≡ get_round
            (seek keep (file_content fs it.m_ss_table_file_name) it k)
            older
            (get_loop keep fs k older)
  unfolding get_loop
  get_loop_lem keep it older = refl

  get_loop-Serves :
      (keep : Bool) (newest_first : List SsTableIndex) (ts : List Table)
      → AllServe keep fs newest_first ts
      → ((get_loop keep fs k newest_first).0 ≡ ok (lookup_layers k (reverse ts)))
        × AllServe keep fs (get_loop keep fs k newest_first).1 ts
  unfolding lookup_layers get_round get_loop
  get_loop-Serves keep [] [] s = (refl, tt)
  get_loop-Serves keep (i ∷ is) (t ∷ ts) (s, ss) =
      let (same, serve) = get_loop-Serves keep is ts ss in
      let opened = Serves-keep_open keep i t s in
      rw
        (
          lookup_layers-append k (reverse ts) (t ∷ []),
          get_loop_lem keep i is,
          seek-Serves keep i t s,
        )
        (elim (value-cases (find k t)) [
          | inl n ↦ rw n (same, (opened, serve))
          | inr (v, y) ↦ rw y (refl, (opened, ss))
        ])
  get_loop-Serves keep [] (t ∷ ts) s = absurd s
  get_loop-Serves keep (i ∷ is) [] s = absurd s

pub AllServe-append :
    (keep : Bool) (fs : FileSystem) (is js : List SsTableIndex) (ts us : List Table)
    → AllServe keep fs is ts
    → AllServe keep fs js us
    → AllServe keep fs (is ++ js) (ts ++ us)
AllServe-append keep fs [] js [] us s r = r
AllServe-append keep fs (i ∷ is) js (t ∷ ts) us (h, s) r =
    (h, AllServe-append keep fs is js ts us s r)
AllServe-append keep fs [] js (t ∷ ts) us s r = absurd s
AllServe-append keep fs (i ∷ is) js [] us s r = absurd s

AllServe-reverse :
    (keep : Bool) (fs : FileSystem) (is : List SsTableIndex) (ts : List Table)
    → AllServe keep fs is ts
    → AllServe keep fs (reverse is) (reverse ts)
AllServe-reverse keep fs [] [] s = tt
AllServe-reverse keep fs (i ∷ is) (t ∷ ts) (h, s) =
    AllServe-append keep fs (reverse is) (i ∷ []) (reverse ts) (t ∷ [])
      (AllServe-reverse keep fs is ts s) (h, tt)
AllServe-reverse keep fs [] (t ∷ ts) s = absurd s
AllServe-reverse keep fs (i ∷ is) [] s = absurd s

reverse-append : {A : Type 0} (xs ys : List A) → reverse (xs ++ ys) ≡ reverse ys ++ reverse xs
reverse-append [] ys = sym (append-nil (reverse ys))
reverse-append (x ∷ xs) ys =
    rw (reverse-append xs ys) (append_assoc (reverse ys) (reverse xs) (x ∷ []))

reverse_twice : {A : Type 0} (xs : List A) → reverse (reverse xs) ≡ xs
reverse_twice [] = refl
reverse_twice (x ∷ xs) = rw (reverse-append (reverse xs) (x ∷ []), reverse_twice xs)

-- When the files are there and the indexes describe them, `get` finds of every key what the newest
-- table that holds it says, whether or not files are kept open, and the queue that it leaves, with
-- its open files, serves the same tables.
pub get-lookup_layers :
    (keep : Bool) (fs : FileSystem) (q : SsTableIndexQueue) (ts : List Table) (k : Key)
    → AllServe keep fs q.m_queue ts
    → ((get keep fs q k).0 ≡ ok (lookup_layers k ts))
      × AllServe keep fs (get keep fs q k).1.m_queue ts
unfolding get
get-lookup_layers keep fs q ts k s =
    let (same, serve) =
      get_loop-Serves k fs keep (reverse q.m_queue) (reverse ts)
        (AllServe-reverse keep fs q.m_queue ts s) in
    (
      subst (λ xs. (get_loop keep fs k (reverse q.m_queue)).0 ≡ ok (lookup_layers k xs))
          (reverse_twice ts) same,
      subst (λ xs. AllServe keep fs (reverse (get_loop keep fs k (reverse q.m_queue)).1) xs)
          (reverse_twice ts) (AllServe-reverse keep fs _ _ serve),
    )

-- When the indexes of the queue and a further one serve tables, then after `insert` of that index a
-- lookup finds of every key what its table says, and what the others say if that is nothing.
pub get-insert :
    (keep : Bool) (fs : FileSystem) (q : SsTableIndexQueue) (ts : List Table) (index : SsTableIndex)
    (t : Table) (k : Key)
    → AllServe keep fs q.m_queue ts
    → Serves keep fs index t
    → (get keep fs (insert q index) k).0 ≡ ok (or_older (find k t) (lookup_layers k ts))
unfolding insert lookup_layers
get-insert keep fs q ts index t k s i =
    (get-lookup_layers keep fs (insert q index) (ts ++ t ∷ []) k
      (AllServe-append keep fs q.m_queue (index ∷ []) ts (t ∷ []) s (i, tt))).0
    ∙ ap ok (lookup_layers-append k ts (t ∷ []))
