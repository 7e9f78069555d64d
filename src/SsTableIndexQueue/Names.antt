-- ===== src/SsTableIndexQueue/Names.antt =====
-- A lookup may open files, and leaves the names of the indexes.
use project_db.Common.{
  inl, inr, Bool, true, false, Option, none, some, List, [], ◌∷◌, All, All-append, Bytes, Result,
  ok, err, Option-cases,
}
use project_db.FileSystem.{FileSystem, file_content}
use project_db.Key.{Key}
use project_db.SsTableIndex.{SsTableIndex, keep_open, seek}
use project_db.SsTableIndexQueue.{get, SsTableIndexQueue, reverse, get_round, get_loop}
use project_db.Value.{Value}

All-reverse {ℓ κ} : {A : Type ℓ} (P : A → Type κ) (xs : List A) → All P xs → All P (reverse xs)
All-reverse P [] h = tt
All-reverse P (x ∷ xs) (h, hs) = All-append P (reverse xs) (x ∷ []) (All-reverse P xs hs) (h, tt)

module _ (P : Bytes → Type 0) where
  abbrev IsNamed : SsTableIndex → Type 0
  IsNamed index = P index.m_ss_table_file_name

  keep_open-IsNamed :
      (keep : Bool) (file : Option Bytes) (index : SsTableIndex)
      → IsNamed index
      → IsNamed (keep_open keep file index)
  unfolding keep_open
  keep_open-IsNamed false file index h = h
  keep_open-IsNamed true file index h = elim (Option-cases index.m_ifs) [
    | inl n ↦ rw (n, keep_open) h
    | inr (f, o) ↦ rw (o, keep_open) h
  ]

  seek-IsNamed :
      (keep : Bool) (file : Option Bytes) (index : SsTableIndex) (k : Key)
      → IsNamed index
      → IsNamed (seek keep file index k).1
  unfolding seek
  seek-IsNamed keep file index k h = keep_open-IsNamed keep file index h

  get_round-IsNamed :
      (found : Result (Option Value) × SsTableIndex) (older : List SsTableIndex)
      (rest : Result (Option Value) × List SsTableIndex)
      → IsNamed found.1
      → All IsNamed older
      → All IsNamed rest.1
      → All IsNamed (get_round found older rest).1
  unfolding get_round
  get_round-IsNamed (ok none, it) older rest h hs hr = (h, hr)
  get_round-IsNamed (ok (some v), it) older rest h hs hr = (h, hs)
  get_round-IsNamed (err e, it) older rest h hs hr = (h, hs)

  get_loop-IsNamed :
      (keep : Bool) (fs : FileSystem) (k : Key) (is : List SsTableIndex)
      → All IsNamed is
      → All IsNamed (get_loop keep fs k is).1
  unfolding get_loop
  get_loop-IsNamed keep fs k [] h = tt
  get_loop-IsNamed keep fs k (i ∷ is) (h, hs) =
      get_round-IsNamed (seek keep (file_content fs i.m_ss_table_file_name) i k) is
        (get_loop keep fs k is) (seek-IsNamed keep (file_content fs i.m_ss_table_file_name) i k h)
        hs (get_loop-IsNamed keep fs k is hs)

  -- What holds of the names holds of them after a lookup.
  pub get-IsNamed :
      (keep : Bool) (fs : FileSystem) (q : SsTableIndexQueue) (k : Key)
      → All (λ i. P i.m_ss_table_file_name) q.m_queue
      → All (λ i. P i.m_ss_table_file_name) (get keep fs q k).1.m_queue
  unfolding get
  get-IsNamed keep fs q k h =
      All-reverse IsNamed _
        (get_loop-IsNamed keep fs k (reverse q.m_queue) (All-reverse IsNamed q.m_queue h))
