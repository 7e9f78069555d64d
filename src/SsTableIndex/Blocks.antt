-- ===== src/SsTableIndex/Blocks.antt =====
-- What an index says of the entries of a file, and what the search in it returns.
use project_db.Common.{
  ℕ, ◌+◌, ◌≡◌, refl, ap, ◌≢◌, ◌⊎◌, inl, inr, Option, none, some, [], ◌∷◌, ◌++◌, arith, length,
  length-append,
}
use project_db.Key.{Key, key_ord}
use project_db.Serializer.Sequences.{encode_all}
use project_db.SsTable.{Table}
use project_db.SsTable.Stored.{encode_entry, entry_codec}
use project_db.SsTableIndex.{next_pos}
use project_db.StdMap.{StdMap, find}

-- `entries_length t` bytes hold the entries of `t`.
abbrev pub entries_length : Table → ℕ
entries_length t = length (encode_all entry_codec t)

-- `idx` indexes the entries `t` that stand from `pos` to `eof`: each index entry is an entry's key
-- and position, and the last entry is indexed.
abbrev pub Indexed : ℕ → ℕ → Table → StdMap Key ℕ → Type 0
Indexed eof pos [] idx = (pos ≡ eof) × (idx ≡ [])
Indexed eof pos ((k, v) ∷ t) idx =
    ((rest : StdMap Key ℕ) × (idx ≡ (k, pos) ∷ rest)
      × Indexed eof (pos + length (encode_entry (k, v))) t rest)
    ⊎ ((t ≢ []) × Indexed eof (pos + length (encode_entry (k, v))) t idx)

-- The first entry is indexed too.
abbrev pub IndexesFrom : ℕ → ℕ → Table → StdMap Key ℕ → Type 0
IndexesFrom eof pos [] idx = (pos ≡ eof) × (idx ≡ [])
IndexesFrom eof pos ((k, v) ∷ t) idx =
    (rest : StdMap Key ℕ) × (idx ≡ (k, pos) ∷ rest)
    × Indexed eof (pos + length (encode_entry (k, v))) t rest

-- A block of the entries `t`, which stand from `pos`, that has all that `t` says of `k`.
pub record IsBlock (k : Key) (pos : ℕ) (t : Table) (start end : ℕ) : Type 0 where
  pub before : Table
  pub block : Table
  pub after : Table
  pub parts : t ≡ before ++ (block ++ after)
  pub starts : start ≡ pos + entries_length before
  pub ends : end ≡ start + entries_length block
  pub same : find k t ≡ find k block

-- What the search may answer: no block only if the key is not there.
abbrev pub Answers : Key → ℕ → Table → Option (ℕ × ℕ) → Type 0
Answers k pos t none = find k t ≡ none
Answers k pos t (some (start, end)) = IsBlock k pos t start end

-- The next index entry, or the end of the file, ends a run of entries.
pub next_block :
    (eof pos : ℕ) (t : Table) (idx : StdMap Key ℕ)
    → Indexed eof pos t idx
    → (c post : Table) × (t ≡ c ++ post) × (next_pos idx eof ≡ pos + entries_length c)
next_block eof pos [] idx (e, i) = ([], [], refl, rw i (omega arith))
next_block eof pos ((k, v) ∷ t) idx (inl (rest, i, h)) = ([], (k, v) ∷ t, refl, rw i (omega arith))
next_block eof pos ((k, v) ∷ t) idx (inr (more, h)) =
    let (c, post, e, n) = next_block eof (pos + length (encode_entry (k, v))) t idx h in
    (
      (k, v) ∷ c,
      post,
      ap (◌∷◌ (k, v)) e,
      omega (arith, n, length-append (encode_entry (k, v)) (encode_all entry_codec c)),
    )
