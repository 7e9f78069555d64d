-- ===== src/Compaction/DiskRounds.antt =====
-- The rounds of a compaction, on tables and on files.
use project_db.Common.{
  ℕ, ◌+◌, ◌<◌, ◌≡◌, refl, ◌∙◌, List, [], ◌∷◌, arith, Result, ok, sym, false, Bytes, ltb, true, not,
  ◌&&◌, none, some, Bool, Option,
}
use project_db.Compaction.{MergedTable, merge_rounds, SourceTable}
use project_db.Compaction.Disk.{
  merge_files_loop, load_source, flush_merged, Group, next_is_end, merge_into, merge_round,
}
use project_db.Compaction.Written.{RiseFrom, WrittenAs, Written, Untouched, WrittenAs-Untouched}
use project_db.FileSystem.{FileSystem}
use project_db.FileSystem.Names.{gen_ss_table_file_name}
use project_db.SsTable.{SsTable, merge_ss_table}
use project_db.SsTableIndex.{SsTableIndex}
use mathlib.Core.Path.{subst}

-- What the rounds leave: the merged tables in their files, and the other files as they were.
abbrev pub RoundsLeave :
    ℕ
    → List (ℕ × SsTable)
    → FileSystem
    → List MergedTable
    → Result (List SsTableIndex × FileSystem)
    → Type 0
RoundsLeave c ss fs merged result =
    (is : List SsTableIndex) × (fs' : FileSystem) × (result ≡ ok (is, fs'))
    × Written fs' merged is
    × Untouched c ss fs fs'

-- A group is written, and then the next ones.
pub next_group :
    (c d : ℕ) (t next after : SsTable) (c' : ℕ) (rest : List (ℕ × SsTable)) (fs fs₁ : FileSystem)
    (index : SsTableIndex) (merged : List MergedTable) (others : List SsTableIndex)
    (fs' : FileSystem)
    → c < c'
    → c' < d
    → RiseFrom d rest
    → WrittenAs fs₁ (record { base_name = gen_ss_table_file_name c; content = t }) index
    → Untouched c [] fs fs₁
    → Written fs' merged others
    → Untouched d rest fs₁ fs'
    → Written fs'
        (record { base_name = gen_ss_table_file_name c; content = t } ∷ merged)
        (index ∷ others)
      × Untouched c ((c', next) ∷ (d, after) ∷ rest) fs fs'
next_group c d t next after c' rest fs fs₁ index merged others fs' lt lt' rise now frame later
      frame' =
    (
      (
        WrittenAs-Untouched c d rest t index fs₁ fs' (omega (arith, lt, lt')) rise frame' now,
        later,
      ),
      λ name ne (ne_next, (ne_after, ne_rest)) live.
          frame' name ne_after ne_rest live ∙ frame name ne tt live,
    )

-- The group goes on.
pub go_on :
    (c d : ℕ) (t : SsTable) (ss : List (ℕ × SsTable)) (fs : FileSystem)
    (merged merged' : List MergedTable) (result result' : Result (List SsTableIndex × FileSystem))
    → merged' ≡ merged
    → result' ≡ result
    → RoundsLeave c ss fs merged result
    → RoundsLeave c ((d, t) ∷ ss) fs merged' result'
go_on c d t ss fs merged merged' result result' same_tables same_files
      (is, fs', runs, written, frame) =
    (
      is,
      fs',
      same_files ∙ runs,
      subst (λ ms. Written fs' ms is) (sym same_tables) written,
      λ name ne (_, later) live. frame name ne later live,
    )

abbrev pub group_of : ℕ → SsTable → ℕ → Group
group_of c t size = record {
  base_name = gen_ss_table_file_name c;
  curr_table = t;
  curr_table_size = size;
}

module _ (block_size max_size : ℕ) where
  pub rounds_on :
      (base_name : Bytes) (curr : SsTable) (size : ℕ) (next after : SourceTable)
      (rest : List SourceTable)
      → ltb max_size (size + next.file_size) ≡ false
      → merge_rounds max_size base_name curr size next (after ∷ rest)
        ≡ merge_rounds max_size base_name
            (merge_ss_table curr next.content)
            (size + next.file_size)
            after
            rest
  unfolding merge_rounds
  rounds_on base_name curr size next after [] h = rw h refl
  rounds_on base_name curr size next after (third ∷ rest) h = rw h refl

  round_on :
      (at_end : Bool) (group : Group) (fs : FileSystem)
      (loop : Option Group → FileSystem → Result (List SsTableIndex × FileSystem)) (t : SsTable)
      (next_size : ℕ)
      → (not at_end && ltb max_size (group.curr_table_size + next_size)) ≡ false
      → merge_round block_size max_size at_end group fs loop (t, next_size)
        ≡ loop (some (merge_into group t next_size)) fs
  unfolding merge_round
  round_on at_end group fs loop t next_size h = rw (h, merge_round) refl

  round_close :
      (at_end : Bool) (group : Group) (fs fs₁ fs₂ : FileSystem)
      (loop : Option Group → FileSystem → Result (List SsTableIndex × FileSystem)) (t : SsTable)
      (next_size : ℕ) (index : SsTableIndex) (others : List SsTableIndex)
      → (not at_end && ltb max_size (group.curr_table_size + next_size)) ≡ true
      → flush_merged block_size (merge_ss_table group.curr_table t) group.base_name fs
        ≡ ok (index, fs₁)
      → loop none fs₁ ≡ ok (others, fs₂)
      → merge_round block_size max_size at_end group fs loop (t, next_size)
        ≡ ok (index ∷ others, fs₂)
  unfolding merge_round
  round_close at_end group fs fs₁ fs₂ loop t next_size index others h flushed done =
      rw (h, merge_round) (rw flushed (rw done refl))

  pub rounds_close_two :
      (base_name : Bytes) (curr : SsTable) (size : ℕ) (next after : SourceTable)
      → ltb max_size (size + next.file_size) ≡ true
      → merge_rounds max_size base_name curr size next (after ∷ [])
        ≡ record { base_name = base_name; content = merge_ss_table curr next.content }
          ∷ record { base_name = after.name; content = after.content }
          ∷ []
  unfolding merge_rounds
  rounds_close_two base_name curr size next after h = rw h refl

  pub rounds_close :
      (base_name : Bytes) (curr : SsTable) (size : ℕ) (next after third : SourceTable)
      (rest : List SourceTable)
      → ltb max_size (size + next.file_size) ≡ true
      → merge_rounds max_size base_name curr size next (after ∷ third ∷ rest)
        ≡ record { base_name = base_name; content = merge_ss_table curr next.content }
          ∷ merge_rounds max_size after.name after.content after.file_size third rest
  unfolding merge_rounds
  rounds_close base_name curr size next after third rest h = rw h refl

  pub files_on :
      (c : ℕ) (curr : SsTable) (size : ℕ) (next : Bytes) (rest : List Bytes) (fs : FileSystem)
      (t : SsTable) (next_size : ℕ)
      → load_source block_size fs next ≡ ok (t, next_size)
      → (not (next_is_end rest) && ltb max_size (size + next_size)) ≡ false
      → merge_files_loop block_size max_size (some (group_of c curr size)) (next ∷ rest) fs
        ≡ merge_files_loop block_size max_size
            (some (group_of c (merge_ss_table curr t) (size + next_size)))
            rest
            fs
  unfolding merge_files_loop
  files_on c curr size next rest fs t next_size loaded h = rw loaded (
      round_on (next_is_end rest) (group_of c curr size) fs
        (λ group' fs'. merge_files_loop block_size max_size group' rest fs') t next_size h)

  pub files_close :
      (c : ℕ) (curr : SsTable) (size : ℕ) (next : Bytes) (rest : List Bytes)
      (fs fs₁ fs₂ : FileSystem) (t : SsTable) (next_size : ℕ) (index : SsTableIndex)
      (others : List SsTableIndex)
      → load_source block_size fs next ≡ ok (t, next_size)
      → (not (next_is_end rest) && ltb max_size (size + next_size)) ≡ true
      → flush_merged block_size (merge_ss_table curr t) (gen_ss_table_file_name c) fs
        ≡ ok (index, fs₁)
      → merge_files_loop block_size max_size none rest fs₁ ≡ ok (others, fs₂)
      → merge_files_loop block_size max_size (some (group_of c curr size)) (next ∷ rest) fs
        ≡ ok (index ∷ others, fs₂)
  unfolding merge_files_loop
  files_close c curr size next rest fs fs₁ fs₂ t next_size index others loaded full flushed done =
      rw loaded (
        round_close (next_is_end rest) (group_of c curr size) fs fs₁ fs₂
          (λ group' fs'. merge_files_loop block_size max_size group' rest fs') t next_size index
          others full flushed done)

  pub files_end :
      (c : ℕ) (curr : SsTable) (size : ℕ) (fs fs₁ : FileSystem) (index : SsTableIndex)
      → flush_merged block_size curr (gen_ss_table_file_name c) fs ≡ ok (index, fs₁)
      → merge_files_loop block_size max_size (some (group_of c curr size)) [] fs
        ≡ ok (index ∷ [], fs₁)
  unfolding merge_files_loop
  files_end c curr size fs fs₁ index flushed = rw flushed refl

  pub files_begin :
      (c : ℕ) (t : SsTable) (size : ℕ) (rest : List Bytes) (fs : FileSystem)
      → load_source block_size fs (gen_ss_table_file_name c) ≡ ok (t, size)
      → merge_files_loop block_size max_size none (gen_ss_table_file_name c ∷ rest) fs
        ≡ merge_files_loop block_size max_size (some (group_of c t size)) rest fs
  unfolding merge_files_loop
  files_begin c t size rest fs loaded = rw loaded refl
