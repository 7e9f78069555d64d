-- ===== src/SsTableIndex.antt =====
-- The class `SSTableIndex` (db/sstable_index.h, db/sstable_index.cpp): where the blocks of an
-- SSTable file begin.
pub mod Blocks
pub mod Search
pub mod Seek
use mathlib.Core.Option
use project_db.Common.{
  ℕ, Bool, true, false, Option, none, some, [], ◌∷◌, Bytes, Result, ok, ◌>>=◌, if◌then◌else◌,
}
use project_db.Key.{Key, less, beq, key_ord}
use project_db.Serializer.Containers.{deserialize_block}
use project_db.SsTable.Stored.{insert_entry, deserialize_entry}
use project_db.StdMap.{StdMap, find, insert_or_assign}
use project_db.Value.{Value}

pub record SsTableIndex : Type 0 where
  pub m_ss_table_file_name : Bytes
  pub m_index : StdMap Key ℕ
  pub m_eof_pos : ℕ
  -- the file behind the stream that is kept open
  pub m_ifs : Option (Option Bytes)

abbrev pub new_index : SsTableIndex
new_index = record { m_ss_table_file_name = []; m_index = []; m_eof_pos = 0; m_ifs = none }

abbrev pub set_ss_table_file_name : SsTableIndex → Bytes → SsTableIndex
set_ss_table_file_name index name = record index { m_ss_table_file_name = name }

unfoldable pub add_index : SsTableIndex → Key → ℕ → SsTableIndex
add_index index key pos = record index { m_index = insert_or_assign key pos index.m_index }

abbrev pub set_eof_pos : SsTableIndex → ℕ → SsTableIndex
set_eof_pos index eof_pos = record index { m_eof_pos = eof_pos }

-- The position of the next index entry, or the end of the file.
abbrev pub next_pos : StdMap Key ℕ → ℕ → ℕ
next_pos [] eof_pos = eof_pos
next_pos ((k, pos) ∷ rest) eof_pos = pos

-- The loop over the index; `prev` is the position of the entry before, if there is one.
unfoldable pub block_pos_loop : Key → ℕ → Option ℕ → StdMap Key ℕ → Option (ℕ × ℕ)
block_pos_loop key eof_pos prev [] = none
block_pos_loop key eof_pos prev ((k, pos) ∷ rest) =
    let later = block_pos_loop key eof_pos (some pos) rest in
    if beq key k
    then some (pos, next_pos rest eof_pos)
    else if less key k
    then Option.map (λ start. (start, pos)) prev
    else later

unfoldable pub get_potential_block_pos : SsTableIndex → Key → Option (ℕ × ℕ)
unfolding block_pos_loop
get_potential_block_pos index key = block_pos_loop key index.m_eof_pos none index.m_index

-- Opens the file for `KEEP_SSTABLE_FILE_OPEN`; `file` is what the file system holds under the name.
unfoldable pub keep_open : Bool → Option Bytes → SsTableIndex → SsTableIndex
keep_open false file index = index
keep_open true file index = elim index.m_ifs [
  | none ↦ record index { m_ifs = some file }
  | some f ↦ index
]

-- The file that `seek` reads.
unfoldable pub seek_file : Bool → Option Bytes → SsTableIndex → Option Bytes
seek_file false file index = file
seek_file true file index = elim index.m_ifs [ none ↦ file | some f ↦ f ]

unfoldable pub seek_in : SsTableIndex → Option Bytes → Key → Result (Option Value)
unfolding get_potential_block_pos deserialize_block deserialize_entry
seek_in index file key = elim (get_potential_block_pos index key) [
  | none ↦ ok none
  | some (start, end) ↦ do
    partial ← deserialize_block deserialize_entry insert_entry [] file start end
    ok (find key partial)
]

unfoldable pub seek :
    Bool → Option Bytes → SsTableIndex → Key → Result (Option Value) × SsTableIndex
unfolding keep_open seek_file seek_in
seek keep_ss_table_file_open file index key =
    let index' = keep_open keep_ss_table_file_open file index in
    (seek_in index' (seek_file keep_ss_table_file_open file index) key, index')
