-- ===== src/SsTableOps.antt =====
-- db/sstable_ops.cpp: writing a table to a file and reading it back, with the index of its blocks.
pub mod Extend
pub mod Flush
pub mod LoadLoop
pub mod Load
pub mod RoundTrip
pub mod Disk
use mathlib.Core.Option
use project_db.Common.{
  ℕ, true, false, not, ◌&&◌, Option, none, some, [], Bytes, Result, ok, ◌>>=◌, ltb, if◌then◌else◌,
}
use project_db.Key.{Key}
use project_db.Serializer.Containers.{
  IndexBuilder, container_serialize_indexed, container_deserialize_indexed,
}
use project_db.Serializer.Streams.{
  OStream, tellp, open_istream, trivial_serialize, trivial_deserialize, Serialize, Deserialize,
  user_serialize, user_deserialize, ostream,
}
use project_db.SsTable.{SsTableMetaData, SsTable}
use project_db.SsTable.Stored.{insert_entry, serialize_entry, deserialize_entry, last_entry}
use project_db.SsTableIndex.{
  SsTableIndex, new_index, set_ss_table_file_name, add_index, set_eof_pos,
}
use project_db.Value.{Value}
use project_db.FileSystem.{FileSystem, write_file, remove_files_with_ext}
use project_db.FileSystem.Names.{deprecated_file_ext}

-- `SerializationWrapper<SSTableMetaData>`: the `int64_t` of the time stamp, as its bit pattern
unfoldable pub serialize_meta_data : Serialize SsTableMetaData
unfolding user_serialize trivial_serialize
serialize_meta_data =
    user_serialize (λ meta_data os. trivial_serialize 8 meta_data.m_ms_since_epoch os)

unfoldable pub deserialize_meta_data : Deserialize SsTableMetaData
unfolding user_deserialize trivial_deserialize
deserialize_meta_data =
    user_deserialize
      λ is. do (ms, is') ← trivial_deserialize 8 is; ok (record { m_ms_since_epoch = ms }, is')

-- The index builder of `flushSSTable`; `block_size` is SSTABLE_INDEX_BLOCK_SIZE_IN_BYTES.
unfoldable pub try_build_index : ℕ → IndexBuilder (Key × Value) SsTableIndex
unfolding add_index
try_build_index block_size entry pos curr_block_size is_first_or_last_entry index =
    if not is_first_or_last_entry && ltb curr_block_size block_size
    then (index, false)
    else (add_index index entry.0 pos, true)

-- The index builder of `loadSSTable`, which may be called with a null index.
unfoldable pub try_load_index : ℕ → IndexBuilder (Key × Value) (Option SsTableIndex)
unfolding add_index
try_load_index block_size entry pos curr_block_size is_first_or_last_entry none = (none, false)
try_load_index block_size entry pos curr_block_size is_first_or_last_entry (some index) =
    if not is_first_or_last_entry && ltb curr_block_size block_size
    then (some index, false)
    else (some (add_index index entry.0 pos), true)

-- What `flushSSTable` writes to its stream, and the index that it returns, without the file name.
unfoldable pub write_ss_table : ℕ → SsTable → OStream → Result (SsTableIndex × OStream)
unfolding serialize_meta_data container_serialize_indexed serialize_entry
write_ss_table block_size ss_table os = do
  os' ← serialize_meta_data ss_table.m_meta_data os
  (index, os'') ←
      container_serialize_indexed serialize_entry (try_build_index block_size) ss_table.m_table
        new_index os'
  ok (set_eof_pos index (tellp os''), os'')

-- The stream is closed and the file is there when the index is returned.
unfoldable pub flush_ss_table :
    ℕ → SsTable → Bytes → FileSystem → Result (SsTableIndex × FileSystem)
unfolding write_ss_table remove_files_with_ext write_file
flush_ss_table block_size ss_table file_name fs = do
  let cleaned = remove_files_with_ext deprecated_file_ext fs
  (index, os) ← write_ss_table block_size ss_table (ostream [])
  ok (set_ss_table_file_name index file_name, write_file file_name os.content cleaned)

abbrev pub close_index : Bytes → ℕ → SsTableIndex → SsTableIndex
close_index name eof_pos index = set_ss_table_file_name (set_eof_pos index eof_pos) name

-- `file` is what the file system holds under `ss_table_file_name`.
unfoldable pub load_ss_table :
    ℕ → Bytes → Option Bytes → Option SsTableIndex → Result (SsTable × Option SsTableIndex)
unfolding deserialize_meta_data container_deserialize_indexed deserialize_entry
load_ss_table block_size ss_table_file_name file ss_table_index = do
  (meta_data, is) ← deserialize_meta_data (open_istream file)
  (table, index, is') ←
      container_deserialize_indexed deserialize_entry insert_entry last_entry
        (try_load_index block_size) [] ss_table_index is
  ok (
    record { m_meta_data = meta_data; m_table = table },
    Option.map (close_index ss_table_file_name is'.pos) index,
  )
