-- ===== src/Tests/Storage.antt =====
-- Tables, their merges and their files.
use project_db.Common.{
  ◌≡◌, none, some, [], ◌∷◌, take, end_of_stream, ok, err, arith, ℕ, ◌+◌, ◌<◌, ◌++◌, length, Bytes,
}
use project_db.Key.{string_eq, beq, key_ord}
use project_db.Serializer.Streams.{ostream, istream, le_bytes}
use project_db.SsTable.{merge_ss_table}
use project_db.SsTable.Merge.{find-merge_ss_table}
use project_db.SsTable.Stored.{deserialize_entry, encode_entry, entry_cut_off}
use project_db.SsTableIndex.{SsTableIndex, new_index, get_potential_block_pos, seek_in}
use project_db.SsTableIndex.Blocks.{Answers}
use project_db.SsTableIndex.Search.{get_potential_block_pos-Answers}
use project_db.SsTableIndex.Seek.{Describes, seek_in-find}
use project_db.SsTableOps.{write_ss_table, load_ss_table}
use project_db.SsTableOps.Flush.{encode_ss_table, write_ss_table-Describes}
use project_db.SsTableOps.RoundTrip.{seek-write_ss_table, load-write_ss_table}
use project_db.StdMap.{find}
use project_db.Tests.Data.{
  key_a, key_b, key_c, old_table, new_table, old_table-IsSorted, new_table-IsSorted, old_table-Fits,
  old_index, old_index-IndexesFrom, old_index-Describes, old_table-written,
}
use project_db.Value.{tombstone, of_string, is_tombstone_value}
use project_db.Serializer.Sequences.{container_encode}
use project_db.Serializer.Strings.{encode_string}
use project_db.Value.Stored.{kind_code}
use project_db.Concepts.{pair_of, serialize_as, deserialize_as, serialize_as-deserialize_as}
use project_db.Concepts.Types.{meta_data_type, table_type}

find-merge_ss_table_example : find key_b (merge_ss_table old_table new_table).m_table ≡ none
unfolding find string_eq beq is_tombstone_value
find-merge_ss_table_example =
    find-merge_ss_table old_table new_table key_b old_table-IsSorted new_table-IsSorted

write_ss_table-Describes_example :
    (index : SsTableIndex) × (write_ss_table 30 old_table (ostream [])
      ≡ ok (index, ostream (encode_ss_table old_table)))
    × Describes index (encode_ss_table old_table) old_table.m_table
    × (index.m_ifs ≡ none)
write_ss_table-Describes_example = write_ss_table-Describes 30 old_table old_table-Fits.1

get_potential_block_pos-Answers_example :
    Answers key_b 16 old_table.m_table (get_potential_block_pos old_index key_b)
get_potential_block_pos-Answers_example =
    get_potential_block_pos-Answers old_index key_b 16 old_table.m_table old_table-IsSorted
      old_index-IndexesFrom

seek_in-find_example :
    seek_in old_index (some (encode_ss_table old_table)) key_b ≡ ok (some (of_string (b'2' ∷ [])))
unfolding find string_eq beq
seek_in-find_example =
    seek_in-find old_index (encode_ss_table old_table) old_table.m_table key_b old_index-Describes

seek-write_ss_table_example : seek_in old_index (some (encode_ss_table old_table)) key_c ≡ ok none
unfolding find string_eq beq
seek-write_ss_table_example =
    seek-write_ss_table 30 old_table key_c old_index (encode_ss_table old_table) old_table-Fits.1
      old_table-written

load-write_ss_table_example :
    (index' : SsTableIndex) × (load_ss_table 64 []
        (some (encode_ss_table old_table))
        (some new_index)
      ≡ ok (old_table, some index'))
    × (load_ss_table 64 [] (some (encode_ss_table old_table)) none ≡ ok (old_table, none))
    × (seek_in index' (some (encode_ss_table old_table)) key_a ≡ ok (find key_a old_table.m_table))
load-write_ss_table_example =
    load-write_ss_table 30 64 [] old_table key_a old_index (encode_ss_table old_table)
      old_table-Fits old_table-written

entry_cut_off_example :
    deserialize_entry (istream (take 20 (encode_entry (key_a, tombstone))) 0) ≡ err end_of_stream
unfolding kind_code encode_entry encode_string container_encode le_bytes
entry_cut_off_example = entry_cut_off (key_a, tombstone) 20 0 (omega arith) (omega arith)

-- A header and a table, which is a map, as a file of the database has them.
serialize_as-deserialize_as_example :
    (bytes : Bytes) × (serialize_as
        (pair_of meta_data_type table_type)
        (old_table.m_meta_data, old_table.m_table)
        (ostream [])
      ≡ ok (ostream bytes))
    × ((rest : Bytes) (pos : ℕ)
        → deserialize_as (pair_of meta_data_type table_type) (istream (bytes ++ rest) pos)
          ≡ ok ((old_table.m_meta_data, old_table.m_table), istream rest (pos + length bytes)))
    × ((n pos : ℕ)
        → n < length bytes
        → deserialize_as (pair_of meta_data_type table_type) (istream (take n bytes) pos)
          ≡ err end_of_stream)
unfolding kind_code
serialize_as-deserialize_as_example =
    serialize_as-deserialize_as (pair_of meta_data_type table_type)
      (old_table.m_meta_data, old_table.m_table)
      ((omega arith, tt), (omega arith, (omega arith, (omega arith, tt)), old_table-IsSorted))
