-- ===== src/Tests/Data.antt =====
-- Concrete data.
use project_db.Common.{[], ◌∷◌, arith, refl, ◌≡◌, inl, ok, Bytes}
use project_db.Key.{Key, string_less, less, key_ord}
use project_db.SsTable.{SsTable, of_table}
use project_db.SsTableOps.Load.{SsTableFits}
use project_db.StdMap.{IsSorted, insert_or_assign}
use project_db.Value.{tombstone, of_string}
use project_db.Value.Stored.{kind_code, serialize_value}
use project_db.Serializer.Sequences.{container_encode}
use project_db.Serializer.Streams.{ostream, le_bytes, pair_serialize}
use project_db.Serializer.Strings.{encode_string}
use project_db.SsTable.Stored.{encode_entry}
use project_db.SsTableIndex.{SsTableIndex, new_index}
use project_db.SsTableIndex.Blocks.{IndexesFrom}
use project_db.SsTableIndex.Seek.{Describes}
use project_db.SsTableOps.{write_ss_table, try_build_index}
use project_db.SsTableOps.Flush.{file_header, encode_ss_table}
use project_db.Key.Stored.{serialize_key}
use project_db.Serializer.Containers.{container_serialize}

abbrev pub key_a : Key
key_a = record { m_key = b'a' ∷ [] }

abbrev pub key_b : Key
key_b = record { m_key = b'b' ∷ [] }

abbrev pub key_c : Key
key_c = record { m_key = b'c' ∷ [] }

abbrev pub old_table : SsTable
old_table = of_table 7 ((key_a, of_string (b'1' ∷ [])) ∷ (key_b, of_string (b'2' ∷ [])) ∷ [])

abbrev pub new_table : SsTable
new_table = of_table 8 ((key_b, tombstone) ∷ (key_c, of_string (b'3' ∷ [])) ∷ [])

pub old_table-IsSorted : IsSorted old_table.m_table
unfolding less string_less
old_table-IsSorted = ((refl, tt), (tt, tt))

pub new_table-IsSorted : IsSorted new_table.m_table
unfolding less string_less
new_table-IsSorted = ((refl, tt), (tt, tt))

pub old_table-Fits : SsTableFits old_table
unfolding kind_code
old_table-Fits = (omega arith, (omega arith, omega arith, old_table-IsSorted))

-- The index of the file of `old_table`, with each entry in a block of its own.
abbrev pub old_index : SsTableIndex
old_index = record new_index { m_index = (key_a, 16) ∷ (key_b, 38) ∷ []; m_eof_pos = 60 }

pub old_index-IndexesFrom : IndexesFrom 60 16 old_table.m_table old_index.m_index
unfolding encode_entry encode_string container_encode le_bytes
old_index-IndexesFrom = (_, refl, inl ([], refl, (refl, refl)))

pub old_index-Describes : Describes old_index (encode_ss_table old_table) old_table.m_table
unfolding le_bytes
old_index-Describes = record {
  header = file_header old_table;
  content = refl;
  indexes = old_index-IndexesFrom;
  sorted = old_table-IsSorted;
  fits = old_table-Fits.1.1;
}

pub old_table-written :
    write_ss_table 30 old_table (ostream []) ≡ ok (old_index, ostream (encode_ss_table old_table))
unfolding write_ss_table pair_serialize serialize_key container_serialize serialize_value
    try_build_index encode_entry insert_or_assign encode_string less
old_table-written = refl

pub old_index-named :
    (name : Bytes)
    → Describes
        (record old_index { m_ss_table_file_name = name })
        (encode_ss_table old_table)
        old_table.m_table
old_index-named name = record {
  header = old_index-Describes.header;
  content = old_index-Describes.content;
  indexes = old_index-Describes.indexes;
  sorted = old_index-Describes.sorted;
  fits = old_index-Describes.fits;
}
