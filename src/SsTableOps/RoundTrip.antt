-- ===== src/SsTableOps/RoundTrip.antt =====
-- Writing a table, reading it back and seeking in its file.
use project_db.Common.{ℕ, ◌≡◌, none, some, [], Bytes, Result, ok}
use project_db.Key.{Key, key_ord}
use project_db.Serializer.Streams.{OStream, ostream}
use project_db.SsTable.{SsTable}
use project_db.SsTable.Stored.{TableFits}
use project_db.SsTableIndex.{SsTableIndex, new_index, seek_in}
use project_db.SsTableIndex.Seek.{seek_in-find}
use project_db.SsTableOps.{write_ss_table, load_ss_table}
use project_db.SsTableOps.Flush.{encode_ss_table, write_ss_table-Describes}
use project_db.SsTableOps.Load.{SsTableFits, load_ss_table-encode, load_ss_table-Describes}
use project_db.StdMap.{find}

module _ {r : Result (SsTableIndex × OStream)} {index index' : SsTableIndex} {file file' : Bytes}
    (written : r ≡ ok (index, ostream file)) (runs : r ≡ ok (index', ostream file')) where
  written_index : index' ≡ index
  written_index = cc

  written_file : file' ≡ file
  written_file = cc

-- When a table that fits has been written, with whatever block size, seeking any key by the index that
-- came back finds in the written file what the table holds.
pub seek-write_ss_table :
    (block_size : ℕ) (ss_table : SsTable) (k : Key) (index : SsTableIndex) (file : Bytes)
    → TableFits ss_table.m_table
    → write_ss_table block_size ss_table (ostream []) ≡ ok (index, ostream file)
    → seek_in index (some file) k ≡ ok (find k ss_table.m_table)
seek-write_ss_table block_size ss_table k index file fits written =
    let (index', runs, d, _) = write_ss_table-Describes block_size ss_table fits in
    rw (← written_index written runs, ← written_file written runs)
      (seek_in-find index' (encode_ss_table ss_table) ss_table.m_table k d)

-- When a table that fits has been written, loading its file gives the table again, with or without an
-- index, and seeking any key by the index that loading builds, with whatever block size, finds in the
-- file what the table holds.
pub load-write_ss_table :
    (block_size other_size : ℕ) (name : Bytes) (ss_table : SsTable) (k : Key) (index : SsTableIndex)
    (file : Bytes)
    → SsTableFits ss_table
    → write_ss_table block_size ss_table (ostream []) ≡ ok (index, ostream file)
    → (index' : SsTableIndex) × (load_ss_table other_size name (some file) (some new_index)
        ≡ ok (ss_table, some index'))
      × (load_ss_table other_size name (some file) none ≡ ok (ss_table, none))
      × (seek_in index' (some file) k ≡ ok (find k ss_table.m_table))
load-write_ss_table block_size other_size name ss_table k index file fits written =
    let (_, runs, _, _) = write_ss_table-Describes block_size ss_table fits.1 in
    let (index', loads, d, _, _) = load_ss_table-Describes other_size name ss_table fits in
    rw (← written_file written runs) (
      index',
      loads,
      load_ss_table-encode other_size name ss_table fits,
      seek_in-find index' (encode_ss_table ss_table) ss_table.m_table k d,
    )
