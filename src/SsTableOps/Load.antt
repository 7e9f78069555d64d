-- ===== src/SsTableOps/Load.antt =====
-- The index that `loadSSTable` builds describes the file, and the table is that of the file.
use mathlib.Core.Option
use project_db.Common.{
  ℕ, ◌+◌, ◌≡◌, sym, ◌∙◌, true, Option, some, [], ◌++◌, append_assoc, arith, length, length-append,
  Bytes, ok, ◌^◌, ◌<◌, refl, none, ◌>>=◌, append-nil,
}
use project_db.Serializer.Containers.{
  deserialize_indexed_loop, size_of_size_t, container_deserialize_indexed,
}
use project_db.Serializer.Sequences.{insert_all, encode_all}
use project_db.Serializer.Streams.{istream, le_bytes, user_deserialize}
use project_db.SsTable.{SsTable}
use project_db.SsTable.Stored.{
  insert_entry, deserialize_entry, entry_codec, TableFits, collect_entries, last_entry,
}
use project_db.SsTableIndex.{SsTableIndex, new_index}
use project_db.SsTableIndex.Blocks.{entries_length, IndexesFrom}
use project_db.SsTableOps.{try_load_index, deserialize_meta_data, load_ss_table, close_index}
use project_db.SsTableOps.Extend.{Behind-nil}
use mathlib.Core.Path.{subst}
use project_db.Serializer.Trivial.{trivial_reads}
use project_db.SsTableIndex.Seek.{Describes}
use project_db.SsTableOps.Flush.{file_header, encode_ss_table}
use project_db.SsTableOps.LoadLoop.{loads_from, load_loop_none}
use project_db.StdMap.Order.{AllBelow-nil}
use project_db.Key.{key_ord}

-- A file whose time stamp is an `int64_t` pattern and whose table fits.
abbrev pub SsTableFits : SsTable → Type 0
SsTableFits ss_table =
    (ss_table.m_meta_data.m_ms_since_epoch < 256 ^ 8) × TableFits ss_table.m_table

-- The header is read, and the loop goes on behind it.
load_header :
    (block_size : ℕ) (name : Bytes) (ss_table : SsTable) (index : Option SsTableIndex)
    → SsTableFits ss_table
    → load_ss_table block_size name (some (encode_ss_table ss_table)) index ≡ (do
      (table, index', is) ←
          deserialize_indexed_loop deserialize_entry insert_entry last_entry
            (try_load_index block_size)
            true
            (length ss_table.m_table)
            (length (file_header ss_table))
            0
            index
            []
            (istream (encode_all entry_codec ss_table.m_table) (length (file_header ss_table)))
      ok (
        record { m_meta_data = ss_table.m_meta_data; m_table = table },
        Option.map (close_index name is.pos) index',
      ))
unfolding load_ss_table deserialize_meta_data user_deserialize container_deserialize_indexed
load_header block_size name ss_table index h =
    let ms = ss_table.m_meta_data.m_ms_since_epoch in
    let t = ss_table.m_table in
    let size = le_bytes size_of_size_t (length t) in
    let at : length (file_header ss_table) ≡ 0 + length (le_bytes 8 ms) + length size =
      omega (arith, length-append (le_bytes 8 ms) size) in
    rw at (
      rw (append_assoc (le_bytes 8 ms) size (encode_all entry_codec t)) (
        rw (trivial_reads 8 ms (size ++ encode_all entry_codec t) 0 h.0) (
          rw (
            trivial_reads size_of_size_t (length t) (encode_all entry_codec t)
              (0 + length (le_bytes 8 ms)) h.1.0))))

-- Loading a file that holds a table that fits gives the table.
pub load_ss_table-encode :
    (block_size : ℕ) (name : Bytes) (ss_table : SsTable)
    → SsTableFits ss_table
    → load_ss_table block_size name (some (encode_ss_table ss_table)) none ≡ ok (ss_table, none)
load_ss_table-encode block_size name ss_table h =
    let t = ss_table.m_table in
    load_header block_size name ss_table none h
    ∙ rw (← append-nil (encode_all entry_codec t)) (
        rw
          (load_loop_none block_size true t (length (file_header ss_table)) 0 [] [] h.1.1 h.1.2
            (AllBelow-nil ⦃o = key_ord⦄ t))
          (rw (collect_entries t h.1.2)))

-- Loading it with an index gives an index that describes the file too.
pub load_ss_table-Describes :
    (block_size : ℕ) (name : Bytes) (ss_table : SsTable)
    → SsTableFits ss_table
    → (index : SsTableIndex) × (load_ss_table block_size name
          (some (encode_ss_table ss_table))
          (some new_index)
        ≡ ok (ss_table, some index))
      × Describes index (encode_ss_table ss_table) ss_table.m_table
      × (index.m_ss_table_file_name ≡ name)
      × (index.m_ifs ≡ none)
load_ss_table-Describes block_size name ss_table h =
    let t = ss_table.m_table in
    let start = length (file_header ss_table) in
    let (index, runs, ext) =
      loads_from block_size true t start 0 new_index [] [] h.1.1 h.1.2
        (AllBelow-nil ⦃o = key_ord⦄ t) (Behind-nil t) in
    (
      close_index name (start + entries_length t) index,
      load_header block_size name ss_table (some new_index) h
          ∙ rw
              (subst
                (λ bytes.
                  deserialize_indexed_loop deserialize_entry insert_entry last_entry
                    (try_load_index block_size) true (length t) start 0 (some new_index) []
                    (istream bytes start)
                  ≡ ok (
                    insert_all insert_entry t [],
                    some index,
                    istream [] (start + entries_length t),
                  ))
                (append-nil (encode_all entry_codec t)) runs)
              (rw (collect_entries t h.1.2)),
      record {
        header = file_header ss_table;
        content = refl;
        indexes =
            subst (λ idx. IndexesFrom (start + entries_length t) start t idx) (sym ext.grown)
              ext.indexed;
        sorted = h.1.2;
        fits = h.1.1;
      },
      refl,
      ext.closed,
    )
