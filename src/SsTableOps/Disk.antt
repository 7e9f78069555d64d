-- ===== src/SsTableOps/Disk.antt =====
-- A flush and the files of the directory.
use project_db.Common.{ℕ, ◌≡◌, refl, sym, ◌≢◌, none, some, Bytes, ok}
use project_db.FileSystem.{FileSystem, file_content, write_file, remove_files_with_ext}
use project_db.FileSystem.Frame.{
  string_eq-ne, string_eq_self, file_content-write_file, file_content-remove_files_with_ext,
}
use project_db.FileSystem.Names.{deprecated_file_ext, extension}
use project_db.SsTable.{SsTable}
use project_db.SsTable.Stored.{TableFits}
use project_db.SsTableIndex.{SsTableIndex, set_ss_table_file_name}
use project_db.SsTableIndex.Seek.{Describes}
use project_db.SsTableOps.{flush_ss_table}
use project_db.SsTableOps.Flush.{encode_ss_table, write_ss_table-Describes}

-- Flushing a table that fits succeeds: the file is there under the name that the index has, is
-- described by the index, and every other file that is not deprecated is as it was.
pub flush_ss_table-Describes :
    (block_size : ℕ) (ss_table : SsTable) (name : Bytes) (fs : FileSystem)
    → TableFits ss_table.m_table
    → (index : SsTableIndex) × (fs' : FileSystem) × (flush_ss_table block_size ss_table name fs
        ≡ ok (index, fs'))
      × Describes index (encode_ss_table ss_table) ss_table.m_table
      × (index.m_ss_table_file_name ≡ name)
      × (index.m_ifs ≡ none)
      × (file_content fs' name ≡ some (encode_ss_table ss_table))
      × ((other_name : Bytes)
          → other_name ≢ name
          → extension other_name ≢ deprecated_file_ext
          → file_content fs' other_name ≡ file_content fs other_name)
unfolding flush_ss_table
flush_ss_table-Describes block_size ss_table name fs fits =
    let (index, runs, d, closed) = write_ss_table-Describes block_size ss_table fits in
    let file = encode_ss_table ss_table in
    let cleaned = remove_files_with_ext deprecated_file_ext fs in
    (
      set_ss_table_file_name index name,
      write_file name file cleaned,
      rw runs,
      record {
        header = d.header;
        content = d.content;
        indexes = d.indexes;
        sorted = d.sorted;
        fits = d.fits;
      },
      refl,
      closed,
      rw (file_content-write_file name name file cleaned, string_eq_self name),
      λ other_name differs kept.
          rw
            (
              file_content-write_file name other_name file cleaned,
              string_eq-ne name other_name (λ e. differs (sym e)),
            )
            (file_content-remove_files_with_ext deprecated_file_ext other_name fs kept),
    )
