-- ===== src/Lib.antt =====
-- ProjectDb, a key-value database that keeps its newest entries in memory and the others in sorted
-- files (a log-structured merge tree), modelled as functions on its state.
--
-- An update goes to the newest table in memory (MemTable) and to that table's transaction log. A table
-- in memory that has grown to its limit is flushed to a file, an SSTable, with an index of where its
-- blocks begin. A lookup asks the tables in memory and then the indexes of the files, from the newest
-- on. A compaction merges neighbouring SSTables. A start loads the SSTables and the logs.
--
-- Which file models what:
-- - Common: Boolean tests and lists over native numbers, bytes, errors as values. An exception is an
--   error: `end_of_stream` is the DbException of the serializer at the end of a file, `db_exception`
--   any other DbException; the others are exceptions of the C++ library. `out_of_fuel` is
--   of the model, and so is `undefined_behaviour`, for a step that C++ gives no behaviour.
-- - StdMap: std::map as a list of entries whose keys rise, over an order that is an interface; Key
--   fills it.
-- - Key, Value (db/key.h, db/key.cpp, db/value.h, db/value.cpp): keys, values and tombstones; Stored
--   below each has its serialized form. Strings are lists of bytes, and `less` compares bytes without
--   sign, as std::char_traits<char> does.
-- - Serializer (utils/serializer.h): the wrappers, over streams of bytes with a position; integers are
--   little-endian and `size_t` has 8 bytes. Codec is the interface between a type's operations and
--   its encoding, which the types of the database fill.
-- - Concepts (utils/db_concepts.h): the types that fulfil `Serializable`, and the wrapper that
--   utils/serializer.h selects for each. A user-defined type stands with its own functions, and a
--   container with its insertion; Types below it has sequences, strings, maps and the types of the
--   database.
-- - SsTable (db/table.h, db/sstable.h, db/sstable.cpp and `mergeSSTable` of db/sstable_ops.cpp).
-- - SsTableIndex (db/sstable_index.h, db/sstable_index.cpp): `getPotentialBlockPos` and `seek`.
-- - SsTableOps (`flushSSTable` and `loadSSTable` of db/sstable_ops.cpp): the bytes of a file and the
--   index of its blocks. The sizes that the configuration sets are parameters.
-- - Compaction (`mergeSSTables` of db/sstable_ops.cpp): which tables are merged into which. Disk below
--   it has the same loop on the files of the directory.
-- - MemTable (db/memtable.h, db/memtable.cpp): sizes are `unsigned` and wrap around at 2^32.
-- - TransactionLog (db/transaction_log.h, db/transaction_log.cpp): the bytes that an update appends, and
--   the loader.
-- - FileSystem (utils/system_utils.cpp, config/db_config.cpp): the directory of the database as a list
--   of names and contents, the names of its files, their counters, renaming, and the sorted list of the
--   files with an extension.
-- - Config (config/db_config.h, config/db_config.cpp): the settings as a record.
-- - ConfigParser (config/config_parser.cpp): the parser of the file that sets them. Its regular
--   expression is written out as what it matches; numbers are read as std::stoul and std::stoi do where
--   `long` has 64 bits and `int` 32.
-- - SsTableIndexQueue (db/sstable_index_queue.h, db/sstable_index_queue.cpp): the queue of the indexes,
--   lookups in it, and the launch and the end of a compaction.
-- - MemTableQueue (db/memtable_queue.h, db/memtable_queue.cpp): the tables in memory with their logs, and
--   the launch of a flush as the table and file name that its job is given.
-- - Database (db/projectdb.cpp): `get`, `set`, `remove` and the check of the futures before each.
--   A future holds what its job was given and, once the job has ended, its result or its exception.
--   Lifetime has the constructor, `init` and the destructor. Sound is the invariant of the state,
--   Represents says that it shows a map, and Runs has the calls of a client and the ends of flushes
--   as steps; the other modules below Database have the lemmas of the steps. The invariant is for a
--   database whose compaction is disabled (NUM_SSTABLE_TO_COMPACT is 0).
-- - Tests: concrete data, and the theorems at it.
--
-- Loops over lists are structural. The loader of a log and the reader of a block have fuel, one more
-- than the bytes that are there, and each round reads a byte at least, so it is enough.
--
-- Not modelled: logging, printing, the benchmark, time, and the interleaving of threads: a background
-- job is a function of what it was given, and a flush changes the directory at once, when it ends.
-- What std::map, streams, std::regex and std::filesystem do is written out as their documentation
-- says. The state of the files when an exception passes through `update` is not kept.
pub mod Common
pub mod StdMap
pub mod Key
pub mod Value
pub mod SsTable
pub mod Serializer
pub mod Concepts
pub mod SsTableIndex
pub mod SsTableOps
pub mod MemTable
pub mod TransactionLog
pub mod FileSystem
pub mod Compaction
pub mod SsTableIndexQueue
pub mod MemTableQueue
pub mod Config
pub mod ConfigParser
pub mod Database
pub mod Tests
