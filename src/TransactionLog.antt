-- ===== src/TransactionLog.antt =====
-- The classes `TransactionLogWritter` and `TransactionLogLoader` (db/transaction_log.h,
-- db/transaction_log.cpp): the log of the updates of a table in memory.
pub mod Loop
pub mod Termination
pub mod Recovery
pub mod Torn
use project_db.MemTable
use project_db.MemTable.{MemTable, new_mem_table}
use project_db.Common.{
  ℕ, zero, suc, Option, length, Bytes, end_of_stream, db_exception, out_of_fuel, Result, ok, err,
  ◌>>=◌,
}
use project_db.Key.Stored.{deserialize_key}
use project_db.Serializer.Streams.{
  OStream, IStream, open_istream, trivial_serialize, trivial_deserialize, Serialize, Deserialize,
}
use project_db.Serializer.Strings.{string_serialize}
use project_db.Value.Stored.{deserialize_value}

-- `enum class DbTransactionType`, over `int`: a file can hold a number that no enumerator has.
pub data DbTransactionType : Type 0 where
  get_transaction set_transaction remove_transaction : DbTransactionType
  other_transaction : ℕ → DbTransactionType

unfoldable pub type_code : DbTransactionType → ℕ
type_code get_transaction = 0
type_code set_transaction = 1
type_code remove_transaction = 2
type_code (other_transaction n) = n

unfoldable pub type_of_code : ℕ → DbTransactionType
type_of_code zero = get_transaction
type_of_code (suc zero) = set_transaction
type_of_code (suc (suc zero)) = remove_transaction
type_of_code (suc (suc (suc n))) = other_transaction (suc (suc (suc n)))

unfoldable pub serialize_type : Serialize DbTransactionType
unfolding type_code trivial_serialize
serialize_type t os = trivial_serialize 4 (type_code t) os

unfoldable pub deserialize_type : Deserialize DbTransactionType
unfolding type_of_code trivial_deserialize
deserialize_type is = do (n, is') ← trivial_deserialize 4 is; ok (type_of_code n, is')

-- write(DbTransactionType::SET, key, value), for two strings
unfoldable pub write_set : Bytes → Bytes → OStream → Result OStream
unfolding serialize_type string_serialize
write_set key value os = do
  os' ← serialize_type set_transaction os
  os'' ← string_serialize key os'
  string_serialize value os''

-- write(DbTransactionType::REMOVE, key), for a string
unfoldable pub write_remove : Bytes → OStream → Result OStream
unfolding serialize_type string_serialize
write_remove key os = do os' ← serialize_type remove_transaction os; string_serialize key os'

-- the `switch` of the loader
unfoldable pub load_by_type : DbTransactionType → MemTable → IStream → Result (MemTable × IStream)
unfolding deserialize_key deserialize_value
load_by_type set_transaction rtn is = do
  (key, is') ← deserialize_key is
  (value, is'') ← deserialize_value is'
  ok (MemTable.set rtn key value, is'')
load_by_type remove_transaction rtn is = do
  (key, is') ← deserialize_key is
  ok (MemTable.remove rtn key, is')
load_by_type _ rtn is = err db_exception

unfoldable pub load_transaction : MemTable → IStream → Result (MemTable × IStream)
unfolding deserialize_type load_by_type
load_transaction rtn is = do (t, is') ← deserialize_type is; load_by_type t rtn is'

-- `while (true)`: an exception at the end of the file ends the loop, any other is thrown again.
-- Each round reads a byte at least, so the fuel of `load` is enough.
unfoldable pub load_loop : ℕ → MemTable → IStream → Result MemTable
unfolding load_transaction
load_loop zero rtn is = err out_of_fuel
load_loop (suc fuel) rtn is = elim (load_transaction rtn is) [
  | ok (rtn', is') ↦ load_loop fuel rtn' is'
  | err end_of_stream ↦ ok rtn
  | err e ↦ err e
]

-- `file` is what the file system holds under the name of the log.
unfoldable pub load : Option Bytes → Result MemTable
unfolding load_loop
load file = let is = open_istream file in load_loop (suc (length is.rest)) new_mem_table is
