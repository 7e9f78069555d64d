-- ===== src/TransactionLog/Loop.antt =====
-- The loader's loop, one round at a time, and what the writer writes.
use project_db.MemTable
use project_db.Common.{
  ℕ, suc, ◌+◌, ◌^◌, ◌<◌, ◌≡◌, ◌++◌, length, Bytes, end_of_stream, db_exception, ok, err, ap, ◌∙◌,
  append_assoc, arith, length-append, ◌>>=◌, refl, ◌≢◌, Error, invalid_argument, out_of_range,
  out_of_fuel, filesystem_error, undefined_behaviour,
}
use project_db.Key.{Key}
use project_db.MemTable.{MemTable}
use project_db.Serializer.Codec.{write-append}
use project_db.Serializer.Streams.{OStream, IStream, istream, write, le_bytes, trivial_serialize}
use project_db.Serializer.Strings.{StringFits, encode_string, string_writes, string_serialize}
use project_db.Serializer.Trivial.{length-le_bytes, trivial_reads}
use project_db.TransactionLog.{
  DbTransactionType, set_transaction, remove_transaction, type_code, type_of_code, serialize_type,
  deserialize_type, write_set, write_remove, load_transaction, load_loop, load_by_type,
}
use mathlib.Core.Path.{fun_ext}
use project_db.Key.Stored.{key_reads}

module _ (fuel : ℕ) (rtn : MemTable) (is : IStream) where
  pub load_loop_next :
      (rtn' : MemTable) (is' : IStream)
      → load_transaction rtn is ≡ ok (rtn', is')
      → load_loop (suc fuel) rtn is ≡ load_loop fuel rtn' is'
  unfolding load_loop
  load_loop_next rtn' is' h = rw (h, load_loop)

  pub load_loop_end :
      load_transaction rtn is ≡ err end_of_stream → load_loop (suc fuel) rtn is ≡ ok rtn
  unfolding load_loop
  load_loop_end h = rw (h, load_loop)

  pub load_loop_throw :
      (e : Error)
      → e ≢ end_of_stream
      → load_transaction rtn is ≡ err e
      → load_loop (suc fuel) rtn is ≡ err e
  unfolding load_loop
  load_loop_throw end_of_stream n h = absurd (n refl)
  load_loop_throw db_exception n h = rw (h, load_loop)
  load_loop_throw invalid_argument n h = rw (h, load_loop)
  load_loop_throw out_of_range n h = rw (h, load_loop)
  load_loop_throw filesystem_error n h = rw (h, load_loop)
  load_loop_throw out_of_fuel n h = rw (h, load_loop)
  load_loop_throw undefined_behaviour n h = rw (h, load_loop)

-- The bytes that `write` appends for each kind of transaction.
abbrev pub type_bytes : DbTransactionType → Bytes
type_bytes t = le_bytes 4 (type_code t)

abbrev pub set_bytes : Bytes → Bytes → Bytes
set_bytes key value = type_bytes set_transaction ++ (encode_string key ++ encode_string value)

abbrev pub remove_bytes : Bytes → Bytes
remove_bytes key = type_bytes remove_transaction ++ encode_string key

strings_written :
    (key value : Bytes) (os : OStream)
    → (string_serialize key os >>= string_serialize value)
      ≡ write (encode_string key ++ encode_string value) os
strings_written key value os =
    rw (string_writes key os, fun_ext (string_writes value))
      (write-append (encode_string key) (encode_string value) os)

-- `write` for SET appends the type, the key as a string and the value as a string.
pub write_set-bytes :
    (key value : Bytes) (os : OStream) → write_set key value os ≡ write (set_bytes key value) os
unfolding write_set serialize_type trivial_serialize
write_set-bytes key value os =
    ap (λ f. write (type_bytes set_transaction) os >>= f) (fun_ext (strings_written key value))
    ∙ write-append (type_bytes set_transaction) (encode_string key ++ encode_string value) os

pub write_remove-bytes :
    (key : Bytes) (os : OStream) → write_remove key os ≡ write (remove_bytes key) os
unfolding write_remove serialize_type
write_remove-bytes key os =
    rw (fun_ext (string_writes key))
      (write-append (type_bytes remove_transaction) (encode_string key) os)

-- Reading the type of a transaction.
pub deserialize_type_reads :
    (t : DbTransactionType) (rest : Bytes) (pos : ℕ)
    → type_code t < 256 ^ 4
    → deserialize_type (istream (type_bytes t ++ rest) pos)
      ≡ ok (type_of_code (type_code t), istream rest (pos + 4))
unfolding deserialize_type
deserialize_type_reads t rest pos h =
    rw (trivial_reads 4 (type_code t) rest pos h, length-le_bytes 4 (type_code t))

-- Past its type, a transaction is read by its kind.
pub load_transaction_as :
    (rtn : MemTable) (t : DbTransactionType) (body rest : Bytes) (pos : ℕ)
    → type_code t < 256 ^ 4
    → load_transaction rtn (istream ((type_bytes t ++ body) ++ rest) pos)
      ≡ load_by_type (type_of_code (type_code t)) rtn (istream (body ++ rest) (pos + 4))
unfolding load_transaction
load_transaction_as rtn t body rest pos h =
    rw (append_assoc (type_bytes t) body rest) (rw (deserialize_type_reads t (body ++ rest) pos h))

pub length_typed :
    (pos : ℕ) (t : DbTransactionType) (body : Bytes)
    → pos + 4 + length body ≡ pos + length (type_bytes t ++ body)
length_typed pos t body =
    omega (arith, length-append (type_bytes t) body, length-le_bytes 4 (type_code t))

-- A key written as a string is read back as the key of that string.
abbrev pub to_key : Bytes → Key
to_key s = record { m_key = s }

pub load_remove :
    (rtn : MemTable) (key rest : Bytes) (pos : ℕ)
    → StringFits key
    → load_transaction rtn (istream (remove_bytes key ++ rest) pos)
      ≡ ok (MemTable.remove rtn (to_key key), istream rest (pos + length (remove_bytes key)))
unfolding type_code type_of_code MemTable.remove le_bytes
load_remove rtn key rest pos fits =
    load_transaction_as rtn remove_transaction (encode_string key) rest pos (omega arith)
    ∙ (unfold load_by_type in
        rw (key_reads (to_key key) rest (pos + 4) (fits, tt))
          (rw (length_typed pos remove_transaction (encode_string key))))
