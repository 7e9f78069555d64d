-- ===== src/TransactionLog/Torn.antt =====
-- A log whose last transaction was not written to its end.
use project_db.Common.{
  ℕ, zero, suc, ◌+◌, ◌-◌, ◌<◌, ◌≡◌, sym, ap, ◌∙◌, some, List, [], ◌++◌, append-nil, arith, length,
  take, All, length-append, Bytes, end_of_stream, ok, err,
}
use project_db.Key.Stored.{key_cut_off}
use project_db.MemTable.{MemTable, new_mem_table}
use project_db.Serializer.Codec.{read_short}
use project_db.Serializer.Streams.{istream, le_bytes, trivial_deserialize}
use project_db.Serializer.Strings.{StringFits, encode_string}
use project_db.TransactionLog.{
  remove_transaction, type_code, type_of_code, deserialize_type, load_by_type, load_transaction,
  load,
}
use project_db.TransactionLog.Loop.{
  load_loop_end, type_bytes, remove_bytes, load_transaction_as, to_key,
}
use project_db.TransactionLog.Recovery.{
  remove_log, remove_all, length-remove_log, load_loop_removes,
}

-- Without the four bytes of a type there is no transaction.
type_cut_off :
    (rtn : MemTable) (s : Bytes) (pos : ℕ)
    → length s < 4
    → load_transaction rtn (istream s pos) ≡ err end_of_stream
unfolding load_transaction deserialize_type trivial_deserialize
type_cut_off rtn s pos short = rw (read_short s 4 pos short)

key_torn :
    (rtn : MemTable) (key : Bytes) (n pos : ℕ)
    → StringFits key
    → n < length (encode_string key)
    → load_transaction rtn
        (istream (type_bytes remove_transaction ++ take n (encode_string key)) pos)
      ≡ err end_of_stream
unfolding type_code type_of_code
key_torn rtn key n pos fits h =
    let cut = take n (encode_string key) in
    ap (λ s. load_transaction rtn (istream s pos))
      (sym (append-nil (type_bytes remove_transaction ++ cut)))
    ∙ load_transaction_as rtn remove_transaction cut [] pos (omega arith)
    ∙ (unfold load_by_type in
        rw (append-nil cut) (rw (key_cut_off (to_key key) n (pos + 4) (fits, tt) h)))

removal_torn :
    (rtn : MemTable) (key : Bytes) (n pos : ℕ)
    → StringFits key
    → n < length (remove_bytes key)
    → load_transaction rtn (istream (take n (remove_bytes key)) pos) ≡ err end_of_stream
unfolding type_code le_bytes
removal_torn rtn key zero pos fits h = type_cut_off rtn _ pos (omega arith)
removal_torn rtn key (suc zero) pos fits h = type_cut_off rtn _ pos (omega arith)
removal_torn rtn key (suc (suc zero)) pos fits h = type_cut_off rtn _ pos (omega arith)
removal_torn rtn key (suc (suc (suc zero))) pos fits h = type_cut_off rtn _ pos (omega arith)
removal_torn rtn key (suc (suc (suc (suc n)))) pos fits h =
    key_torn rtn key n pos fits (omega (arith, h))

-- A log of removals of which the last is cut off anywhere, or missing: loading it gives the table of
-- the complete removals, in their order, and no error, as long as the keys fit.
pub load-removals :
    (keys : List Bytes) (key : Bytes) (n : ℕ)
    → All StringFits keys
    → StringFits key
    → n < length (remove_bytes key)
    → load (some (remove_log keys ++ take n (remove_bytes key)))
      ≡ ok (remove_all keys new_mem_table)
unfolding load
load-removals keys key n kf f h =
    let tail = take n (remove_bytes key) in
    let spare = length (remove_log keys ++ tail) - length keys in
    load_loop_removes keys (suc (length (remove_log keys ++ tail))) (suc spare) new_mem_table tail 0
      kf (omega (arith, length-append (remove_log keys) tail, length-remove_log keys))
    ∙ load_loop_end spare (remove_all keys new_mem_table)
        (istream tail (0 + length (remove_log keys)))
        (removal_torn (remove_all keys new_mem_table) key n (0 + length (remove_log keys)) f h)
