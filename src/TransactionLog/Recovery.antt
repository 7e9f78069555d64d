-- ===== src/TransactionLog/Recovery.antt =====
-- What a restart recovers from the log that the writer left.
use project_db.MemTable
use project_db.Value.Stored.{deserialize_impl, deserialize_value, deserialize_kind}
use project_db.Common.{
  ℕ, zero, suc, ◌%◌, ◌<◌, ◌≡◌, refl, [], ◌∷◌, ◌++◌, arith, length, Bytes, IsBytes, end_of_stream,
  err, ◌+◌, ◌^◌, length-append, ◌-◌, ◌≤◌, ◌∙◌, some, List, append_assoc, All, ok,
}
use project_db.Serializer.Containers.{size_of_size_t, deserialize_all, container_deserialize}
use project_db.Serializer.Sequences.{encode_all, container_encode}
use project_db.Serializer.Streams.{
  istream, le_bytes, trivial_deserialize, of_le_bytes, user_deserialize,
}
use project_db.Serializer.Strings.{push_back, encode_string, string_deserialize, StringFits}
use project_db.Serializer.Trivial.{trivial_codec, length-le_bytes}
use project_db.Serializer.Codec.{read-append, read_short}
use project_db.MemTable.{MemTable, new_mem_table}
use project_db.TransactionLog.{
  type_code, type_of_code, load_transaction, set_transaction, remove_transaction, load_by_type,
  load_loop, load,
}
use project_db.TransactionLog.Loop.{
  set_bytes, load_loop_next, load_loop_end, type_bytes, remove_bytes, load_transaction_as, to_key,
  load_remove,
}
use project_db.Key.Stored.{key_reads}
use native.Mathlib.Nat.{add_assoc, add-zero}

-- The `char` wrapper stores a byte as itself.
encode_bytes : (s : Bytes) → IsBytes s → encode_all (trivial_codec 1) s ≡ s
unfolding le_bytes
encode_bytes [] h = refl
encode_bytes (c ∷ s) h = let e : c % 256 ≡ c = omega arith in rw (e, encode_bytes s h.1)

pub encode_string-bytes :
    (s : Bytes) → IsBytes s → encode_string s ≡ le_bytes size_of_size_t (length s) ++ s
unfolding encode_string container_encode
encode_string-bytes s h = rw (encode_bytes s h)

-- Reading more characters than the file has runs into its end.
chars_run_out :
    (n : ℕ) (rest rtn : Bytes) (pos : ℕ)
    → length rest < n
    → deserialize_all (trivial_deserialize 1) push_back n rtn (istream rest pos) ≡ err end_of_stream
unfolding deserialize_all trivial_deserialize
chars_run_out zero rest rtn pos h = elim h [ ]
chars_run_out (suc n) [] rtn pos h = rw (read_short [] 1 pos (omega arith))
chars_run_out (suc n) (c ∷ rest) rtn pos h =
    rw (read-append (c ∷ []) rest 1 pos refl)
      (chars_run_out n rest (push_back (of_le_bytes (c ∷ [])) rtn) (pos + 1) (omega arith))

-- A string of four or more characters, not all of the first four zero.
abbrev pub IsLong : Bytes → Type 0
IsLong (c₀ ∷ c₁ ∷ c₂ ∷ c₃ ∷ s) = 0 < c₀ + c₁ + c₂ + c₃
IsLong _ = ⊥

-- Eight bytes of which the lower four are zero: a size that is more than the file has.
size_too_large :
    (z₀ z₁ z₂ z₃ c₀ c₁ c₂ c₃ : ℕ) (rest : Bytes) (pos : ℕ)
    → 0 < c₀ + c₁ + c₂ + c₃
    → length rest < 2 ^ 32
    → string_deserialize (istream (z₀ ∷ z₁ ∷ z₂ ∷ z₃ ∷ c₀ ∷ c₁ ∷ c₂ ∷ c₃ ∷ rest) pos)
      ≡ err end_of_stream
unfolding string_deserialize container_deserialize trivial_deserialize
size_too_large z₀ z₁ z₂ z₃ c₀ c₁ c₂ c₃ rest pos h small =
    let size = z₀ ∷ z₁ ∷ z₂ ∷ z₃ ∷ c₀ ∷ c₁ ∷ c₂ ∷ c₃ ∷ [] in
    rw (read-append size rest 8 pos refl)
      (chars_run_out (of_le_bytes size) rest [] (pos + 8) (unfold of_le_bytes in omega arith))

typed_too_large :
    (a b c d z₀ z₁ z₂ z₃ c₀ c₁ c₂ c₃ : ℕ) (rest : Bytes) (pos : ℕ)
    → 0 < c₀ + c₁ + c₂ + c₃
    → length rest < 2 ^ 32
    → deserialize_value (istream (a ∷ b ∷ c ∷ d ∷ z₀ ∷ z₁ ∷ z₂ ∷ z₃ ∷ c₀ ∷ c₁ ∷ c₂ ∷ c₃ ∷ rest) pos)
      ≡ err end_of_stream
unfolding deserialize_value user_deserialize deserialize_impl deserialize_kind trivial_deserialize
typed_too_large a b c d z₀ z₁ z₂ z₃ c₀ c₁ c₂ c₃ rest pos h small =
    let type = a ∷ b ∷ c ∷ d ∷ [] in
    let chars = z₀ ∷ z₁ ∷ z₂ ∷ z₃ ∷ c₀ ∷ c₁ ∷ c₂ ∷ c₃ ∷ rest in
    rw (read-append type chars 4 pos refl)
      (rw (size_too_large z₀ z₁ z₂ z₃ c₀ c₁ c₂ c₃ rest (pos + 4) h small))

-- A value that was written as a string is not read back as a `Value`: its size is read as the type
-- and the lower half of a size.
value_runs_out :
    (v rest : Bytes) (pos : ℕ)
    → IsLong v
    → length v + length rest < 2 ^ 32
    → deserialize_value (istream (le_bytes size_of_size_t (length v) ++ (v ++ rest)) pos)
      ≡ err end_of_stream
unfolding le_bytes
value_runs_out (c₀ ∷ c₁ ∷ c₂ ∷ c₃ ∷ s) rest pos h small =
    typed_too_large _ _ _ _ _ _ _ _ c₀ c₁ c₂ c₃ (s ++ rest) pos h
      (omega (arith, length-append s rest))
value_runs_out _ rest pos h small = absurd h

-- The loader stops at the first transaction that set a long value.
set_runs_out :
    (rtn : MemTable) (key value rest : Bytes) (pos : ℕ)
    → StringFits key
    → IsBytes value
    → IsLong value
    → length value + length rest < 2 ^ 32
    → load_transaction rtn (istream (set_bytes key value ++ rest) pos) ≡ err end_of_stream
unfolding type_code type_of_code le_bytes
set_runs_out rtn key value rest pos fits bytes long small =
    load_transaction_as rtn set_transaction (encode_string key ++ encode_string value) rest pos
      (omega arith)
    ∙ (unfold load_by_type in
        rw (append_assoc (encode_string key) (encode_string value) rest) (
          rw (key_reads (to_key key) (encode_string value ++ rest) (pos + 4) (fits, tt)) (
            rw (encode_string-bytes value bytes) (
              rw (append_assoc (le_bytes size_of_size_t (length value)) value rest)
                (rw (value_runs_out value rest _ long small))))))

-- A log of removals, as the writer leaves it, and what it stands for.
pub remove_log : List Bytes → Bytes
remove_log [] = []
remove_log (key ∷ keys) = remove_bytes key ++ remove_log keys

pub remove_all : List Bytes → MemTable → MemTable
remove_all [] m = m
remove_all (key ∷ keys) m = remove_all keys (MemTable.remove m (to_key key))

pub length-remove_log : (keys : List Bytes) → length keys ≤ length (remove_log keys)
unfolding remove_log
length-remove_log [] = omega arith
length-remove_log (key ∷ keys) = omega (
  arith,
  length-remove_log keys,
  length-append (remove_bytes key) (remove_log keys),
  length-append (type_bytes remove_transaction) (encode_string key),
  length-le_bytes 4 (type_code remove_transaction),
)

pub load_loop_removes :
    (keys : List Bytes) (total fuel : ℕ) (rtn : MemTable) (rest : Bytes) (pos : ℕ)
    → All StringFits keys
    → total ≡ length keys + fuel
    → load_loop total rtn (istream (remove_log keys ++ rest) pos)
      ≡ load_loop fuel (remove_all keys rtn) (istream rest (pos + length (remove_log keys)))
unfolding remove_log remove_all
load_loop_removes [] total fuel rtn rest pos f e =
    let e' : total ≡ fuel = omega arith in rw (e', add-zero pos)
load_loop_removes (key ∷ keys) zero fuel rtn rest pos f e = absurd (omega arith)
load_loop_removes (key ∷ keys) (suc total) fuel rtn rest pos f e =
    rw (append_assoc (remove_bytes key) (remove_log keys) rest) (
      load_loop_next total rtn (istream (remove_bytes key ++ (remove_log keys ++ rest)) pos) _ _
        (load_remove rtn key (remove_log keys ++ rest) pos f.0)
      ∙ load_loop_removes keys total fuel (MemTable.remove rtn (to_key key)) rest
          (pos + length (remove_bytes key)) f.1 (omega arith)
      ∙ rw (
        length-append (remove_bytes key) (remove_log keys),
        add_assoc pos (length (remove_bytes key)) (length (remove_log keys)),
      ))

-- A log of removals, then a `set` of a value of four or more characters, not all of the first four
-- zero, then anything: loading it gives the removals and neither the `set` nor anything after it, and
-- no error, as long as the keys fit and what follows the key is shorter than 4 GB.
pub load_stops_at_set :
    (keys : List Bytes) (key value rest : Bytes)
    → All StringFits keys
    → StringFits key
    → IsBytes value
    → IsLong value
    → length value + length rest < 2 ^ 32
    → load (some (remove_log keys ++ (set_bytes key value ++ rest)))
      ≡ ok (remove_all keys new_mem_table)
unfolding load
load_stops_at_set keys key value rest kf f bytes long small =
    let tail = set_bytes key value ++ rest in
    let spare = length (remove_log keys ++ tail) - length keys in
    load_loop_removes keys (suc (length (remove_log keys ++ tail))) (suc spare) new_mem_table tail 0
      kf (omega (arith, length-append (remove_log keys) tail, length-remove_log keys))
    ∙ load_loop_end spare (remove_all keys new_mem_table)
        (istream tail (0 + length (remove_log keys)))
        (set_runs_out (remove_all keys new_mem_table) key value rest (0 + length (remove_log keys))
          f bytes long small)
