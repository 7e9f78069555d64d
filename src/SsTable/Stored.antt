-- ===== src/SsTable/Stored.antt =====
-- The bytes of tables and of `SSTable` files (db/sstable.cpp).
use project_db.Common.{
  ℕ, ◌+◌, ◌<◌, ◌≡◌, sym, ◌∙◌, [], ◌∷◌, ◌++◌, append-nil, append_assoc, arith, length, take, Bytes,
  end_of_stream, ok, err, refl, Option, none, some, List,
}
use project_db.Key.{Key, key_ord}
use project_db.Key.Stored.{serialize_key, deserialize_key, key_codec}
use project_db.Serializer.Codec.{Codec}
use project_db.Serializer.Pairs.{pair_encode, pair_codec}
use project_db.Serializer.Sequences.{insert_all, container_encode, ContainerFits, container_codec}
use project_db.Serializer.Streams.{
  OStream, istream, write, le_bytes, Serialize, Deserialize, pair_serialize, pair_deserialize,
}
use project_db.Serializer.Strings.{encode_string}
use project_db.SsTable.{Table}
use project_db.StdMap.{emplace, IsSorted}
use project_db.StdMap.Order.{emplace_last, AllBelow, AllBelow-nil, AllBelow-shift}
use project_db.Value.{Value}
use project_db.Value.Stored.{serialize_value, deserialize_value, value_codec}

-- mergedTable.insert(mergedTable.end(), entry)
abbrev pub insert_entry : Key × Value → Table → Table
insert_entry e m = emplace e.0 e.1 m

-- The last entry.
abbrev pub last_entry {ℓ} : {A : Type ℓ} → List A → Option A
last_entry [] = none
last_entry (x ∷ []) = some x
last_entry (x ∷ y ∷ xs) = last_entry (y ∷ xs)

pub last_entry-append {ℓ} : {A : Type ℓ} (xs : List A) (x : A) → last_entry (xs ++ x ∷ []) ≡ some x
last_entry-append [] x = refl
last_entry-append (y ∷ []) x = refl
last_entry-append (y ∷ z ∷ xs) x = last_entry-append (z ∷ xs) x

unfoldable pub serialize_entry : Serialize (Key × Value)
serialize_entry = pair_serialize serialize_key serialize_value

unfoldable pub deserialize_entry : Deserialize (Key × Value)
deserialize_entry = pair_deserialize deserialize_key deserialize_value

abbrev pub stored_entry : Codec (Key × Value)
stored_entry = pair_codec key_codec value_codec

unfoldable pub encode_entry : Key × Value → Bytes
unfolding pair_encode
encode_entry = stored_entry.encode

pub entry_writes :
    (e : Key × Value) (os : OStream) → serialize_entry e os ≡ write (encode_entry e) os
unfolding serialize_entry encode_entry
entry_writes = stored_entry.writes

pub entry_reads :
    (e : Key × Value) (rest : Bytes) (pos : ℕ)
    → stored_entry.Fits e
    → deserialize_entry (istream (encode_entry e ++ rest) pos)
      ≡ ok (e, istream rest (pos + length (encode_entry e)))
unfolding deserialize_entry encode_entry
entry_reads = stored_entry.reads

-- Reading an entry that fits from a file that ends within the entry throws at the end of the file,
-- wherever the cut is.
pub entry_cut_off :
    (e : Key × Value) (n pos : ℕ)
    → stored_entry.Fits e
    → n < length (encode_entry e)
    → deserialize_entry (istream (take n (encode_entry e)) pos) ≡ err end_of_stream
unfolding deserialize_entry encode_entry
entry_cut_off = stored_entry.cut_off

abbrev pub entry_codec : Codec (Key × Value)
entry_codec = record {
  serialize = serialize_entry;
  deserialize = deserialize_entry;
  encode = encode_entry;
  Fits = stored_entry.Fits;
  writes = entry_writes;
  reads = entry_reads;
  cut_off = entry_cut_off;
}

-- An entry takes a byte at least.
pub encode_entry-pos : (e : Key × Value) → 0 < length (encode_entry e)
unfolding encode_entry encode_string container_encode le_bytes
encode_entry-pos (k, v) = omega arith

-- Inserting the entries of a sorted table one after the other rebuilds it.
pub insert_all_entries :
    (m acc : Table) → IsSorted m → AllBelow acc m → insert_all insert_entry m acc ≡ acc ++ m
insert_all_entries [] acc s b = sym (append-nil acc)
insert_all_entries ((k, v) ∷ m) acc s b = rw (emplace_last k v acc b.0) (
    insert_all_entries m (acc ++ (k, v) ∷ []) s.1 (AllBelow-shift acc k v m b.1 s.0)
    ∙ append_assoc acc ((k, v) ∷ []) m)

pub collect_entries : (m : Table) → IsSorted m → insert_all insert_entry m [] ≡ m
collect_entries m s = insert_all_entries m [] s (AllBelow-nil m)

-- The table can be stored: its size and those of its strings are `size_t` numbers, its values have
-- one of the two types, and its keys rise.
abbrev pub TableFits : Table → Type 0
TableFits t = ContainerFits entry_codec insert_entry (λ m. IsSorted m) collect_entries t

abbrev pub table_codec : Codec Table
table_codec = container_codec entry_codec insert_entry (λ m. IsSorted m) collect_entries
