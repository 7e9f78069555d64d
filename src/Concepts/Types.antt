-- ===== src/Concepts/Types.antt =====
-- Types that fulfil `Serializable`: sequences, strings and maps, and the types of the database.
use project_db.Common.{
  ℕ, ◌≡◌, refl, sym, ◌∙◌, List, [], ◌∷◌, ◌++◌, append-nil, append_assoc, Bytes, ap, bind_assoc,
}
use project_db.Concepts.{
  Container, Serializable, trivial, user_type, container_of, pair_of, serialize_as, deserialize_as,
}
use project_db.Key.{Key, key_ord}
use project_db.Key.Stored.{key_of, key_of_lem, serialize_key, deserialize_key}
use project_db.Serializer.Sequences.{insert_all}
use project_db.Serializer.Strings.{string_codec}
use project_db.Serializer.Trivial.{trivial_codec}
use project_db.Serializer.Wrapped.{map_codec, map_deserialize}
use project_db.SsTable.{SsTableMetaData, Table}
use project_db.StdMap.{Ord, StdMap, emplace, IsSorted}
use project_db.StdMap.Order.{emplace_last, AllBelow, AllBelow-nil, AllBelow-shift}
use project_db.Serializer.Containers.{container_serialize, container_deserialize}
use project_db.Serializer.Pairs.{pair_codec}
use project_db.Serializer.Streams.{
  pair_serialize, pair_deserialize, user_serialize, user_deserialize,
}
use project_db.SsTable.Stored.{insert_entry, serialize_entry, deserialize_entry}
use project_db.SsTableOps.{serialize_meta_data, deserialize_meta_data}
use project_db.Value.{Value}
use project_db.Value.Stored.{
  serialize_value, deserialize_value, kind_codec, value_of, value_parts, value_of_lem,
}
use mathlib.Core.Path.{fun_ext, ap₂}

-- vectors, lists and strings: rtn.insert(rtn.end(), element)
abbrev pub insert_back {ℓ} : {A : Type ℓ} → A → List A → List A
insert_back x xs = xs ++ x ∷ []

pub insert_all_back {ℓ} : {A : Type ℓ} (xs rtn : List A) → insert_all insert_back xs rtn ≡ rtn ++ xs
insert_all_back [] rtn = sym (append-nil rtn)
insert_all_back (x ∷ xs) rtn = insert_all_back xs (rtn ++ x ∷ []) ∙ append_assoc rtn (x ∷ []) xs

abbrev pub sequence : (E : Type 0) → Container E
sequence E = record {
  insert_at_end = insert_back;
  IsContent = λ xs. Unit {0};
  collects = λ xs h. insert_all_back xs [];
}

-- std::map<K, V>: a hint does not change what is inserted
abbrev pub insert_pair : {K V : Type 0} ⦃o : Ord K⦄ → K × V → StdMap K V → StdMap K V
insert_pair e m = emplace e.0 e.1 m

pub insert_all_pairs :
    {K V : Type 0} ⦃o : Ord K⦄ (m acc : StdMap K V)
    → IsSorted m
    → AllBelow acc m
    → insert_all insert_pair m acc ≡ acc ++ m
insert_all_pairs [] acc s b = sym (append-nil acc)
insert_all_pairs ((k, v) ∷ m) acc s b = rw (emplace_last k v acc b.0) (
    insert_all_pairs m (acc ++ (k, v) ∷ []) s.1 (AllBelow-shift acc k v m b.1 s.0)
    ∙ append_assoc acc ((k, v) ∷ []) m)

abbrev pub std_map : (K V : Type 0) ⦃o : Ord K⦄ → Container (K × V)
std_map K V = record {
  insert_at_end = insert_pair;
  IsContent = λ m. IsSorted m;
  collects = λ m s. insert_all_pairs m [] s (AllBelow-nil m);
}

-- std::string, whose elements are bytes
abbrev pub string_type : Serializable Bytes
string_type = container_of (sequence ℕ) (trivial 1)

-- The user-defined types of the database, with their own functions.
abbrev pub key_type : Serializable Key
key_type = user_type (map_codec string_codec key_of (λ k. k.m_key) (λ k. Unit {0}) key_of_lem)

abbrev pub meta_data_of : ℕ → SsTableMetaData
meta_data_of ms = record { m_ms_since_epoch = ms }

pub meta_data_of_lem : (m : SsTableMetaData) → Unit {0} → meta_data_of m.m_ms_since_epoch ≡ m
meta_data_of_lem m t = refl

abbrev pub meta_data_type : Serializable SsTableMetaData
meta_data_type = user_type (
    map_codec (trivial_codec 8) meta_data_of (λ m. m.m_ms_since_epoch) (λ m. Unit {0})
      meta_data_of_lem)

abbrev pub value_type : Serializable Value
value_type = user_type (
    map_codec (pair_codec kind_codec string_codec) value_of value_parts (λ v. Unit {0})
      value_of_lem)

-- Table::value_type
abbrev pub table_type : Serializable Table
table_type = container_of (std_map Key Value) (pair_of key_type value_type)

-- The wrappers that are selected for them are those of the database's files.
serialize_as-key : serialize_as key_type ≡ serialize_key
unfolding serialize_as serialize_key user_serialize map_deserialize
serialize_as-key = refl

deserialize_as-key : deserialize_as key_type ≡ deserialize_key
unfolding deserialize_as deserialize_key user_deserialize map_deserialize
deserialize_as-key = refl

serialize_as-value : serialize_as value_type ≡ serialize_value
unfolding serialize_as serialize_value user_serialize map_deserialize pair_serialize
    pair_deserialize
serialize_as-value = refl

deserialize_as-value : deserialize_as value_type ≡ deserialize_value
unfolding deserialize_as deserialize_value user_deserialize map_deserialize pair_deserialize
deserialize_as-value = fun_ext λ is. simp bind_assoc

serialize_as-meta_data : serialize_as meta_data_type ≡ serialize_meta_data
unfolding serialize_as serialize_meta_data map_deserialize
serialize_as-meta_data = refl

deserialize_as-meta_data : deserialize_as meta_data_type ≡ deserialize_meta_data
unfolding deserialize_as deserialize_meta_data user_deserialize map_deserialize
deserialize_as-meta_data = refl

pub serialize_as-table : serialize_as table_type ≡ container_serialize serialize_entry
unfolding serialize_as serialize_entry
serialize_as-table = ap container_serialize (ap₂ pair_serialize serialize_as-key serialize_as-value)

pub deserialize_as-table :
    deserialize_as table_type ≡ container_deserialize deserialize_entry insert_entry []
unfolding deserialize_as deserialize_entry
deserialize_as-table =
    ap (λ d. container_deserialize d insert_entry [])
      (ap₂ pair_deserialize deserialize_as-key deserialize_as-value)
