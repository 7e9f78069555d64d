-- ===== src/Value/Stored.antt =====
-- `Value::serializeImpl` and `Value::deserializeImpl` (db/value.cpp).
use project_db.Common.{
  ℕ, zero, suc, ◌≡◌, refl, Bytes, ok, ◌>>=◌, ◌+◌, ◌<◌, ◌++◌, length, take, end_of_stream, err,
  bind_assoc,
}
use project_db.Serializer.Codec.{Codec}
use project_db.Serializer.Pairs.{pair_codec}
use project_db.Serializer.Streams.{
  OStream, write, trivial_serialize, trivial_deserialize, Serialize, Deserialize, pair_serialize,
  user_serialize, user_deserialize, istream, pair_deserialize, IStream,
}
use project_db.Serializer.Strings.{string_serialize, string_deserialize, string_codec}
use project_db.Serializer.Trivial.{trivial_codec}
use project_db.Serializer.Wrapped.{map_deserialize, map_codec, user_codec}
use project_db.Value.{Kind, string_value, tombstone_value, other, Value}

-- The type is stored as the `int` under the enumeration.
unfoldable pub kind_code : Kind → ℕ
kind_code string_value = 0
kind_code tombstone_value = 1
kind_code (other n) = n

unfoldable pub kind_of_code : ℕ → Kind
kind_of_code zero = string_value
kind_of_code (suc zero) = tombstone_value
kind_of_code (suc (suc n)) = other (suc (suc n))

abbrev pub size_of_kind : ℕ
size_of_kind = 4

unfoldable pub serialize_kind : Serialize Kind
unfolding kind_code
serialize_kind k os = trivial_serialize size_of_kind (kind_code k) os

unfoldable pub deserialize_kind : Deserialize Kind
unfolding kind_of_code
deserialize_kind is = do (n, is') ← trivial_deserialize size_of_kind is; ok (kind_of_code n, is')

unfoldable pub serialize_impl : Serialize Value
unfolding serialize_kind string_serialize
serialize_impl v os = do os' ← serialize_kind v.m_type os; string_serialize v.m_value os'

unfoldable pub deserialize_impl : Deserialize Value
unfolding deserialize_kind string_deserialize
deserialize_impl is = do
  (k, is') ← deserialize_kind is
  (s, is'') ← string_deserialize is'
  ok (record { m_type = k; m_value = s }, is'')

unfoldable pub serialize_value : Serialize Value
unfolding user_serialize serialize_impl
serialize_value = user_serialize serialize_impl

unfoldable pub deserialize_value : Deserialize Value
unfolding user_deserialize deserialize_impl
deserialize_value = user_deserialize deserialize_impl

-- One of the two enumerators.
abbrev pub IsEnumerator : Kind → Type 0
IsEnumerator (other n) = ⊥
IsEnumerator _ = Unit {0}

pub kind_of_code-kind_code : (k : Kind) → IsEnumerator k → kind_of_code (kind_code k) ≡ k
unfolding kind_of_code kind_code
kind_of_code-kind_code string_value h = refl
kind_of_code-kind_code tombstone_value h = refl
kind_of_code-kind_code (other n) h = absurd h

abbrev pub stored_kind : Codec Kind
stored_kind =
    map_codec (trivial_codec size_of_kind) kind_of_code kind_code IsEnumerator
      kind_of_code-kind_code

pub kind_writes : (k : Kind) (os : OStream) → serialize_kind k os ≡ write (stored_kind.encode k) os
unfolding serialize_kind map_deserialize
kind_writes = stored_kind.writes

pub kind_reads :
    (k : Kind) (rest : Bytes) (pos : ℕ)
    → stored_kind.Fits k
    → deserialize_kind (istream (stored_kind.encode k ++ rest) pos)
      ≡ ok (k, istream rest (pos + length (stored_kind.encode k)))
unfolding deserialize_kind map_deserialize
kind_reads = stored_kind.reads

pub kind_cut_off :
    (k : Kind) (n pos : ℕ)
    → stored_kind.Fits k
    → n < length (stored_kind.encode k)
    → deserialize_kind (istream (take n (stored_kind.encode k)) pos) ≡ err end_of_stream
unfolding deserialize_kind map_deserialize
kind_cut_off = stored_kind.cut_off

abbrev pub kind_codec : Codec Kind
kind_codec = record {
  serialize = serialize_kind;
  deserialize = deserialize_kind;
  encode = stored_kind.encode;
  Fits = stored_kind.Fits;
  writes = kind_writes;
  reads = kind_reads;
  cut_off = kind_cut_off;
}

abbrev pub value_of : Kind × Bytes → Value
value_of p = record { m_type = p.0; m_value = p.1 }

abbrev pub value_parts : Value → Kind × Bytes
value_parts v = (v.m_type, v.m_value)

pub value_of_lem : (v : Value) → Unit {0} → value_of (value_parts v) ≡ v
value_of_lem v t = refl

abbrev pub stored_value : Codec Value
stored_value = user_codec (
    map_codec (pair_codec kind_codec string_codec) value_of value_parts (λ v. Unit {0})
      value_of_lem)

deserialize_value-stored : (is : IStream) → deserialize_value is ≡ stored_value.deserialize is
unfolding deserialize_value map_deserialize pair_deserialize
deserialize_value-stored is = simp bind_assoc

pub value_writes :
    (v : Value) (os : OStream) → serialize_value v os ≡ write (stored_value.encode v) os
unfolding serialize_value map_deserialize pair_serialize pair_deserialize
value_writes = stored_value.writes

pub value_reads :
    (v : Value) (rest : Bytes) (pos : ℕ)
    → stored_value.Fits v
    → deserialize_value (istream (stored_value.encode v ++ rest) pos)
      ≡ ok (v, istream rest (pos + length (stored_value.encode v)))
value_reads v rest pos fits = rw deserialize_value-stored (stored_value.reads v rest pos fits)

pub value_cut_off :
    (v : Value) (n pos : ℕ)
    → stored_value.Fits v
    → n < length (stored_value.encode v)
    → deserialize_value (istream (take n (stored_value.encode v)) pos) ≡ err end_of_stream
value_cut_off v n pos fits h = rw deserialize_value-stored (stored_value.cut_off v n pos fits h)

abbrev pub value_codec : Codec Value
value_codec = record {
  serialize = serialize_value;
  deserialize = deserialize_value;
  encode = stored_value.encode;
  Fits = stored_value.Fits;
  writes = value_writes;
  reads = value_reads;
  cut_off = value_cut_off;
}
