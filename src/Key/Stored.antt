-- ===== src/Key/Stored.antt =====
-- `Key::serializeImpl` and `Key::deserializeImpl` (db/key.cpp).
use project_db.Common.{
  ◌≡◌, refl, Bytes, ok, ◌>>=◌, ℕ, ◌+◌, ◌<◌, ◌++◌, length, take, end_of_stream, err,
}
use project_db.Key.{Key}
use project_db.Serializer.Codec.{Codec}
use project_db.Serializer.Streams.{
  Serialize, Deserialize, user_serialize, user_deserialize, OStream, istream, write,
}
use project_db.Serializer.Strings.{string_serialize, string_deserialize, string_codec}
use project_db.Serializer.Wrapped.{map_deserialize, map_codec, user_codec}

unfoldable pub serialize_impl : Serialize Key
unfolding string_serialize
serialize_impl k os = string_serialize k.m_key os

unfoldable pub deserialize_impl : Deserialize Key
unfolding string_deserialize
deserialize_impl is = do (s, is') ← string_deserialize is; ok (record { m_key = s }, is')

unfoldable pub serialize_key : Serialize Key
unfolding user_serialize serialize_impl
serialize_key = user_serialize serialize_impl

unfoldable pub deserialize_key : Deserialize Key
unfolding user_deserialize deserialize_impl
deserialize_key = user_deserialize deserialize_impl

abbrev pub key_of : Bytes → Key
key_of s = record { m_key = s }

pub key_of_lem : (k : Key) → Unit {0} → key_of k.m_key ≡ k
key_of_lem k t = refl

abbrev pub stored_key : Codec Key
stored_key = user_codec (map_codec string_codec key_of (λ k. k.m_key) (λ k. Unit {0}) key_of_lem)

pub key_writes : (k : Key) (os : OStream) → serialize_key k os ≡ write (stored_key.encode k) os
unfolding serialize_key map_deserialize
key_writes = stored_key.writes

pub key_reads :
    (k : Key) (rest : Bytes) (pos : ℕ)
    → stored_key.Fits k
    → deserialize_key (istream (stored_key.encode k ++ rest) pos)
      ≡ ok (k, istream rest (pos + length (stored_key.encode k)))
unfolding deserialize_key map_deserialize
key_reads = stored_key.reads

pub key_cut_off :
    (k : Key) (n pos : ℕ)
    → stored_key.Fits k
    → n < length (stored_key.encode k)
    → deserialize_key (istream (take n (stored_key.encode k)) pos) ≡ err end_of_stream
unfolding deserialize_key map_deserialize
key_cut_off = stored_key.cut_off

abbrev pub key_codec : Codec Key
key_codec = record {
  serialize = serialize_key;
  deserialize = deserialize_key;
  encode = stored_key.encode;
  Fits = stored_key.Fits;
  writes = key_writes;
  reads = key_reads;
  cut_off = key_cut_off;
}
