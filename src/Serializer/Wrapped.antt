-- ===== src/Serializer/Wrapped.antt =====
-- A type that is stored as another one, and the wrappers of user-defined types.
use project_db.Common.{
  ℕ, ◌+◌, ◌<◌, ◌≡◌, ◌++◌, arith, length, take, Bytes, end_of_stream, ok, err, ◌>>=◌,
}
use project_db.Serializer.Codec.{Codec}
use project_db.Serializer.Streams.{
  OStream, istream, write, Deserialize, user_serialize, user_deserialize,
}

module _ {ℓ κ} {A : Type ℓ} {B : Type κ} (c : Codec A) (to : A → B) (from : B → A)
    (Good : B → Type 0) (to-from : (b : B) → Good b → to (from b) ≡ b) where
  abbrev pub MapFits : B → Type 0
  MapFits b = c.Fits (from b) × Good b

  unfoldable pub map_deserialize : Deserialize B
  map_deserialize is = do (a, is') ← c.deserialize is; ok (to a, is')

  pub map_reads :
      (b : B) (rest : Bytes) (pos : ℕ)
      → MapFits b
      → map_deserialize (istream (c.encode (from b) ++ rest) pos)
        ≡ ok (b, istream rest (pos + length (c.encode (from b))))
  unfolding map_deserialize
  map_reads b rest pos (fits, good) = rw (c.reads (from b) rest pos fits, to-from b good)

  pub map_cut_off :
      (b : B) (n pos : ℕ)
      → MapFits b
      → n < length (c.encode (from b))
      → map_deserialize (istream (take n (c.encode (from b))) pos) ≡ err end_of_stream
  unfolding map_deserialize
  map_cut_off b n pos (fits, good) h = rw (c.cut_off (from b) n pos fits h)

  abbrev pub map_codec : Codec B
  map_codec = record {
    serialize = λ b. c.serialize (from b);
    deserialize = map_deserialize;
    encode = λ b. c.encode (from b);
    Fits = MapFits;
    writes = λ b. c.writes (from b);
    reads = map_reads;
    cut_off = map_cut_off;
  }

module _ {ℓ} {A : Type ℓ} (c : Codec A) where
  pub user_writes : (a : A) (os : OStream) → user_serialize c.serialize a os ≡ write (c.encode a) os
  unfolding user_serialize write
  user_writes a os = rw (c.writes a os) (ground arith)

  pub user_reads :
      (a : A) (rest : Bytes) (pos : ℕ)
      → c.Fits a
      → user_deserialize c.deserialize (istream (c.encode a ++ rest) pos)
        ≡ ok (a, istream rest (pos + length (c.encode a)))
  unfolding user_deserialize
  user_reads a rest pos fits = rw (c.reads a rest pos fits)

  pub user_cut_off :
      (a : A) (n pos : ℕ)
      → c.Fits a
      → n < length (c.encode a)
      → user_deserialize c.deserialize (istream (take n (c.encode a)) pos) ≡ err end_of_stream
  unfolding user_deserialize
  user_cut_off a n pos fits h = rw (c.cut_off a n pos fits h)

  abbrev pub user_codec : Codec A
  user_codec = record {
    serialize = user_serialize c.serialize;
    deserialize = user_deserialize c.deserialize;
    encode = c.encode;
    Fits = c.Fits;
    writes = user_writes;
    reads = user_reads;
    cut_off = user_cut_off;
  }
