-- ===== src/Serializer/Trivial.antt =====
-- Fixed-width numbers: the wrappers of trivial types meet the interface.
use project_db.Common.{
  ℕ, zero, suc, ◌+◌, ◌/◌, ◌^◌, ◌<◌, ◌≡◌, refl, sym, ap, ◌++◌, arith, length, take, length-take,
  Bytes, IsBytes, end_of_stream, ok, err,
}
use project_db.Serializer.Codec.{Codec, read-append, read_short}
use project_db.Serializer.Streams.{
  OStream, istream, write, le_bytes, of_le_bytes, trivial_serialize, trivial_deserialize,
}
use native.Mathlib.Nat.{pow-suc}

pub length-le_bytes : (w x : ℕ) → length (le_bytes w x) ≡ w
unfolding le_bytes
length-le_bytes zero x = refl
length-le_bytes (suc w) x = ap suc (length-le_bytes w (x / 256))

-- The bytes of a number that fits in them tell the number.
pub of_le_bytes-le_bytes : (w x : ℕ) → x < 256 ^ w → of_le_bytes (le_bytes w x) ≡ x
unfolding le_bytes of_le_bytes
of_le_bytes-le_bytes zero x h = omega arith
of_le_bytes-le_bytes (suc w) x h =
    let small : x / 256 < 256 ^ w = omega (arith, pow-suc 256 w) in
    omega (arith, of_le_bytes-le_bytes w (x / 256) small)

pub le_bytes-IsBytes : (w x : ℕ) → IsBytes (le_bytes w x)
unfolding le_bytes
le_bytes-IsBytes zero x = tt
le_bytes-IsBytes (suc w) x = (omega arith, le_bytes-IsBytes w (x / 256))

module _ (size : ℕ) where
  pub trivial_writes :
      (t : ℕ) (os : OStream) → trivial_serialize size t os ≡ write (le_bytes size t) os
  unfolding trivial_serialize
  trivial_writes t os = refl

  pub trivial_reads :
      (t : ℕ) (rest : Bytes) (pos : ℕ)
      → t < 256 ^ size
      → trivial_deserialize size (istream (le_bytes size t ++ rest) pos)
        ≡ ok (t, istream rest (pos + length (le_bytes size t)))
  unfolding trivial_deserialize
  trivial_reads t rest pos h = rw (
    read-append (le_bytes size t) rest size pos (sym (length-le_bytes size t)),
    of_le_bytes-le_bytes size t h,
    length-le_bytes size t,
  )

  pub trivial_cut_off :
      (t n pos : ℕ)
      → t < 256 ^ size
      → n < length (le_bytes size t)
      → trivial_deserialize size (istream (take n (le_bytes size t)) pos) ≡ err end_of_stream
  unfolding trivial_deserialize
  trivial_cut_off t n pos fits h = rw (
      read_short (take n (le_bytes size t)) size pos
        (omega (arith, length-take n (le_bytes size t), length-le_bytes size t)))

  abbrev pub trivial_codec : Codec ℕ
  trivial_codec = record {
    serialize = trivial_serialize size;
    deserialize = trivial_deserialize size;
    encode = le_bytes size;
    Fits = λ t. t < 256 ^ size;
    writes = trivial_writes;
    reads = trivial_reads;
    cut_off = trivial_cut_off;
  }
