-- ===== src/Serializer/Codec.antt =====
-- What a pair of wrappers promises to its clients: the interface `Codec`, which stands for the
-- concept `Serializable` of utils/db_concepts.h.
use project_db.Common.{
  ℕ, ◌+◌, ◌<◌, ◌≡◌, true, [], ◌++◌, append-nil, append_assoc, arith, length, take, length-append,
  take-append, drop-append, Bytes, end_of_stream, ok, err, ◌>>=◌, le→leb, gt→leb,
}
use project_db.Serializer.Streams.{OStream, istream, write, read, Serialize, Deserialize}

pub record Codec {ℓ} (A : Type ℓ) : Type (ℓ ⊔ 1) where
  pub serialize : Serialize A
  pub deserialize : Deserialize A
  -- the bytes of a value, and the values whose bytes tell them
  pub encode : A → Bytes
  pub Fits : A → Type 0
  pub writes : (a : A) (os : OStream) → serialize a os ≡ write (encode a) os
  pub reads :
      (a : A) (rest : Bytes) (pos : ℕ)
      → Fits a
      → deserialize (istream (encode a ++ rest) pos)
        ≡ ok (a, istream rest (pos + length (encode a)))
  -- a file that ends inside a value
  pub cut_off :
      (a : A) (n pos : ℕ)
      → Fits a
      → n < length (encode a)
      → deserialize (istream (take n (encode a)) pos) ≡ err end_of_stream

-- Writing in two parts is writing at once.
pub write-append : (xs ys : Bytes) (os : OStream) → (write xs os >>= write ys) ≡ write (xs ++ ys) os
unfolding write
write-append xs ys os = ground (arith, append_assoc os.content xs ys)

pub write-nil : (os : OStream) → os.good ≡ true → write [] os ≡ ok os
unfolding write
write-nil os h = ground (arith, append-nil os.content)

-- Reading what stands there, and less than was asked for.
pub read-append :
    (xs ys : Bytes) (n pos : ℕ)
    → n ≡ length xs
    → read n (istream (xs ++ ys) pos) ≡ ok (xs, istream ys (pos + n))
unfolding read
read-append xs ys n pos h = rw h (
    rw (
      le→leb (length xs) (length (xs ++ ys)) (omega (arith, length-append xs ys)),
      take-append xs ys,
      drop-append xs ys,
    ))

pub read_short :
    (xs : Bytes) (n pos : ℕ) → length xs < n → read n (istream xs pos) ≡ err end_of_stream
unfolding read
read_short xs n pos h = rw (gt→leb n (length xs) h)
