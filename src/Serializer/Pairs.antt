-- ===== src/Serializer/Pairs.antt =====
-- Pairs, and cutting a concatenation.
use project_db.Common.{
  ℕ, zero, suc, ◌+◌, ◌-◌, ◌≤◌, ◌<◌, ◌≡◌, refl, ap, List, [], ◌∷◌, ◌++◌, append_assoc, arith, length,
  take, length-append, Bytes, end_of_stream, ok, err,
}
use project_db.Serializer.Codec.{Codec, write-append}
use project_db.Serializer.Streams.{OStream, istream, write, pair_serialize, pair_deserialize}
use mathlib.Core.Path.{fun_ext}
use native.Mathlib.Nat.{add_assoc}
use native.Mathlib.Decide.{dec_lt}

module _ {ℓ} {A : Type ℓ} where
  pub take-append_short : (n : ℕ) (xs ys : List A) → n < length xs → take n (xs ++ ys) ≡ take n xs
  take-append_short n [] ys h = elim h [ ]
  take-append_short zero (x ∷ xs) ys h = refl
  take-append_short (suc n) (x ∷ xs) ys h = ap (◌∷◌ x) (take-append_short n xs ys (omega arith))

  pub take-append_long :
      (n : ℕ) (xs ys : List A) → length xs ≤ n → take n (xs ++ ys) ≡ xs ++ take (n - length xs) ys
  take-append_long n [] ys h = let e : n - 0 ≡ n = omega arith in rw e
  take-append_long zero (x ∷ xs) ys h = elim h [ ]
  take-append_long (suc n) (x ∷ xs) ys h =
      let e : suc n - suc (length xs) ≡ n - length xs = omega arith in
      rw e (ap (◌∷◌ x) (take-append_long n xs ys (omega arith)))

module _ {ℓ κ} {A : Type ℓ} {B : Type κ} (f : Codec A) (s : Codec B) where
  unfoldable pub pair_encode : A × B → Bytes
  pair_encode (a, b) = f.encode a ++ s.encode b

  abbrev pub PairFits : A × B → Type 0
  PairFits (a, b) = f.Fits a × s.Fits b

  pub pair_writes :
      (p : A × B) (os : OStream)
      → pair_serialize f.serialize s.serialize p os ≡ write (pair_encode p) os
  unfolding pair_serialize pair_encode
  pair_writes (a, b) os =
      rw (f.writes a os, fun_ext (s.writes b)) (write-append (f.encode a) (s.encode b) os)

  pub pair_reads :
      (p : A × B) (rest : Bytes) (pos : ℕ)
      → PairFits p
      → pair_deserialize f.deserialize s.deserialize (istream (pair_encode p ++ rest) pos)
        ≡ ok (p, istream rest (pos + length (pair_encode p)))
  unfolding pair_deserialize pair_encode
  pair_reads (a, b) rest pos (fa, fb) = rw (
    append_assoc (f.encode a) (s.encode b) rest,
    f.reads a (s.encode b ++ rest) pos fa,
    s.reads b rest (pos + length (f.encode a)) fb,
    length-append (f.encode a) (s.encode b),
    add_assoc pos (length (f.encode a)) (length (s.encode b)),
  )

  pub pair_cut_off :
      (p : A × B) (n pos : ℕ)
      → PairFits p
      → n < length (pair_encode p)
      → pair_deserialize f.deserialize s.deserialize (istream (take n (pair_encode p)) pos)
        ≡ err end_of_stream
  unfolding pair_deserialize pair_encode
  pair_cut_off (a, b) n pos (fa, fb) h = elim (dec_lt n (length (f.encode a))) [
    | yes lt ↦ rw (take-append_short n (f.encode a) (s.encode b) lt, f.cut_off a n pos fa lt)
    | no ge ↦ rw (
      take-append_long n (f.encode a) (s.encode b) (omega arith),
      f.reads a (take (n - length (f.encode a)) (s.encode b)) pos fa,
      s.cut_off b (n - length (f.encode a)) (pos + length (f.encode a)) fb
          (omega (arith, length-append (f.encode a) (s.encode b))),
    )
  ]

  abbrev pub pair_codec : Codec (A × B)
  pair_codec = record {
    serialize = pair_serialize f.serialize s.serialize;
    deserialize = pair_deserialize f.deserialize s.deserialize;
    encode = pair_encode;
    Fits = PairFits;
    writes = pair_writes;
    reads = pair_reads;
    cut_off = pair_cut_off;
  }
