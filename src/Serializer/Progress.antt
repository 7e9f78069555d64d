-- ===== src/Serializer/Progress.antt =====
-- What a wrapper leaves of a stream, whatever the stream holds.
use project_db.Common.{
  ℕ, ◌+◌, ◌≤◌, ◌≢◌, inl, inr, arith, length, length-drop, out_of_fuel, Result, ok, err, ◌>>=◌,
  le→leb, gt→leb, Bool-cases, zero, suc, ◌≡◌, ◌⊎◌, true, false, [], db_exception, if◌then◌else◌,
}
use project_db.Serializer.Streams.{
  IStream, read, trivial_deserialize, Deserialize, user_deserialize,
}
use native.Mathlib.Decide.{dec_le}
use project_db.Serializer.Containers.{size_of_size_t, deserialize_all, container_deserialize}
use project_db.Serializer.Strings.{push_back, string_deserialize}

-- A result that leaves `least` bytes fewer than `n`, or an error of the code.
abbrev pub Leaves {ℓ} : {A : Type ℓ} → ℕ → ℕ → Result (A × IStream) → Type 0
Leaves least n (ok (x, is)) = length is.rest + least ≤ n
Leaves least n (err e) = e ≢ out_of_fuel

module _ {ℓ κ} {A : Type ℓ} {B : Type κ} where
  pub Leaves-bind :
      (least more n : ℕ) (m : Result (A × IStream)) (f : A × IStream → Result (B × IStream))
      → Leaves least n m
      → ((x : A) (is : IStream) → Leaves more (length is.rest) (f (x, is)))
      → Leaves (least + more) n (m >>= f)
  Leaves-bind least more n (ok (x, is)) f h k = weaken (f (x, is)) (k x is)
    where
      weaken :
          (r : Result (B × IStream)) → Leaves more (length is.rest) r → Leaves (least + more) n r
      weaken (ok (y, is')) l = omega (arith, h)
      weaken (err e) l = l
  Leaves-bind least more n (err e) f h k = h

pub Leaves-weaken {ℓ} :
    {A : Type ℓ} (least n : ℕ) (r : Result (A × IStream)) → Leaves least n r → Leaves 0 n r
Leaves-weaken least n (ok (x, is)) l = omega (arith, l)
Leaves-weaken least n (err e) l = l

pub Leaves-read : (size : ℕ) (is : IStream) → Leaves size (length is.rest) (read size is)
unfolding read
Leaves-read size is = elim (Bool-cases is.opened) [
  | inl o ↦ elim (dec_le size (length is.rest)) [
    | yes le ↦ rw o (rw (le→leb size (length is.rest) le) (omega (arith, length-drop size is.rest)))
    | no gt ↦ rw o (rw (gt→leb size (length is.rest) (omega arith)) (λ e. cc))
  ]
  | inr o ↦ rw o (λ e. cc)
]

pub Leaves-trivial :
    (size : ℕ) (is : IStream) → Leaves (size + 0) (length is.rest) (trivial_deserialize size is)
unfolding trivial_deserialize
Leaves-trivial size is =
    Leaves-bind size 0 (length is.rest) (read size is) _ (Leaves-read size is)
      (λ bytes is'. omega arith)

module _ {ℓ κ} {A : Type ℓ} {T : Type κ} (element : Deserialize A) (insert : A → T → T)
    (reads : (is : IStream) → Leaves 0 (length is.rest) (element is)) where
  Leaves-all :
      (size : ℕ) (rtn : T) (is : IStream)
      → Leaves 0 (length is.rest) (deserialize_all element insert size rtn is)
  unfolding deserialize_all
  Leaves-all zero rtn is = omega arith
  Leaves-all (suc size) rtn is =
      Leaves-bind 0 0 (length is.rest) (element is) _ (reads is)
        (λ x is'. Leaves-all size (insert x rtn) is')

  pub Leaves-container :
      (fresh : T) (is : IStream)
      → Leaves 0 (length is.rest) (container_deserialize element insert fresh is)
  unfolding container_deserialize
  Leaves-container fresh is = Leaves-weaken (size_of_size_t + 0 + 0) (length is.rest) _ (
      Leaves-bind (size_of_size_t + 0) 0 (length is.rest) (trivial_deserialize size_of_size_t is) _
        (Leaves-trivial size_of_size_t is) (λ size is'. Leaves-all size fresh is'))

module _ {ℓ} {A : Type ℓ} (d : Deserialize A) where
  pub Leaves-user :
      (is : IStream)
      → Leaves 0 (length is.rest) (d is)
      → Leaves 0 (length is.rest) (user_deserialize d is)
  unfolding user_deserialize
  Leaves-user is h =
      Leaves-bind 0 0 (length is.rest) (d is) _ h (λ x is'. checked x is' (Bool-cases is'.opened))
    where
      checked :
          (x : A) (is' : IStream)
          → ((is'.opened ≡ true) ⊎ (is'.opened ≡ false))
          → Leaves 0 (length is'.rest) (if is'.opened then ok (x, is') else err db_exception)
      checked x is' (inl e) = rw e (omega arith)
      checked x is' (inr e) = rw e (λ p. cc)

pub Leaves-string : (is : IStream) → Leaves 0 (length is.rest) (string_deserialize is)
unfolding string_deserialize
Leaves-string is =
    Leaves-container (trivial_deserialize 1) push_back
      (λ is'. Leaves-weaken 1 (length is'.rest) _ (Leaves-trivial 1 is')) [] is
