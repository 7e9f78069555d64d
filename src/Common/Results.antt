-- ===== src/Common/Results.antt =====
-- Failure as a value: a `DbException`, or a standard thrown that no handler of the code catches.
use mathlib.Core.Path.{◌≡◌, refl}
use mathlib.Core.Logic.{◌⊎◌, inl, inr}

pub data Error : Type 0 where
  -- a `DbException` thrown on a stream that is at its end (`eofbit` is set)
  end_of_stream : Error
  -- a `DbException` thrown for another reason
  db_exception : Error
  -- `std::invalid_argument` and `std::out_of_range` of the number parsers
  invalid_argument out_of_range : Error
  -- `std::filesystem::filesystem_error`
  filesystem_error : Error
  -- no error of the code: the fuel of a loop ran out
  out_of_fuel : Error
  -- nor this one: C++ gives the step no behaviour
  undefined_behaviour : Error

-- What a call gives: a value, or what it throws.
pub data Result {ℓ} (V : Type ℓ) : Type ℓ where
  ok : (value : V) → Result V
  err : (thrown : Error) → Result V

module _ {ℓ κ} {V : Type ℓ} {W : Type κ} where
  infixl 5 ◌>>=◌
  abbrev pub ◌>>=◌ : Result V → (V → Result W) → Result W
  err thrown >>= rest = err thrown
  ok value >>= rest = rest value

module _ {ℓ κ ι} {V : Type ℓ} {W : Type κ} {X : Type ι} where
  pub bind_assoc :
      (r : Result V) (s : V → Result W) (t : W → Result X)
      → (r >>= s >>= t) ≡ (r >>= λ value. s value >>= t)
  bind_assoc (err thrown) s t = refl
  bind_assoc (ok value) s t = refl

pub ok-injective {ℓ} : {V : Type ℓ} {x y : V} → ok x ≡ ok y → x ≡ y
ok-injective e = cc

pub Result-cases {ℓ} :
    {V : Type ℓ} (r : Result V) → ((v : V) × (r ≡ ok v)) ⊎ ((thrown : Error) × (r ≡ err thrown))
Result-cases (ok v) = inl (v, refl)
Result-cases (err thrown) = inr (thrown, refl)
