-- ===== src/Key.antt =====
-- The class `Key` (db/key.h, db/key.cpp): a string with its order.
pub mod Stored
use project_db.Common.{
  ℕ, ◌%◌, ◌^◌, ◌≡◌, ◌↔◌, refl, ap, Bool, true, false, ◌&&◌, [], ◌∷◌, arith, Bytes, length, ltb,
  ◌==◌, if◌then◌else◌,
}
use project_db.StdMap.{Ord}

pub record Key : Type 0 where
  pub m_key : Bytes

-- `operator<` of std::string, on bytes
unfoldable pub string_less : Bytes → Bytes → Bool
string_less xs [] = false
string_less [] (y ∷ ys) = true
string_less (x ∷ xs) (y ∷ ys) =
    if ltb x y then true else if ltb y x then false else string_less xs ys

-- `operator==` of std::string
unfoldable pub string_eq : Bytes → Bytes → Bool
string_eq [] [] = true
string_eq (x ∷ xs) (y ∷ ys) = x == y && string_eq xs ys
string_eq _ _ = false

unfoldable pub less : Key → Key → Bool
unfolding string_less
less lhs rhs = string_less lhs.m_key rhs.m_key

unfoldable pub beq : Key → Key → Bool
unfolding string_eq
beq lhs rhs = string_eq lhs.m_key rhs.m_key

-- the `unsigned` result of `size_t` arithmetic
unfoldable pub get_approximate_size_in_bytes : Key → ℕ
get_approximate_size_in_bytes k = length k.m_key % 2 ^ 32

pub string_eq_iff : (xs ys : Bytes) → (string_eq xs ys ≡ true) ↔ (xs ≡ ys)
unfolding string_eq
string_eq_iff [] [] = ground arith
string_eq_iff [] (y ∷ ys) = ground arith
string_eq_iff (x ∷ xs) [] = ground arith
string_eq_iff (x ∷ xs) (y ∷ ys) = ground (arith, string_eq_iff xs ys)

string_less_irrefl : (xs : Bytes) → string_less xs xs ≡ false
unfolding string_less
string_less_irrefl [] = refl
string_less_irrefl (x ∷ xs) = ground (arith, string_less_irrefl xs)

string_less_trans :
    (xs ys zs : Bytes)
    → string_less xs ys ≡ true
    → string_less ys zs ≡ true
    → string_less xs zs ≡ true
unfolding string_less
string_less_trans xs [] zs p q = cc
string_less_trans xs (y ∷ ys) [] p q = cc
string_less_trans [] (y ∷ ys) (z ∷ zs) p q = refl
string_less_trans (x ∷ xs) (y ∷ ys) (z ∷ zs) p q = ground (arith, string_less_trans xs ys zs)

string_less_total :
    (xs ys : Bytes) → string_less xs ys ≡ false → string_less ys xs ≡ false → xs ≡ ys
unfolding string_less
string_less_total [] [] p q = refl
string_less_total [] (y ∷ ys) p q = cc
string_less_total (x ∷ xs) [] p q = cc
string_less_total (x ∷ xs) (y ∷ ys) p q = ground (arith, string_less_total xs ys)

Key-eq : (a b : Key) → a.m_key ≡ b.m_key → a ≡ b
Key-eq a b p = λ i. record { m_key = p i }

pub beq_iff : (a b : Key) → (beq a b ≡ true) ↔ (a ≡ b)
unfolding beq
beq_iff a b = (
  λ h. Key-eq a b ((string_eq_iff a.m_key b.m_key).0 h),
  λ e. (string_eq_iff a.m_key b.m_key).1 (ap (λ (k : Key). k.m_key) e),
)

pub less_irrefl : (a : Key) → less a a ≡ false
unfolding less
less_irrefl a = string_less_irrefl a.m_key

pub less_trans : (a b c : Key) → less a b ≡ true → less b c ≡ true → less a c ≡ true
unfolding less
less_trans a b c = string_less_trans a.m_key b.m_key c.m_key

pub less_total : (a b : Key) → less a b ≡ false → less b a ≡ false → a ≡ b
unfolding less
less_total a b p q = Key-eq a b (string_less_total a.m_key b.m_key p q)

instance abbrev pub key_ord : Ord Key
key_ord = record {
  less = less;
  beq = beq;
  beq_iff = beq_iff;
  less_irrefl = less_irrefl;
  less_trans = less_trans;
  less_total = less_total;
}
