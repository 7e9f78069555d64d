-- ===== src/Value.antt =====
-- The class `Value` (db/value.h, db/value.cpp): a string, or the mark of a removed key.
pub mod Stored
use project_db.Common.{
  ℕ, ◌+◌, ◌%◌, ◌^◌, Bool, true, false, Option, none, some, [], Bytes, length, if◌then◌else◌,
}

-- `enum class Type`, over `int`: a file can hold a number that no enumerator has.
pub data Kind : Type 0 where
  string_value tombstone_value : Kind
  other : ℕ → Kind

pub record Value : Type 0 where
  pub m_type : Kind
  pub m_value : Bytes

-- Value()
abbrev pub tombstone : Value
tombstone = record { m_type = tombstone_value; m_value = [] }

-- Value(string)
abbrev pub of_string : Bytes → Value
of_string s = record { m_type = string_value; m_value = s }

is_tombstone : Kind → Bool
is_tombstone tombstone_value = true
is_tombstone _ = false

unfoldable pub is_tombstone_value : Value → Bool
unfolding is_tombstone
is_tombstone_value v = is_tombstone v.m_type

unfoldable pub underlying_value : Value → Option Bytes
unfolding is_tombstone_value
underlying_value v = if is_tombstone_value v then none else some v.m_value

-- sizeof(m_type) is 4; the sum of `size_t` numbers is cut to `unsigned`
unfoldable pub get_approximate_size_in_bytes : Value → ℕ
get_approximate_size_in_bytes v = (4 + length v.m_value) % 2 ^ 32
