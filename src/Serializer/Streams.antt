-- ===== src/Serializer/Streams.antt =====
-- The streams, and the wrappers of trivial types, user-defined types and pairs.
use project_db.Common.{
  ℕ, zero, suc, ◌+◌, ◌*◌, ◌/◌, ◌%◌, Bool, true, [], ◌∷◌, ◌++◌, length, take, drop, Bytes,
  end_of_stream, db_exception, Result, ok, err, leb, if◌then◌else◌, ◌>>=◌, false, Option, none,
  some,
}

-- An `ostream`: what was written, and whether the stream is good.
pub record OStream : Type 0 where
  pub content : Bytes
  pub good : Bool

-- An `istream`: what is left to read, the position, and whether the file was opened.
pub record IStream : Type 0 where
  pub rest : Bytes
  pub pos : ℕ
  pub opened : Bool

abbrev pub tellp : OStream → ℕ
tellp os = length os.content

abbrev pub ostream : Bytes → OStream
ostream content = record { content = content; good = true }

abbrev pub istream : Bytes → ℕ → IStream
istream rest pos = record { rest = rest; pos = pos; opened = true }

-- `getFileStream(..., ios::in)`: a missing file leaves a stream on which reads fail
abbrev pub open_istream : Option Bytes → IStream
open_istream none = record { rest = []; pos = 0; opened = false }
open_istream (some file) = istream file 0

abbrev pub seekg : Option Bytes → ℕ → IStream
seekg none start = record { rest = []; pos = start; opened = false }
seekg (some file) start = istream (drop start file) start

-- os.write(...); if (!os) throw
unfoldable pub write : Bytes → OStream → Result OStream
write bytes os =
    if os.good then ok (record os { content = os.content ++ bytes }) else err db_exception

-- is.read(...); if (!is) throw: too short a file leaves `eofbit`, a missing one does not
unfoldable pub read : ℕ → IStream → Result (Bytes × IStream)
read n is =
    if is.opened
    then if leb n (length is.rest)
      then ok (take n is.rest, record is { rest = drop n is.rest; pos = is.pos + n })
      else err end_of_stream
    else err db_exception

-- The bytes of an unsigned number of `w` bytes, the lowest first.
unfoldable pub le_bytes : ℕ → ℕ → Bytes
le_bytes zero x = []
le_bytes (suc w) x = (x % 256) ∷ le_bytes w (x / 256)

unfoldable pub of_le_bytes : Bytes → ℕ
of_le_bytes [] = 0
of_le_bytes (b ∷ bs) = b + 256 * of_le_bytes bs

unfoldable pub trivial_serialize : ℕ → ℕ → OStream → Result OStream
unfolding le_bytes write
trivial_serialize size t os = write (le_bytes size t) os

unfoldable pub trivial_deserialize : ℕ → IStream → Result (ℕ × IStream)
unfolding read of_le_bytes
trivial_deserialize size is = do (bytes, is') ← read size is; ok (of_le_bytes bytes, is')

abbrev pub Serialize {ℓ} : Type ℓ → Type ℓ
Serialize A = A → OStream → Result OStream

abbrev pub Deserialize {ℓ} : Type ℓ → Type ℓ
Deserialize A = IStream → Result (A × IStream)

module _ {ℓ κ} {A : Type ℓ} {B : Type κ} where
  unfoldable pub pair_serialize : Serialize A → Serialize B → Serialize (A × B)
  pair_serialize first second (a, b) os = do os' ← first a os; second b os'

  unfoldable pub pair_deserialize : Deserialize A → Deserialize B → Deserialize (A × B)
  pair_deserialize first second is = do
    (a, is') ← first is
    (b, is'') ← second is'
    ok ((a, b), is'')

-- The wrappers of user-defined types: `serializeImpl`, `deserializeImpl` and the check of the stream.
module _ {ℓ} {A : Type ℓ} where
  unfoldable pub user_serialize : Serialize A → Serialize A
  user_serialize serialize_impl t os = do
    os' ← serialize_impl t os
    if os'.good then ok os' else err db_exception

  unfoldable pub user_deserialize : Deserialize A → Deserialize A
  user_deserialize deserialize_impl is = do
    (rtn, is') ← deserialize_impl is
    if is'.opened then ok (rtn, is') else err db_exception
