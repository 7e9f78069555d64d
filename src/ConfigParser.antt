-- ===== src/ConfigParser.antt =====
-- The class `ConfigParser` (config/config_parser.cpp): a file that sets the variables of `db_config`.
pub mod Lines
pub mod Printed
pub mod RoundTrip
pub mod Invalid
use mathlib.Core.Option
use project_db.Common.{
  ℕ, ◌-◌, ◌%◌, ◌^◌, Bool, true, false, not, ◌&&◌, ◌||◌, Option, none, some, List, [], ◌∷◌, Bytes,
  Error, end_of_stream, db_exception, invalid_argument, out_of_range, Result, ok, err, ◌>>=◌, ltb,
  leb, ◌==◌, if◌then◌else◌,
}
use project_db.Config.{DbConfig}
use project_db.FileSystem.Counter.{digits, not_empty_text, of_decimal}
use project_db.FileSystem.Names.{codes}
use project_db.Key.{string_eq}

-- What `getline` gives of a file, one line after the other.
abbrev pub add_to_line : ℕ → List Bytes → List Bytes
add_to_line c [] = (c ∷ []) ∷ []
add_to_line c (line ∷ lines) = (c ∷ line) ∷ lines

unfoldable pub lines_of : Bytes → List Bytes
lines_of [] = []
lines_of (c ∷ s) = let rest = lines_of s in if c == 10 then [] ∷ rest else add_to_line c rest

-- the class [A-Z_]
abbrev pub is_name_char : ℕ → Bool
is_name_char c = (leb b'A' c && leb c b'Z') || c == b'_'

-- what a period of the regular expression does not match
abbrev pub is_terminator : ℕ → Bool
is_terminator c = c == 10 || c == 13

-- The part of the class in front, and the rest.
unfoldable pub span_name : Bytes → Bytes × Bytes
span_name [] = ([], [])
span_name (c ∷ s) =
    let (name, rest) = span_name s in if is_name_char c then (c ∷ name, rest) else ([], c ∷ s)

unfoldable pub span_value : Bytes → Bytes
span_value [] = []
span_value (c ∷ s) = let rest = span_value s in if is_terminator c then [] else c ∷ rest

abbrev pub value_after : Bytes → Option Bytes
value_after [] = none
value_after (c ∷ s) = if c == 32 then not_empty_text (span_value s) else none

-- A name, then a space and a value.
unfoldable pub match_parts : Bytes × Bytes → Option (Bytes × Bytes)
unfolding span_value
match_parts (name, rest) = elim (not_empty_text name) [
  | none ↦ none
  | some name' ↦ Option.map (λ value. (name', value)) (value_after rest)
]

-- regex_search for ^([A-Z_]+) (.+), with both groups; the class has no space, so its part in front is
-- followed by one or there is no match.
unfoldable pub match_config : Bytes → Option (Bytes × Bytes)
unfolding span_name match_parts
match_config line = match_parts (span_name line)

abbrev pub is_space : ℕ → Bool
is_space c = c == 32 || (leb 9 c && leb c 13)

unfoldable pub skip_space : Bytes → Bytes
skip_space [] = []
skip_space (c ∷ s) = let rest = skip_space s in if is_space c then rest else c ∷ s

-- A sign in front: whether it is a minus, and the rest.
abbrev pub take_sign : Bytes → Bool × Bytes
take_sign [] = (false, [])
take_sign (c ∷ s) =
    if c == b'-' then (true, s) else if c == b'+' then (false, s) else (false, c ∷ s)

-- What strtol and strtoul read: a minus or none, and the digits, if there are any.
unfoldable pub scan_digits : Bool × Bytes → Option (Bool × ℕ)
unfolding digits of_decimal
scan_digits (minus, rest) =
    Option.map (λ text. (minus, of_decimal 0 text)) (not_empty_text (digits rest))

unfoldable pub scan_number : Bytes → Option (Bool × ℕ)
unfolding skip_space scan_digits
scan_number s = scan_digits (take_sign (skip_space s))

-- std::stoul, for an `unsigned long` of 64 bits
unfoldable pub stoul : Bytes → Result ℕ
unfolding scan_number
stoul s = elim (scan_number s) [
  | none ↦ err invalid_argument
  | some (minus, n) ↦
      if ltb n (2 ^ 64) then ok (if minus then (2 ^ 64 - n) % 2 ^ 64 else n) else err out_of_range
]

-- std::stoi, as a sign and a magnitude
unfoldable pub stoi : Bytes → Result (Bool × ℕ)
unfolding scan_number
stoi s = elim (scan_number s) [
  | none ↦ err invalid_argument
  | some (minus, n) ↦
      if ltb n (2 ^ 31) || (minus && n == 2 ^ 31) then ok (minus, n) else err out_of_range
]

-- `setConfig` for an `unsigned` and for a `bool`; the one for a string takes any
unfoldable pub unsigned_config : Bytes → Result ℕ
unfolding stoul
unsigned_config value = do n ← stoul value; ok (n % 2 ^ 32)

abbrev pub bool_of : Bool × ℕ → Result Bool
bool_of (minus, n) =
    if n == 0 then ok false else if n == 1 && not minus then ok true else err db_exception

unfoldable pub bool_config : Bytes → Result Bool
unfolding stoi
bool_config value = stoi value >>= bool_of

unfoldable pub update_config : Bytes → Bytes → DbConfig → Result DbConfig
unfolding string_eq unsigned_config bool_config
update_config name value config =
    if string_eq name (codes "MEMTABLE_APPROXIMATE_MAX_SIZE_IN_BYTES")
    then (do
      n ← unsigned_config value
      ok (record config { memtable_approximate_max_size_in_bytes = n }))
    else if string_eq name (codes "SSTABLE_APPROXIMATE_MAX_SIZE_IN_BYTES")
    then (do
      n ← unsigned_config value
      ok (record config { sstable_approximate_max_size_in_bytes = n }))
    else if string_eq name (codes "SSTABLE_INDEX_BLOCK_SIZE_IN_BYTES")
    then (do
      n ← unsigned_config value
      ok (record config { sstable_index_block_size_in_bytes = n }))
    else if string_eq name (codes "NUM_SSTABLE_TO_COMPACT")
    then (do n ← unsigned_config value; ok (record config { num_sstable_to_compact = n }))
    else if string_eq name (codes "KEEP_SSTABLE_FILE_OPEN")
    then (do b ← bool_config value; ok (record config { keep_sstable_file_open = b }))
    else if string_eq name (codes "DB_FILE_PATH")
    then ok (record config { db_file_path = value })
    else err db_exception

-- The handler: a `DbException` is caught, and the line has no effect.
abbrev pub caught : DbConfig → Result DbConfig → Result DbConfig
caught config (ok config') = ok config'
caught config (err db_exception) = ok config
caught config (err end_of_stream) = ok config
caught config (err thrown) = err thrown

unfoldable pub parse_line : Bytes → DbConfig → Result DbConfig
unfolding match_config update_config
parse_line line config = elim (match_config line) [
  | none ↦ ok config
  | some (name, value) ↦ caught config (update_config name value config)
]

-- What escapes, if anything, and the settings that are left.
unfoldable pub parse_lines : List Bytes → DbConfig → Option Error × DbConfig
unfolding parse_line
parse_lines [] config = (none, config)
parse_lines (line ∷ lines) config = elim (parse_line line config) [
  | ok config' ↦ parse_lines lines config'
  | err thrown ↦ (some thrown, config)
]

-- The file, with `none` for a missing one.
unfoldable pub parse : Option Bytes → DbConfig → Option Error × DbConfig
unfolding lines_of parse_lines
parse none config = (some db_exception, config)
parse (some file) config = parse_lines (lines_of file) config
