-- ===== src/ConfigParser/RoundTrip.antt =====
-- A file that lists a whole configuration is read back.
use project_db.Common.{
  ℕ, ◌^◌, ◌<◌, ◌≡◌, refl, ◌∙◌, Bool, true, false, ◌&&◌, none, some, List, [], ◌∷◌, arith, Bytes, ok,
  if◌then◌else◌,
}
use project_db.Config.{DbConfig}
use project_db.ConfigParser.{
  lines_of, is_name_char, scan_number, stoi, bool_config, update_config, parse_lines, parse,
}
use project_db.ConfigParser.Lines.{IsText, IsName, IsNonempty, IsSetting}
use project_db.ConfigParser.Printed.{
  unsigned_config-to_string, IsDecimal-IsText, print_settings, parse_printed,
}
use project_db.FileSystem.Counter.{not_empty_text-to_string, to_string-IsDecimal}
use project_db.FileSystem.Names.{codes, to_string}
use project_db.Key.{string_eq}

-- The settings of a configuration, with the names that the parser knows.
unfoldable pub settings_of : DbConfig → List (Bytes × Bytes)
settings_of config =
    (codes "DB_FILE_PATH", config.db_file_path)
    ∷ (
      codes "MEMTABLE_APPROXIMATE_MAX_SIZE_IN_BYTES",
      to_string config.memtable_approximate_max_size_in_bytes,
    )
    ∷ (
      codes "SSTABLE_APPROXIMATE_MAX_SIZE_IN_BYTES",
      to_string config.sstable_approximate_max_size_in_bytes,
    )
    ∷ (
      codes "SSTABLE_INDEX_BLOCK_SIZE_IN_BYTES",
      to_string config.sstable_index_block_size_in_bytes,
    )
    ∷ (codes "NUM_SSTABLE_TO_COMPACT", to_string config.num_sstable_to_compact)
    ∷ (
      codes "KEEP_SSTABLE_FILE_OPEN",
      if config.keep_sstable_file_open then codes "1" else codes "0",
    )
    ∷ []

-- The path is within a line, and the numbers are `unsigned`.
abbrev pub IsPrintable : DbConfig → Type 0
IsPrintable config =
    IsText config.db_file_path
    × IsNonempty config.db_file_path
    × (config.memtable_approximate_max_size_in_bytes < 2 ^ 32)
    × (config.sstable_approximate_max_size_in_bytes < 2 ^ 32)
    × (config.sstable_index_block_size_in_bytes < 2 ^ 32)
    × (config.num_sstable_to_compact < 2 ^ 32)

all_name_chars : Bytes → Bool
all_name_chars [] = true
all_name_chars (c ∷ s) = is_name_char c && all_name_chars s

all_name_chars-IsName : (s : Bytes) → all_name_chars s ≡ true → IsName s
unfolding all_name_chars
all_name_chars-IsName [] h = tt
all_name_chars-IsName (c ∷ s) h = (ground arith, all_name_chars-IsName s (ground arith))

-- A number under a name.
number-IsSetting :
    (name : Bytes) (n : ℕ)
    → all_name_chars name ≡ true
    → IsNonempty name
    → IsSetting (name, to_string n)
number-IsSetting name n h more = (
  all_name_chars-IsName name h,
  more,
  IsDecimal-IsText (to_string n) (to_string-IsDecimal n),
  not_empty_text-to_string n,
)

bool-IsSetting :
    (b : Bool) → IsSetting (codes "KEEP_SSTABLE_FILE_OPEN", if b then codes "1" else codes "0")
unfolding all_name_chars
bool-IsSetting true =
    (all_name_chars-IsName (codes "KEEP_SSTABLE_FILE_OPEN") refl, refl, (refl, tt), refl)
bool-IsSetting false =
    (all_name_chars-IsName (codes "KEEP_SSTABLE_FILE_OPEN") refl, refl, (refl, tt), refl)

nothing_more : (config : DbConfig) → parse (some (print_settings [])) config ≡ (none, config)
unfolding parse parse_lines print_settings lines_of
nothing_more config = refl

module _ (n : ℕ) (small : n < 2 ^ 32) (config : DbConfig) where
  memtable_updated :
      update_config (codes "MEMTABLE_APPROXIMATE_MAX_SIZE_IN_BYTES") (to_string n) config
      ≡ ok (record config { memtable_approximate_max_size_in_bytes = n })
  unfolding update_config string_eq
  memtable_updated = rw (unsigned_config-to_string n small) refl

  sstable_updated :
      update_config (codes "SSTABLE_APPROXIMATE_MAX_SIZE_IN_BYTES") (to_string n) config
      ≡ ok (record config { sstable_approximate_max_size_in_bytes = n })
  unfolding update_config string_eq
  sstable_updated = rw (unsigned_config-to_string n small) refl

  block_size_updated :
      update_config (codes "SSTABLE_INDEX_BLOCK_SIZE_IN_BYTES") (to_string n) config
      ≡ ok (record config { sstable_index_block_size_in_bytes = n })
  unfolding update_config string_eq
  block_size_updated = rw (unsigned_config-to_string n small) refl

  num_updated :
      update_config (codes "NUM_SSTABLE_TO_COMPACT") (to_string n) config
      ≡ ok (record config { num_sstable_to_compact = n })
  unfolding update_config string_eq
  num_updated = rw (unsigned_config-to_string n small) refl

path_updated :
    (path : Bytes) (config : DbConfig)
    → update_config (codes "DB_FILE_PATH") path config ≡ ok (record config { db_file_path = path })
unfolding update_config string_eq
path_updated path config = refl

keep_updated :
    (b : Bool) (config : DbConfig)
    → update_config (codes "KEEP_SSTABLE_FILE_OPEN") (if b then codes "1" else codes "0") config
      ≡ ok (record config { keep_sstable_file_open = b })
unfolding update_config string_eq bool_config stoi scan_number
keep_updated true config = refl
keep_updated false config = refl

-- A file that lists the settings of a configuration, whose path is within a line and not empty,
-- makes the parser set that configuration, whatever was set before, and nothing is thrown.
pub parse-print_settings :
    (config before : DbConfig)
    → IsPrintable config
    → parse (some (print_settings (settings_of config))) before ≡ (none, config)
unfolding settings_of all_name_chars
parse-print_settings config before (text, some_path, memtable, sstable, block_size, num) =
    parse_printed (codes "DB_FILE_PATH") config.db_file_path _ before _
      (all_name_chars-IsName (codes "DB_FILE_PATH") refl, refl, text, some_path)
      (path_updated config.db_file_path before)
    ∙ parse_printed (codes "MEMTABLE_APPROXIMATE_MAX_SIZE_IN_BYTES") _ _ _ _
        (number-IsSetting _ config.memtable_approximate_max_size_in_bytes refl refl)
        (memtable_updated config.memtable_approximate_max_size_in_bytes memtable _)
    ∙ parse_printed (codes "SSTABLE_APPROXIMATE_MAX_SIZE_IN_BYTES") _ _ _ _
        (number-IsSetting _ config.sstable_approximate_max_size_in_bytes refl refl)
        (sstable_updated config.sstable_approximate_max_size_in_bytes sstable _)
    ∙ parse_printed (codes "SSTABLE_INDEX_BLOCK_SIZE_IN_BYTES") _ _ _ _
        (number-IsSetting _ config.sstable_index_block_size_in_bytes refl refl)
        (block_size_updated config.sstable_index_block_size_in_bytes block_size _)
    ∙ parse_printed (codes "NUM_SSTABLE_TO_COMPACT") _ _ _ _
        (number-IsSetting _ config.num_sstable_to_compact refl refl)
        (num_updated config.num_sstable_to_compact num _)
    ∙ parse_printed (codes "KEEP_SSTABLE_FILE_OPEN") _ _ _ _
        (bool-IsSetting config.keep_sstable_file_open)
        (keep_updated config.keep_sstable_file_open _)
    ∙ nothing_more _
