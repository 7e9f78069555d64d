-- ===== src/FileSystem/Names.antt =====
-- The names of the database's files (config/db_config.cpp, utils/system_utils.cpp).
use Prim.Native.Char.{code}
use Prim.Native.String.{String}
use project_db.Common.{
  ℕ, zero, suc, ◌+◌, ◌/◌, ◌%◌, ◌^◌, [], ◌∷◌, ◌++◌, Bytes, ltb, ◌==◌, if◌then◌else◌,
}

-- the bytes of an ASCII literal
abbrev pub codes : String → Bytes
codes String.[] = []
codes (String.◌∷◌ c s) = code c ∷ codes s

abbrev pub db_file_prefix : Bytes
db_file_prefix = codes "project_db"

abbrev pub sstable_file_ext : Bytes
sstable_file_ext = codes ".sst"

abbrev pub sstable_file_flush_in_progress_ext : Bytes
sstable_file_flush_in_progress_ext = codes ".ip"

abbrev pub merged_sstable_file_ext : Bytes
merged_sstable_file_ext = codes ".merged"

abbrev pub transaction_log_file_ext : Bytes
transaction_log_file_ext = codes ".txl"

abbrev pub deprecated_file_ext : Bytes
deprecated_file_ext = codes ".deprecated"

-- std::to_string: the fuel is more than the number of digits
unfoldable pub decimal_loop : ℕ → ℕ → Bytes → Bytes
decimal_loop zero n acc = acc
decimal_loop (suc fuel) n acc =
    let rest = decimal_loop fuel (n / 10) ((48 + n % 10) ∷ acc) in
    if ltb n 10 then (48 + n) ∷ acc else rest

unfoldable pub to_string : ℕ → Bytes
unfolding decimal_loop
to_string n = decimal_loop (suc n) n []

unfoldable pub gen_file_name : ℕ → Bytes → Bytes
unfolding to_string
gen_file_name counter file_ext = db_file_prefix ++ (codes "_" ++ (to_string counter ++ file_ext))

unfoldable pub gen_deprecated_file_name : Bytes → Bytes
gen_deprecated_file_name base_file_name = base_file_name ++ deprecated_file_ext

unfoldable pub gen_ss_table_file_name : ℕ → Bytes
unfolding gen_file_name
gen_ss_table_file_name counter = gen_file_name counter sstable_file_ext

unfoldable pub gen_flush_in_progress_ss_table_file_name : Bytes → Bytes
gen_flush_in_progress_ss_table_file_name base_file_name =
    base_file_name ++ sstable_file_flush_in_progress_ext

unfoldable pub gen_merged_ss_table_file_name : Bytes → Bytes
gen_merged_ss_table_file_name base_file_name = base_file_name ++ merged_sstable_file_ext

-- TRANSACTION_LOG_FILE_COUNTER_BASE++, an `unsigned`
unfoldable pub gen_transaction_log_file_name : ℕ → Bytes × ℕ
unfolding gen_file_name
gen_transaction_log_file_name counter_base =
    (gen_file_name counter_base transaction_log_file_ext, (counter_base + 1) % 2 ^ 32)

-- The name up to its last period and the rest, as `std::filesystem::path` cuts it; a period in
-- front begins no extension. The names `.` and `..` do not occur.
unfoldable pub add_char : ℕ → Bytes → Bytes → Bytes × Bytes
add_char c stem [] = if c == b'.' then ([], c ∷ stem) else (c ∷ stem, [])
add_char c stem (d ∷ ds) = (c ∷ stem, d ∷ ds)

unfoldable pub split_ext : Bytes → Bytes × Bytes
unfolding add_char
split_ext [] = ([], [])
split_ext (c ∷ s) = add_char c (split_ext s).0 (split_ext s).1

unfoldable pub extension : Bytes → Bytes
unfolding split_ext
extension [] = []
extension (c ∷ s) = (split_ext s).1

-- path::replace_extension()
unfoldable pub remove_ext : Bytes → Bytes
unfolding split_ext
remove_ext [] = []
remove_ext (c ∷ s) = c ∷ (split_ext s).0
