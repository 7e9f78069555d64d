-- ===== src/FileSystem.antt =====
-- The directory DB_FILE_PATH and utils/system_utils.cpp: the names of the files and what the code
-- does with them. A path is the name of a file in that directory.
pub mod Names
pub mod Laws
pub mod Frame
pub mod Counter
pub mod Sorted
use project_db.FileSystem.Names.{gen_deprecated_file_name, remove_ext, extension}
use project_db.Common.{
  Bool, true, false, Option, none, some, List, [], ◌∷◌, Bytes, db_exception, filesystem_error,
  Result, ok, err, ◌>>=◌, if◌then◌else◌,
}
use project_db.Key.{string_eq}

-- name and content of each file; the directory is assumed to exist after `initDbPath`
abbrev pub FileSystem : Type 0
FileSystem = List (Bytes × Bytes)

-- what a stream on the file reads, with `none` for a missing file
unfoldable pub file_content : FileSystem → Bytes → Option Bytes
file_content [] name = none
file_content ((n, c) ∷ fs) name = if string_eq n name then some c else file_content fs name

abbrev is_some : Option Bytes → Bool
is_some none = false
is_some (some c) = true

unfoldable pub exists : FileSystem → Bytes → Bool
unfolding file_content
exists fs name = is_some (file_content fs name)

unfoldable pub remove_file : Bytes → FileSystem → FileSystem
remove_file name [] = []
remove_file name ((n, c) ∷ fs) =
    let rest = remove_file name fs in if string_eq n name then rest else (n, c) ∷ rest

-- a file that is opened with `ios::out`, written and closed
unfoldable pub write_file : Bytes → Bytes → FileSystem → FileSystem
unfolding remove_file
write_file name content fs = (name, content) ∷ remove_file name fs

-- std::filesystem::rename
unfoldable pub rename : Bytes → Bytes → FileSystem → Result FileSystem
unfolding write_file remove_file file_content
rename from to fs = elim (file_content fs from) [
  | none ↦ err filesystem_error
  | some content ↦ ok (write_file to content (remove_file from fs))
]

-- `markFileAsDeprecated`; its check is of the directory, which is there
unfoldable pub mark_file_as_deprecated : Bytes → FileSystem → Result FileSystem
unfolding rename gen_deprecated_file_name
mark_file_as_deprecated base_file_name fs =
    rename base_file_name (gen_deprecated_file_name base_file_name) fs

-- `removeExtAndRename`, with the new name
unfoldable pub remove_ext_and_rename : Bytes → FileSystem → Result (Bytes × FileSystem)
unfolding exists rename remove_ext
remove_ext_and_rename file_name fs =
    if exists fs file_name
    then (do fs' ← rename file_name (remove_ext file_name) fs; ok (remove_ext file_name, fs'))
    else err db_exception

unfoldable pub remove_files_with_ext : Bytes → FileSystem → FileSystem
unfolding extension
remove_files_with_ext ext [] = []
remove_files_with_ext ext ((n, c) ∷ fs) =
    let rest = remove_files_with_ext ext fs in
    if string_eq (extension n) ext then rest else (n, c) ∷ rest
