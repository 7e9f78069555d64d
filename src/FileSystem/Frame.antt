-- ===== src/FileSystem/Frame.antt =====
-- What an operation on files leaves as it is.
use project_db.Common.{
  ◌≡◌, refl, sym, ap, ◌≢◌, inl, inr, true, false, none, some, [], ◌∷◌, arith, Bytes, ok,
  if◌then◌else◌, Bool-cases,
}
use project_db.FileSystem.{
  FileSystem, file_content, remove_file, write_file, rename, remove_files_with_ext,
}
use project_db.FileSystem.Names.{extension}
use project_db.Key.{string_eq, string_eq_iff}

pub string_eq-ne : (x y : Bytes) → x ≢ y → string_eq x y ≡ false
string_eq-ne x y h = elim (Bool-cases (string_eq x y)) [
  | inl e ↦ absurd (h ((string_eq_iff x y).0 e))
  | inr e ↦ e
]

pub string_eq_self : (x : Bytes) → string_eq x x ≡ true
string_eq_self x = (string_eq_iff x x).1 refl

pub file_content-remove_file :
    (name other_name : Bytes) (fs : FileSystem)
    → file_content (remove_file name fs) other_name
      ≡ (if string_eq name other_name then none else file_content fs other_name)
unfolding file_content remove_file
file_content-remove_file name other_name [] = ground arith
file_content-remove_file name other_name ((n, c) ∷ fs) = ground (
  arith,
  string_eq_iff name other_name,
  string_eq_iff n name,
  string_eq_iff n other_name,
  file_content-remove_file name other_name fs,
)

pub file_content-write_file :
    (name other_name content : Bytes) (fs : FileSystem)
    → file_content (write_file name content fs) other_name
      ≡ (if string_eq name other_name then some content else file_content fs other_name)
unfolding file_content write_file
file_content-write_file name other_name content fs =
    ground (arith, file_content-remove_file name other_name fs)

-- A file that is there can be renamed, and only its two names are touched.
pub rename-file_content :
    (from to content : Bytes) (fs : FileSystem)
    → file_content fs from ≡ some content
    → (fs' : FileSystem) × (rename from to fs ≡ ok fs')
      × (file_content fs' to ≡ some content)
      × ((name : Bytes) → name ≢ from → name ≢ to → file_content fs' name ≡ file_content fs name)
unfolding rename
rename-file_content from to content fs h = (
  write_file to content (remove_file from fs),
  rw (h, rename),
  rw (file_content-write_file to to content (remove_file from fs), string_eq_self to),
  λ name not_from not_to. rw (
    file_content-write_file to name content (remove_file from fs),
    string_eq-ne to name (λ e. not_to (sym e)),
    file_content-remove_file from name fs,
    string_eq-ne from name (λ e. not_from (sym e)),
  ),
)

pub file_content-remove_files_with_ext :
    (ext name : Bytes) (fs : FileSystem)
    → extension name ≢ ext
    → file_content (remove_files_with_ext ext fs) name ≡ file_content fs name
unfolding file_content remove_files_with_ext
file_content-remove_files_with_ext ext name [] h = refl
file_content-remove_files_with_ext ext name ((n, c) ∷ fs) h = ground (
  arith,
  string_eq_iff n name,
  string_eq_iff (extension n) ext,
  ap extension {x = n} {y = name},
  file_content-remove_files_with_ext ext name fs h,
)
