-- ===== src/FileSystem/Sorted.antt =====
-- The files with an extension, in the order of their counters: `getFilesWithExtSorted`
-- (utils/system_utils.cpp).
use mathlib.Core.List.Permᴰ
use mathlib.Core.List.{Permᴰ}
use project_db.Common.{
  ℕ, ◌^◌, ◌≤◌, ◌<◌, ◌≡◌, refl, ap, ◌∙◌, inl, inr, true, List, [], ◌∷◌, arith, All, All-map, Bytes,
  Result, ok, ◌>>=◌, ltb, if◌then◌else◌, Bool-cases,
}
use project_db.FileSystem.{FileSystem}
use project_db.FileSystem.Counter.{get_counter_from_file_name, get_counter_from_file_name-gen}
use project_db.FileSystem.Names.{gen_file_name, extension}
use project_db.Key.{string_eq}

-- The order is that of the directory.
unfoldable pub files_with_ext : Bytes → FileSystem → List Bytes
unfolding extension string_eq
files_with_ext ext [] = []
files_with_ext ext ((n, c) ∷ fs) =
    let rest = files_with_ext ext fs in if string_eq (extension n) ext then n ∷ rest else rest

-- The sort takes the counter of each name at least once, and throws if a name has none; of several
-- such names the first one is taken here.
unfoldable pub with_counters : List Bytes → Result (List (ℕ × Bytes))
unfolding get_counter_from_file_name
with_counters [] = ok []
with_counters (name ∷ names) = do
  counter ← get_counter_from_file_name name
  rest ← with_counters names
  ok ((counter, name) ∷ rest)

-- std::sort, as insertion: names with the same counter may come in any order
unfoldable pub insert_file : ℕ × Bytes → List (ℕ × Bytes) → List (ℕ × Bytes)
insert_file x [] = x ∷ []
insert_file x (y ∷ ys) =
    let later = insert_file x ys in if ltb y.0 x.0 then y ∷ later else x ∷ y ∷ ys

unfoldable pub sort_files : List (ℕ × Bytes) → List (ℕ × Bytes)
unfolding insert_file
sort_files [] = []
sort_files (x ∷ xs) = insert_file x (sort_files xs)

abbrev pub file_names : List (ℕ × Bytes) → List Bytes
file_names [] = []
file_names ((c, name) ∷ files) = name ∷ file_names files

-- No two names, no comparison.
unfoldable pub sort_names : List Bytes → Result (List Bytes)
unfolding with_counters sort_files
sort_names [] = ok []
sort_names (name ∷ []) = ok (name ∷ [])
sort_names (name ∷ next ∷ names) = do
  files ← with_counters (name ∷ next ∷ names)
  ok (file_names (sort_files files))

unfoldable pub get_files_with_ext_sorted : Bytes → FileSystem → Result (List Bytes)
unfolding files_with_ext sort_names
get_files_with_ext_sorted ext fs = sort_names (files_with_ext ext fs)

-- Names that the program generates, for counters that std::stoi reads.
abbrev pub generated : Bytes → List ℕ → List Bytes
generated ext [] = []
generated ext (c ∷ cs) = gen_file_name c (b'.' ∷ ext) ∷ generated ext cs

abbrev pub AreReadable : List ℕ → Type 0
AreReadable = All (λ c. c < 2 ^ 31)

abbrev pub IsRising : List ℕ → Type 0
IsRising [] = Unit {0}
IsRising (c ∷ cs) = All (λ d. c ≤ d) cs × IsRising cs

-- The counters alone are sorted in the same way.
insert_counter : ℕ → List ℕ → List ℕ
insert_counter c [] = c ∷ []
insert_counter c (d ∷ ds) =
    let later = insert_counter c ds in if ltb d c then d ∷ later else c ∷ d ∷ ds

sort_counters : List ℕ → List ℕ
unfolding insert_counter
sort_counters [] = []
sort_counters (c ∷ cs) = insert_counter c (sort_counters cs)

paired : Bytes → List ℕ → List (ℕ × Bytes)
paired ext [] = []
paired ext (c ∷ cs) = (c, gen_file_name c (b'.' ∷ ext)) ∷ paired ext cs

file_names-paired : (ext : Bytes) (cs : List ℕ) → file_names (paired ext cs) ≡ generated ext cs
unfolding paired
file_names-paired ext [] = refl
file_names-paired ext (c ∷ cs) = ap (◌∷◌ (gen_file_name c (b'.' ∷ ext))) (file_names-paired ext cs)

with_counters-generated :
    (ext : Bytes) (cs : List ℕ)
    → AreReadable cs
    → with_counters (generated ext cs) ≡ ok (paired ext cs)
unfolding with_counters paired
with_counters-generated ext [] h = refl
with_counters-generated ext (c ∷ cs) (h, hs) =
    let small : ltb c (2 ^ 31) ≡ true = ground arith in
    let counted : get_counter_from_file_name (gen_file_name c (b'.' ∷ ext)) ≡ ok c =
      get_counter_from_file_name-gen c ext ∙ rw small refl in
    rw (counted, with_counters-generated ext cs hs) refl

insert_file-paired :
    (ext : Bytes) (c : ℕ) (ds : List ℕ)
    → insert_file (c, gen_file_name c (b'.' ∷ ext)) (paired ext ds)
      ≡ paired ext (insert_counter c ds)
unfolding insert_file paired insert_counter
insert_file-paired ext c [] = refl
insert_file-paired ext c (d ∷ ds) = elim (Bool-cases (ltb d c)) [
  | inl before ↦ rw (before, insert_file-paired ext c ds) refl
  | inr after ↦ rw after refl
]

sort_files-paired :
    (ext : Bytes) (cs : List ℕ) → sort_files (paired ext cs) ≡ paired ext (sort_counters cs)
unfolding sort_files paired sort_counters
sort_files-paired ext [] = refl
sort_files-paired ext (c ∷ cs) =
    ap (insert_file (c, gen_file_name c (b'.' ∷ ext))) (sort_files-paired ext cs)
    ∙ insert_file-paired ext c (sort_counters cs)

All-insert_counter :
    (P : ℕ → Type 0) (c : ℕ) (ds : List ℕ) → P c → All P ds → All P (insert_counter c ds)
unfolding insert_counter
All-insert_counter P c [] h hs = (h, tt)
All-insert_counter P c (d ∷ ds) h (hd, hs) = elim (Bool-cases (ltb d c)) [
  | inl before ↦ rw before (hd, All-insert_counter P c ds h hs)
  | inr after ↦ rw after (h, (hd, hs))
]

insert_counter-IsRising : (c : ℕ) (ds : List ℕ) → IsRising ds → IsRising (insert_counter c ds)
unfolding insert_counter
insert_counter-IsRising c [] h = (tt, tt)
insert_counter-IsRising c (d ∷ ds) (above, h) = elim (Bool-cases (ltb d c)) [
  | inl before ↦
      rw before
        (All-insert_counter (λ e. d ≤ e) c ds (ground arith) above, insert_counter-IsRising c ds h)
  | inr after ↦
      let le : c ≤ d = ground arith in
      rw after ((le, All-map (λ e more. omega (arith, le, more)) ds above), (above, h))
]

sort_counters-IsRising : (cs : List ℕ) → IsRising (sort_counters cs)
unfolding sort_counters
sort_counters-IsRising [] = tt
sort_counters-IsRising (c ∷ cs) =
    insert_counter-IsRising c (sort_counters cs) (sort_counters-IsRising cs)

insert_counter-Perm : (c : ℕ) (ds : List ℕ) → Permᴰ (c ∷ ds) (insert_counter c ds)
unfolding insert_counter
insert_counter-Perm c [] = Permᴰ.refl (c ∷ [])
insert_counter-Perm c (d ∷ ds) = elim (Bool-cases (ltb d c)) [
  | inl before ↦
      rw before (Permᴰ.trans (Permᴰ.swap refl refl) (Permᴰ.cons refl (insert_counter-Perm c ds)))
  | inr after ↦ rw after (Permᴰ.refl (c ∷ d ∷ ds))
]

sort_counters-Perm : (cs : List ℕ) → Permᴰ cs (sort_counters cs)
unfolding sort_counters
sort_counters-Perm [] = Permᴰ.refl []
sort_counters-Perm (c ∷ cs) =
    Permᴰ.trans (Permᴰ.cons refl (sort_counters-Perm cs)) (insert_counter-Perm c (sort_counters cs))

-- Names that the program has generated for counters below 2^31 are sorted without an exception, and
-- the counters then rise and are the same ones.
pub sort_names-generated :
    (ext : Bytes) (cs : List ℕ)
    → AreReadable cs
    → (sorted : List ℕ) × (sort_names (generated ext cs) ≡ ok (generated ext sorted))
      × IsRising sorted
      × Permᴰ cs sorted
unfolding sort_names
sort_names-generated ext [] h = ([], refl, tt, Permᴰ.refl [])
sort_names-generated ext (c ∷ []) h = (c ∷ [], refl, (tt, tt), Permᴰ.refl (c ∷ []))
sort_names-generated ext (c ∷ d ∷ cs) h = (
  sort_counters (c ∷ d ∷ cs),
  rw (with_counters-generated ext (c ∷ d ∷ cs) h) (
      ap ok (
        ap file_names (sort_files-paired ext (c ∷ d ∷ cs))
        ∙ file_names-paired ext (sort_counters (c ∷ d ∷ cs)))),
  sort_counters-IsRising (c ∷ d ∷ cs),
  sort_counters-Perm (c ∷ d ∷ cs),
)
