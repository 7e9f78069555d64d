-- ===== src/FileSystem/Counter.antt =====
-- The counter in a file's name: `getCounterFromFileName` (utils/system_utils.cpp).
use project_db.FileSystem.Names.{db_file_prefix, codes, decimal_loop, to_string, gen_file_name}
use project_db.Common.{
  ℕ, zero, suc, ◌+◌, ◌-◌, ◌*◌, ◌/◌, ◌%◌, ◌^◌, ◌<◌, ◌≡◌, refl, ap, ◌∙◌, inl, inr, Bool, true, false,
  ◌&&◌, Option, none, some, [], ◌∷◌, ◌++◌, arith, All, Bytes, db_exception, out_of_range, Result,
  ok, err, ltb, leb, ◌==◌, if◌then◌else◌, Bool-cases, sym,
}

abbrev pub is_digit : ℕ → Bool
is_digit c = leb b'0' c && leb c b'9'

-- What `\d+` takes of a text, if anything.
unfoldable pub digits : Bytes → Bytes
digits [] = []
digits (c ∷ s) = if is_digit c then c ∷ digits s else []

unfoldable pub strip_prefix : Bytes → Bytes → Option Bytes
strip_prefix [] s = some s
strip_prefix (p ∷ ps) [] = none
strip_prefix (p ∷ ps) (c ∷ s) = if p == c then strip_prefix ps s else none

abbrev pub not_empty_text : Bytes → Option Bytes
not_empty_text [] = none
not_empty_text (c ∷ s) = some (c ∷ s)

-- The group of a match that begins here.
unfoldable pub match_counter : Bytes → Option Bytes
unfolding strip_prefix digits
match_counter s = elim (strip_prefix (db_file_prefix ++ codes "_") s) [
  | none ↦ none
  | some rest ↦ not_empty_text (digits rest)
]

-- regex_search: the first place where the expression matches
unfoldable pub search_counter : Bytes → Option Bytes
unfolding match_counter
search_counter [] = none
search_counter (c ∷ s) =
    let later = search_counter s in
    elim (match_counter (c ∷ s)) [ some group ↦ some group | none ↦ later ]

unfoldable pub of_decimal : ℕ → Bytes → ℕ
of_decimal value [] = value
of_decimal value (c ∷ s) = of_decimal (value * 10 + (c - 48)) s

-- std::stoi on digits
unfoldable pub stoi_digits : Bytes → Result ℕ
unfolding of_decimal
stoi_digits s = if ltb (of_decimal 0 s) (2 ^ 31) then ok (of_decimal 0 s) else err out_of_range

unfoldable pub get_counter_from_file_name : Bytes → Result ℕ
unfolding search_counter stoi_digits
get_counter_from_file_name file_name = elim (search_counter file_name) [
  | none ↦ err db_exception
  | some group ↦ stoi_digits group
]

abbrev pub IsDecimal : Bytes → Type 0
IsDecimal = All (λ c. is_digit c ≡ true)

decimal_loop-IsDecimal :
    (fuel n : ℕ) (acc : Bytes) → IsDecimal acc → IsDecimal (decimal_loop fuel n acc)
unfolding decimal_loop
decimal_loop-IsDecimal zero n acc h = h
decimal_loop-IsDecimal (suc fuel) n acc h = elim (Bool-cases (ltb n 10)) [
  | inl small ↦ rw small (ground arith, h)
  | inr large ↦
      rw large (decimal_loop-IsDecimal fuel (n / 10) ((48 + n % 10) ∷ acc) (ground arith, h))
]

of_decimal-decimal_loop :
    (fuel n : ℕ) (acc : Bytes)
    → n < fuel
    → of_decimal 0 (decimal_loop fuel n acc) ≡ of_decimal n acc
unfolding decimal_loop of_decimal
of_decimal-decimal_loop zero n acc h = absurd (omega arith)
of_decimal-decimal_loop (suc fuel) n acc h = elim (Bool-cases (ltb n 10)) [
  | inl small ↦ rw small (ap (λ v. of_decimal v acc) (omega arith))
  | inr large ↦ rw large (
      of_decimal-decimal_loop fuel (n / 10) ((48 + n % 10) ∷ acc) (ground arith)
      ∙ ap (λ v. of_decimal v acc) (omega arith))
]

not_empty_text-decimal_loop :
    (fuel n c : ℕ) (acc : Bytes)
    → not_empty_text (decimal_loop fuel n (c ∷ acc)) ≡ some (decimal_loop fuel n (c ∷ acc))
unfolding decimal_loop
not_empty_text-decimal_loop zero n c acc = refl
not_empty_text-decimal_loop (suc fuel) n c acc = elim (Bool-cases (ltb n 10)) [
  | inl small ↦ rw small
  | inr large ↦ rw large (not_empty_text-decimal_loop fuel (n / 10) (48 + n % 10) (c ∷ acc))
]

pub not_empty_text-to_string : (n : ℕ) → not_empty_text (to_string n) ≡ some (to_string n)
unfolding to_string decimal_loop
not_empty_text-to_string n = elim (Bool-cases (ltb n 10)) [
  | inl small ↦ rw small
  | inr large ↦ rw large (not_empty_text-decimal_loop n (n / 10) (48 + n % 10) [])
]

pub digits-append :
    (s : Bytes) (c : ℕ) (rest : Bytes)
    → IsDecimal s
    → is_digit c ≡ false
    → digits (s ++ c ∷ rest) ≡ s
unfolding digits
digits-append [] c rest h stop = rw stop
digits-append (d ∷ s) c rest h stop = rw h.0 (ap (◌∷◌ d) (digits-append s c rest h.1 stop))

match_counter-prefix :
    (s ext : Bytes)
    → IsDecimal s
    → not_empty_text s ≡ some s
    → match_counter (db_file_prefix ++ (codes "_" ++ (s ++ b'.' ∷ ext))) ≡ some s
unfolding match_counter
match_counter-prefix s ext h more = rw (digits-append s b'.' ext h refl, more)

search_counter_here :
    (c : ℕ) (s group : Bytes)
    → match_counter (c ∷ s) ≡ some group
    → search_counter (c ∷ s) ≡ some group
unfolding search_counter
search_counter_here c s group h = rw (h, search_counter)

search_counter-prefix :
    (s ext : Bytes)
    → IsDecimal s
    → not_empty_text s ≡ some s
    → search_counter (db_file_prefix ++ (codes "_" ++ (s ++ b'.' ∷ ext))) ≡ some s
search_counter-prefix s ext h more =
    search_counter_here b'p' _ s (match_counter-prefix s ext h more)

pub to_string-IsDecimal : (n : ℕ) → IsDecimal (to_string n)
unfolding to_string
to_string-IsDecimal n = decimal_loop-IsDecimal (suc n) n [] tt

pub of_decimal-to_string : (n : ℕ) → of_decimal 0 (to_string n) ≡ n
unfolding to_string of_decimal
of_decimal-to_string n = of_decimal-decimal_loop (suc n) n [] (omega arith)

pub search_counter-gen :
    (n : ℕ) (ext : Bytes) → search_counter (gen_file_name n (b'.' ∷ ext)) ≡ some (to_string n)
unfolding gen_file_name
search_counter-gen n ext =
    search_counter-prefix (to_string n) ext (to_string-IsDecimal n) (not_empty_text-to_string n)

counter_lem :
    (name group : Bytes)
    → search_counter name ≡ some group
    → get_counter_from_file_name name ≡ stoi_digits group
unfolding get_counter_from_file_name
counter_lem name group h = rw (h, get_counter_from_file_name)

stoi_digits-to_string :
    (n : ℕ) → stoi_digits (to_string n) ≡ (if ltb n (2 ^ 31) then ok n else err out_of_range)
unfolding stoi_digits of_decimal
stoi_digits-to_string n =
    ap (λ v. if ltb v (2 ^ 31) then ok v else err out_of_range) (of_decimal-to_string n)

-- The counter of a generated name is read back, whatever the extension; from 2^31 on, std::stoi throws.
pub get_counter_from_file_name-gen :
    (n : ℕ) (ext : Bytes)
    → get_counter_from_file_name (gen_file_name n (b'.' ∷ ext))
      ≡ (if ltb n (2 ^ 31) then ok n else err out_of_range)
get_counter_from_file_name-gen n ext =
    counter_lem (gen_file_name n (b'.' ∷ ext)) (to_string n) (search_counter-gen n ext)
    ∙ stoi_digits-to_string n

pub gen_file_name-injective :
    (m n : ℕ) (ext ext' : Bytes)
    → gen_file_name m (b'.' ∷ ext) ≡ gen_file_name n (b'.' ∷ ext')
    → m ≡ n
gen_file_name-injective m n ext ext' h =
    let same : some (to_string m) ≡ some (to_string n) =
      sym (search_counter-gen m ext) ∙ ap search_counter h ∙ search_counter-gen n ext' in
    let texts : to_string m ≡ to_string n = cc in
    sym (of_decimal-to_string m) ∙ ap (of_decimal 0) texts ∙ of_decimal-to_string n
