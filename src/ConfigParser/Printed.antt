-- ===== src/ConfigParser/Printed.antt =====
-- A line that sets a variable is read back.
use project_db.Common.{
  ℕ, ◌%◌, ◌^◌, ◌<◌, ◌≡◌, refl, ap, ◌∙◌, true, false, some, List, [], ◌∷◌, ◌++◌, arith, All-map,
  Bytes, ok, ltb, ◌==◌,
}
use project_db.Config.{DbConfig}
use project_db.ConfigParser.{
  lines_of, is_terminator, scan_number, stoul, unsigned_config, update_config, caught, parse_lines,
  parse, is_space, skip_space, take_sign, scan_digits,
}
use project_db.ConfigParser.Lines.{
  IsText, IsNonempty, setting_line, IsSetting, lines_of-append, IsText-append, IsName-IsText,
  parse_lines_next, parse_line-setting,
}
use project_db.FileSystem.Counter.{
  is_digit, digits, of_decimal, IsDecimal, not_empty_text-to_string, to_string-IsDecimal,
  of_decimal-to_string,
}
use project_db.FileSystem.Names.{to_string}

-- The decimal digits of a number are read as that number.
digits-IsDecimal : (s : Bytes) → IsDecimal s → digits s ≡ s
unfolding digits
digits-IsDecimal [] h = refl
digits-IsDecimal (c ∷ s) (h, hs) = rw (h, digits-IsDecimal s hs) refl

not_space : (c : ℕ) (s : Bytes) → is_digit c ≡ true → skip_space (c ∷ s) ≡ c ∷ s
unfolding skip_space
not_space c s h = let not_blank : is_space c ≡ false = ground arith in rw not_blank refl

no_sign : (c : ℕ) (s : Bytes) → is_digit c ≡ true → take_sign (c ∷ s) ≡ (false, c ∷ s)
no_sign c s h =
    let not_minus : (c == b'-') ≡ false = ground arith in
    let not_plus : (c == b'+') ≡ false = ground arith in rw (not_minus, not_plus) refl

scan_digits-IsDecimal :
    (s : Bytes) → IsDecimal s → IsNonempty s → scan_digits (false, s) ≡ some (false, of_decimal 0 s)
unfolding scan_digits
scan_digits-IsDecimal s h more = rw (digits-IsDecimal s h, more) refl

scan_number-IsDecimal :
    (s : Bytes) → IsDecimal s → IsNonempty s → scan_number s ≡ some (false, of_decimal 0 s)
unfolding scan_number
scan_number-IsDecimal [] h more = cc
scan_number-IsDecimal (c ∷ s) h more =
    ap (λ t. scan_digits (take_sign t)) (not_space c s h.0)
    ∙ ap scan_digits (no_sign c s h.0)
    ∙ scan_digits-IsDecimal (c ∷ s) h more

scan_number-to_string : (n : ℕ) → scan_number (to_string n) ≡ some (false, n)
scan_number-to_string n =
    scan_number-IsDecimal (to_string n) (to_string-IsDecimal n) (not_empty_text-to_string n)
    ∙ ap (λ v. some (false, v)) (of_decimal-to_string n)

pub unsigned_config-to_string : (n : ℕ) → n < 2 ^ 32 → unsigned_config (to_string n) ≡ ok n
unfolding unsigned_config stoul
unsigned_config-to_string n h =
    let small : ltb n (2 ^ 64) ≡ true = ground arith in
    let same : n % 2 ^ 32 ≡ n = omega (arith, h) in
    rw (unsigned_config, stoul, scan_number-to_string n, small, same) refl

digit-IsText : (c : ℕ) → is_digit c ≡ true → is_terminator c ≡ false
digit-IsText c h = ground arith

pub IsDecimal-IsText : (s : Bytes) → IsDecimal s → IsText s
IsDecimal-IsText s h = All-map digit-IsText s h

-- The lines of a list of settings.
unfoldable pub print_settings : List (Bytes × Bytes) → Bytes
print_settings [] = []
print_settings (setting ∷ settings) = setting_line setting ++ 10 ∷ print_settings settings

lines_of-print_settings :
    (setting : Bytes × Bytes) (settings : List (Bytes × Bytes))
    → IsSetting setting
    → lines_of (print_settings (setting ∷ settings))
      ≡ setting_line setting ∷ lines_of (print_settings settings)
unfolding print_settings
lines_of-print_settings (name, value) settings (is_name, some_name, text, some_value) =
    lines_of-append (setting_line (name, value)) (print_settings settings)
      (IsText-append name (32 ∷ value) (IsName-IsText name is_name) (refl, text))

-- One setting of a file takes effect, and the rest of the file is read.
pub parse_printed :
    (name value : Bytes) (settings : List (Bytes × Bytes)) (config config' : DbConfig)
    → IsSetting (name, value)
    → update_config name value config ≡ ok config'
    → parse (some (print_settings ((name, value) ∷ settings))) config
      ≡ parse (some (print_settings settings)) config'
unfolding parse parse_lines
parse_printed name value settings config config' h updated =
    ap (λ lines. parse_lines lines config) (lines_of-print_settings (name, value) settings h)
    ∙ parse_lines_next (setting_line (name, value)) (lines_of (print_settings settings)) config
        config' (parse_line-setting name value config h ∙ ap (caught config) updated)
