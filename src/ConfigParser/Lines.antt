-- ===== src/ConfigParser/Lines.antt =====
-- Lines with a name and a value.
use project_db.Common.{
  ◌≡◌, refl, true, false, some, [], ◌∷◌, ◌++◌, arith, All, All-append, Bytes, ◌==◌, ap, ◌∙◌, List,
  Error, ok, err,
}
use project_db.ConfigParser.{
  lines_of, is_name_char, is_terminator, span_name, span_value, match_config, match_parts,
  update_config, caught, parse_line, parse_lines,
}
use project_db.FileSystem.Counter.{not_empty_text}
use project_db.Config.{DbConfig}

-- The text stays within a line.
abbrev pub IsText : Bytes → Type 0
IsText = All (λ c. is_terminator c ≡ false)

abbrev pub IsName : Bytes → Type 0
IsName = All (λ c. is_name_char c ≡ true)

abbrev pub IsNonempty : Bytes → Type 0
IsNonempty s = not_empty_text s ≡ some s

-- A name and a value as a line of the file has them.
abbrev pub setting_line : Bytes × Bytes → Bytes
setting_line (name, value) = name ++ 32 ∷ value

abbrev pub IsSetting : Bytes × Bytes → Type 0
IsSetting (name, value) = IsName name × IsNonempty name × IsText value × IsNonempty value

pub lines_of-append :
    (line rest : Bytes) → IsText line → lines_of (line ++ 10 ∷ rest) ≡ line ∷ lines_of rest
unfolding lines_of
lines_of-append [] rest h = refl
lines_of-append (c ∷ line) rest (h, hs) =
    let not_end : (c == 10) ≡ false = ground arith in
    rw (lines_of-append line rest hs, not_end) refl

pub IsText-append : (x y : Bytes) → IsText x → IsText y → IsText (x ++ y)
IsText-append x y hx hy = All-append (λ c. is_terminator c ≡ false) x y hx hy

-- No character of a name ends a line.
pub IsName-IsText : (name : Bytes) → IsName name → IsText name
IsName-IsText [] h = tt
IsName-IsText (c ∷ name) (h, hs) = (ground arith, IsName-IsText name hs)

span_name-append :
    (name value : Bytes) → IsName name → span_name (name ++ 32 ∷ value) ≡ (name, 32 ∷ value)
unfolding span_name
span_name-append [] value h = refl
span_name-append (c ∷ name) value (h, hs) = rw (span_name-append name value hs, h) refl

span_value-IsText : (value : Bytes) → IsText value → span_value value ≡ value
unfolding span_value
span_value-IsText [] h = refl
span_value-IsText (c ∷ value) (h, hs) = rw (span_value-IsText value hs, h) refl

-- A line with a name and a value matches with both.
pub match_config-setting_line :
    (name value : Bytes)
    → IsSetting (name, value)
    → match_config (setting_line (name, value)) ≡ some (name, value)
unfolding match_config
match_config-setting_line name value (is_name, some_name, text, some_value) =
    ap match_parts (span_name-append name value is_name)
    ∙ rw (match_parts, some_name, span_value-IsText value text, some_value) refl

-- A line that is read, and the lines after it.
pub parse_lines_next :
    (line : Bytes) (lines : List Bytes) (config config' : DbConfig)
    → parse_line line config ≡ ok config'
    → parse_lines (line ∷ lines) config ≡ parse_lines lines config'
unfolding parse_lines
parse_lines_next line lines config config' h = rw (h, parse_lines) refl

pub parse_lines_stop :
    (line : Bytes) (lines : List Bytes) (config : DbConfig) (thrown : Error)
    → parse_line line config ≡ err thrown
    → parse_lines (line ∷ lines) config ≡ (some thrown, config)
unfolding parse_lines
parse_lines_stop line lines config thrown h = rw (h, parse_lines) refl

pub parse_line-setting :
    (name value : Bytes) (config : DbConfig)
    → IsSetting (name, value)
    → parse_line (setting_line (name, value)) config
      ≡ caught config (update_config name value config)
unfolding parse_line
parse_line-setting name value config h =
    rw (match_config-setting_line name value h, parse_line) refl
