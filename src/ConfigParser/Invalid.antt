-- ===== src/ConfigParser/Invalid.antt =====
-- Lines that set nothing, and values that are no numbers.
use project_db.Common.{
  ◌≡◌, refl, sym, ap, ◌∙◌, ◌≢◌, ◌⊎◌, inl, inr, Option, none, some, List, [], ◌∷◌, ◌++◌, All,
  All-append, Bytes, Error, db_exception, invalid_argument, ok, err, Result-cases,
}
use project_db.Config.{DbConfig}
use project_db.ConfigParser.{
  lines_of, match_config, scan_number, stoul, unsigned_config, update_config, caught, parse_line,
  parse_lines, parse,
}
use project_db.ConfigParser.Lines.{
  IsText, lines_of-append, parse_lines_next, parse_lines_stop, setting_line, IsSetting,
  IsText-append, IsName-IsText, parse_line-setting,
}
use project_db.FileSystem.Frame.{string_eq-ne}
use project_db.FileSystem.Names.{codes}
use project_db.Key.{string_eq}
use project_db.Serializer.Streams.{read}
use mathlib.Core.Path.{subst}

-- The lines of a file, each with its end.
unfoldable pub join_lines : List Bytes → Bytes
join_lines [] = []
join_lines (line ∷ lines) = line ++ 10 ∷ join_lines lines

abbrev pub file_of : List Bytes → Option Bytes
file_of lines = some (join_lines lines)

abbrev pub known_names : List Bytes
known_names =
    codes "MEMTABLE_APPROXIMATE_MAX_SIZE_IN_BYTES"
    ∷ codes "SSTABLE_APPROXIMATE_MAX_SIZE_IN_BYTES"
    ∷ codes "SSTABLE_INDEX_BLOCK_SIZE_IN_BYTES"
    ∷ codes "NUM_SSTABLE_TO_COMPACT"
    ∷ codes "KEEP_SSTABLE_FILE_OPEN"
    ∷ codes "DB_FILE_PATH"
    ∷ []

-- The line has not the form of a setting, or sets what the parser does not know.
abbrev pub IsIgnored : Bytes → Type 0
IsIgnored line =
    (match_config line ≡ none)
    ⊎ ((name : Bytes) × (value : Bytes) × (match_config line ≡ some (name, value))
        × All (λ known. name ≢ known) known_names)

lines_of-join_lines : (lines : List Bytes) → All IsText lines → lines_of (join_lines lines) ≡ lines
unfolding join_lines lines_of
lines_of-join_lines [] h = refl
lines_of-join_lines (line ∷ lines) (h, hs) =
    lines_of-append line (join_lines lines) h ∙ ap (◌∷◌ line) (lines_of-join_lines lines hs)

parse-file_of :
    (lines : List Bytes) (config : DbConfig)
    → All IsText lines
    → parse (file_of lines) config ≡ parse_lines lines config
unfolding parse
parse-file_of lines config h = ap (λ l. parse_lines l config) (lines_of-join_lines lines h)

parse_lines-append :
    (xs ys zs : List Bytes) (config : DbConfig)
    → ((c : DbConfig) → parse_lines ys c ≡ parse_lines zs c)
    → parse_lines (xs ++ ys) config ≡ parse_lines (xs ++ zs) config
parse_lines-append [] ys zs config h = h config
parse_lines-append (x ∷ xs) ys zs config h = elim (Result-cases (parse_line x config)) [
  | inl (config', e) ↦
      parse_lines_next x (xs ++ ys) config config' e
      ∙ parse_lines-append xs ys zs config' h
      ∙ sym (parse_lines_next x (xs ++ zs) config config' e)
  | inr (thrown, e) ↦
      parse_lines_stop x (xs ++ ys) config thrown e
      ∙ sym (parse_lines_stop x (xs ++ zs) config thrown e)
]

unknown_lem :
    (name value : Bytes) (config : DbConfig)
    → All (λ known. name ≢ known) known_names
    → update_config name value config ≡ err db_exception
unfolding update_config
unknown_lem name value config (a, (b, (c, (d, (e, (f, _)))))) =
    rw
      (
        string_eq-ne name _ a,
        string_eq-ne name _ b,
        string_eq-ne name _ c,
        string_eq-ne name _ d,
        string_eq-ne name _ e,
        string_eq-ne name _ f,
      )
      refl

ignored_lem :
    (line : Bytes) (config : DbConfig) → IsIgnored line → parse_line line config ≡ ok config
unfolding parse_line
ignored_lem line config (inl no_match) = rw (no_match, parse_line) refl
ignored_lem line config (inr (name, value, match, unknown)) =
    rw (match, parse_line) (ap (caught config) (unknown_lem name value config unknown))

-- A line that has not the form of a setting, or sets what the parser does not know, has no effect,
-- wherever in a file it stands, and whatever the other lines are.
pub parse-IsIgnored :
    (before after : List Bytes) (line : Bytes) (config : DbConfig)
    → All IsText before
    → All IsText after
    → IsText line
    → IsIgnored line
    → parse (file_of (before ++ line ∷ after)) config ≡ parse (file_of (before ++ after)) config
parse-IsIgnored before after line config hb ha hl ignored =
    parse-file_of (before ++ line ∷ after) config
      (All-append IsText before (line ∷ after) hb (hl, ha))
    ∙ parse_lines-append before (line ∷ after) after config
        (λ c. parse_lines_next line after c c (ignored_lem line c ignored))
    ∙ sym (parse-file_of (before ++ after) config (All-append IsText before after hb ha))

-- The settings of an `unsigned`.
abbrev pub IsUnsigned : Bytes → Type 0
IsUnsigned name =
    (name ≡ codes "MEMTABLE_APPROXIMATE_MAX_SIZE_IN_BYTES")
    ⊎ ((name ≡ codes "SSTABLE_APPROXIMATE_MAX_SIZE_IN_BYTES")
        ⊎ ((name ≡ codes "SSTABLE_INDEX_BLOCK_SIZE_IN_BYTES")
            ⊎ (name ≡ codes "NUM_SSTABLE_TO_COMPACT")))

no_number :
    (value : Bytes) → scan_number value ≡ none → unsigned_config value ≡ err invalid_argument
unfolding unsigned_config stoul
no_number value h = rw (h, unsigned_config, stoul) refl

not_a_number :
    (name value : Bytes) (config : DbConfig)
    → IsUnsigned name
    → scan_number value ≡ none
    → update_config name value config ≡ err invalid_argument
unfolding update_config string_eq
not_a_number name value config (inl e) h = rw (e, no_number value h) refl
not_a_number name value config (inr (inl e)) h = rw (e, no_number value h) refl
not_a_number name value config (inr (inr (inl e))) h = rw (e, no_number value h) refl
not_a_number name value config (inr (inr (inr e))) h = rw (e, no_number value h) refl

parse_lines-stops :
    (before after : List Bytes) (line : Bytes) (config config' : DbConfig) (thrown : Error)
    → parse_lines before config ≡ (none, config')
    → parse_line line config' ≡ err thrown
    → parse_lines (before ++ line ∷ after) config ≡ (some thrown, config')
unfolding parse_lines
parse_lines-stops [] after line config config' thrown read stops =
    let same : config ≡ config' = ap (λ p. p.1) read in
    subst (λ c. parse_lines (line ∷ after) c ≡ (some thrown, config')) (sym same)
      (parse_lines_stop line after config' thrown stops)
parse_lines-stops (x ∷ before) after line config config' thrown read stops =
    elim (Result-cases (parse_line x config)) [
      | inl (c, e) ↦
          parse_lines_next x (before ++ line ∷ after) config c e
          ∙ parse_lines-stops before after line c config' thrown
              (sym (parse_lines_next x before config c e) ∙ read) stops
      | inr (t, e) ↦
          let stopped : some t ≡ none =
            ap (λ p. p.0) (sym (parse_lines_stop x before config t e) ∙ read) in
          cc
    ]

-- When the lines of a file up to one are read, and that one gives an `unsigned` setting a value that
-- is no number, `std::invalid_argument` escapes from the parser: the settings before the line are
-- kept, and the lines after it are not read.
pub parse_escapes :
    (before after : List Bytes) (name value : Bytes) (config config' : DbConfig)
    → All IsText before
    → All IsText after
    → IsSetting (name, value)
    → IsUnsigned name
    → scan_number value ≡ none
    → parse (file_of before) config ≡ (none, config')
    → parse (file_of (before ++ setting_line (name, value) ∷ after)) config
      ≡ (some invalid_argument, config')
parse_escapes before after name value config config' hb ha setting numeric h read =
    let text = IsText-append name (32 ∷ value) (IsName-IsText name setting.0) (refl, setting.2) in
    parse-file_of (before ++ setting_line (name, value) ∷ after) config
      (All-append IsText before (setting_line (name, value) ∷ after) hb (text, ha))
    ∙ parse_lines-stops before after (setting_line (name, value)) config config' invalid_argument
        (sym (parse-file_of before config hb) ∙ read)
        (parse_line-setting name value config' setting
          ∙ ap (caught config') (not_a_number name value config' numeric h))
