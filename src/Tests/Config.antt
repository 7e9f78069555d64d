-- ===== src/Tests/Config.antt =====
-- The parser of the configuration at concrete files.
use project_db.Common.{
  ◌≡◌, refl, inl, inr, true, none, some, [], ◌∷◌, ◌++◌, arith, Bytes, invalid_argument,
}
use project_db.Config.{DbConfig, default_config}
use project_db.ConfigParser.{match_config, scan_number, unsigned_config, parse}
use project_db.ConfigParser.Invalid.{file_of, IsIgnored, parse-IsIgnored, parse_escapes, join_lines}
use project_db.ConfigParser.Lines.{IsText, IsName, setting_line, IsText-append, IsName-IsText}
use project_db.ConfigParser.Printed.{print_settings}
use project_db.ConfigParser.RoundTrip.{settings_of, IsPrintable, parse-print_settings}
use project_db.FileSystem.Names.{codes}
use project_db.Key.{string_eq}

default_config-IsPrintable : IsPrintable default_config
default_config-IsPrintable = (
  (refl, (refl, (refl, (refl, (refl, (refl, (refl, (refl, (refl, (refl, (refl, tt))))))))))),
  refl,
  omega arith,
  omega arith,
  omega arith,
  omega arith,
)

abbrev other_config : DbConfig
other_config = record default_config { num_sstable_to_compact = 9; keep_sstable_file_open = true }

parse-print_settings_example :
    parse (some (print_settings (settings_of default_config))) other_config ≡ (none, default_config)
parse-print_settings_example =
    parse-print_settings default_config other_config default_config-IsPrintable

abbrev compact_three : Bytes
compact_three = setting_line (codes "NUM_SSTABLE_TO_COMPACT", codes "3")

compact-IsName : IsName (codes "NUM_SSTABLE_TO_COMPACT")
compact-IsName = (
  refl,
  (
    refl,
    (
      refl,
      (
        refl,
        (
          refl,
          (
            refl,
            (
              refl,
              (
                refl,
                (
                  refl,
                  (
                    refl,
                    (
                      refl,
                      (
                        refl,
                        (
                          refl,
                          (
                            refl,
                            (refl, (refl, (refl, (refl, (refl, (refl, (refl, (refl, tt)))))))),
                          ),
                        ),
                      ),
                    ),
                  ),
                ),
              ),
            ),
          ),
        ),
      ),
    ),
  ),
)

compact_three-IsText : IsText compact_three
compact_three-IsText =
    IsText-append (codes "NUM_SSTABLE_TO_COMPACT") (32 ∷ codes "3")
      (IsName-IsText (codes "NUM_SSTABLE_TO_COMPACT") compact-IsName) (refl, (refl, tt))

comment-IsIgnored : IsIgnored (codes "# three")
unfolding match_config
comment-IsIgnored = inl refl

parse-IsIgnored_example :
    parse (file_of ([] ++ codes "# three" ∷ compact_three ∷ [])) default_config
    ≡ parse (file_of ([] ++ compact_three ∷ [])) default_config
parse-IsIgnored_example =
    parse-IsIgnored [] (compact_three ∷ []) (codes "# three") default_config tt
      (compact_three-IsText, tt) (refl, (refl, (refl, (refl, (refl, (refl, (refl, tt)))))))
      comment-IsIgnored

three_read :
    parse (file_of (compact_three ∷ [])) default_config
    ≡ (none, record default_config { num_sstable_to_compact = 3 })
unfolding parse string_eq match_config unsigned_config scan_number join_lines
three_read = refl

word-scan_number : scan_number (codes "few") ≡ none
unfolding scan_number
word-scan_number = refl

parse_escapes_example :
    parse
      (file_of (compact_three ∷ setting_line (codes "NUM_SSTABLE_TO_COMPACT", codes "few") ∷ []))
      default_config
    ≡ (some invalid_argument, record default_config { num_sstable_to_compact = 3 })
parse_escapes_example =
    parse_escapes (compact_three ∷ []) [] (codes "NUM_SSTABLE_TO_COMPACT") (codes "few")
      default_config (record default_config { num_sstable_to_compact = 3 })
      (compact_three-IsText, tt) tt (compact-IsName, refl, (refl, (refl, (refl, tt))), refl)
      (inr (inr (inr refl))) word-scan_number three_read
