-- ===== src/Tests/Filtering.antt =====
-- The filter rules: runs and instances.
use rail.Prelude.{◌≡◌, refl, true, false, [], ◌∷◌}
use rail.Result.{ok}
use rail.App.Filter.{
  Text, Rule, glob_match, glob, glob_round, behind_stars, crosses_slash, try_skips, take_char,
  behind_class, match_class, class_loop, flip, range_end, range_length, in_range, char_le, go_on,
  applies, allows, parse_rule, trimmed, trim_front, trim_back, is_space, starts_with, ends_with,
  add, add_with, add_rule,
}
use rail.App.Filter.Rules.{allows_first}

-- *.[a-c]
abbrev sources : Text
sources = 0x2a ∷ 0x2e ∷ 0x5b ∷ 0x61 ∷ 0x2d ∷ 0x63 ∷ 0x5d ∷ []

-- x.b
abbrev source_file : Text
source_file = 0x78 ∷ 0x2e ∷ 0x62 ∷ []

-- d/x.b
abbrev nested_file : Text
nested_file = 0x64 ∷ 0x2f ∷ source_file

sources-match : glob_match sources source_file ≡ true
unfolding glob_match glob glob_round behind_stars crosses_slash try_skips take_char behind_class
    match_class class_loop flip range_end range_length in_range char_le go_on
sources-match = refl

star-stops : glob_match sources nested_file ≡ false
unfolding glob_match glob glob_round behind_stars crosses_slash try_skips take_char behind_class
    match_class class_loop flip range_end range_length in_range char_le go_on
star-stops = refl

-- " - d/***" makes two rules.
two_rules :
    parse_rule [] (0x20 ∷ 0x2d ∷ 0x20 ∷ 0x64 ∷ 0x2f ∷ 0x2a ∷ 0x2a ∷ 0x2a ∷ [])
    ≡ ok (
        record {
          pattern_text = 0x64 ∷ [];
          include = false;
          directory_only = false;
          anchored = false;
        }
        ∷ record {
          pattern_text = 0x64 ∷ 0x2f ∷ 0x2a ∷ 0x2a ∷ [];
          include = false;
          directory_only = false;
          anchored = false;
        }
        ∷ [])
unfolding parse_rule trimmed trim_front trim_back is_space starts_with ends_with add add_with
    add_rule
two_rules = refl

abbrev directories : Rule
directories = record {
  pattern_text = sources;
  include = true;
  directory_only = true;
  anchored = true;
}

abbrev files : Rule
files = record { pattern_text = sources; include = false; directory_only = false; anchored = true }

directories-skip : applies directories source_file false ≡ false
unfolding applies
directories-skip = refl

files-apply : applies files source_file false ≡ true
unfolding applies
files-apply = sources-match

allows_first_example : allows (directories ∷ files ∷ directories ∷ []) source_file false ≡ false
allows_first_example =
    allows_first (directories ∷ []) files (directories ∷ []) source_file false
      (directories-skip, record {}) files-apply
