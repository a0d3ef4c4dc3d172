-- ===== src/App/Filter.antt =====
-- src/app/filter.cc: the rules that say which paths a transfer takes. A std::string is the list of
-- its bytes. A char is signed, as the machines that this is built for have it.
pub mod Patterns
pub mod Classes
pub mod Follows
pub mod Glob
pub mod Rules
use rail.Prelude.{
  ℕ, zero, suc, ◌+◌, ◌-◌, ◌%◌, Bool, true, false, ◌&&◌, ◌||◌, not, Option, none, some, List, [],
  ◌∷◌, ◌++◌, length, take, drop, ltb, leb, ◌==◌, if◌then◌else◌,
}
use rail.Result.{Result, ok, fail_message}
use rail.Proto.Bytes.{Bytes}

abbrev pub Text : Type 0
Text = Bytes

-- A <= B on signed chars
unfoldable pub char_le : ℕ → ℕ → Bool
char_le a b = leb ((a + 128) % 256) ((b + 128) % 256)

-- The range that may follow a char of a class: its upper end, where there is one.
unfoldable pub range_end : Text → Option ℕ
range_end (d ∷ upper ∷ rest) = if (d == 0x2d) && not (upper == 0x5d) then some upper else none
range_end (d ∷ []) = none
range_end [] = none

unfoldable pub in_range : ℕ → ℕ → Option ℕ → Bool
in_range c lower none = lower == c
in_range c lower (some upper) = char_le lower c && char_le c upper

-- How many chars the range takes behind its lower end: I += 2.
unfoldable pub range_length : Option ℕ → ℕ
range_length none = 0
range_length (some upper) = 2

-- The loop of matchClass, with Matched and what stands behind the `]`. `skip` counts the chars of a
-- range not passed over yet.
unfoldable pub class_loop : ℕ → Text → ℕ → Bool → Bool → Option (Bool × Text)
class_loop c [] skip first matched = none
class_loop c (x ∷ rest) (suc skip) first matched = class_loop c rest skip false matched
class_loop c (x ∷ rest) zero first matched =
    let range = range_end rest in
    let found = class_loop c rest (range_length range) false (matched || in_range c x range) in
    if (x == 0x5d) && not first then some (matched, rest) else found

unfoldable pub flip : Bool → Option (Bool × Text) → Option (Bool × Text)
flip negated none = none
flip negated (some (matched, rest)) = some ((if negated then not matched else matched), rest)

-- matchClass on what follows the `[`: whether C is matched, and the pattern behind the class.
unfoldable pub match_class : Text → ℕ → Option (Bool × Text)
match_class (x ∷ rest) c =
    if (x == 0x21) || (x == 0x5e)
    then flip true (class_loop c rest 0 true false)
    else flip false (class_loop c (x ∷ rest) 0 true false)
match_class [] c = none

-- The inner while of globMatch: it passes over stars.
unfoldable pub drop_stars : Text → Text
drop_stars [] = []
drop_stars (x ∷ rest) = if x == 0x2a then drop_stars rest else x ∷ rest

unfoldable pub crosses_slash : Text → Bool
crosses_slash [] = false
crosses_slash (x ∷ rest) = x == 0x2a

-- The pattern behind one star, or behind all of several.
unfoldable pub behind_stars : Text → Text
behind_stars rest = if crosses_slash rest then drop_stars rest else rest

-- for (size_t Skip = T;; Skip++), over the text from Skip on. `matches` is globMatch on the pattern
-- behind the stars.
unfoldable pub try_skips : (Text → Bool) → Bool → Text → Bool
try_skips matches crosses [] = matches []
try_skips matches crosses (x ∷ rest) =
    let further = try_skips matches crosses rest in
    matches (x ∷ rest) || (not (not crosses && (x == 0x2f)) && further)

unfoldable pub behind_class : Option (Bool × Text) → Option Text
behind_class none = none
behind_class (some (true, after)) = some after
behind_class (some (false, after)) = none

-- What is left of the pattern behind one char of it, which is no star, where that char takes C.
unfoldable pub take_char : ℕ → Text → ℕ → Option Text
take_char p rest c =
    if p == 0x3f
    then (if c == 0x2f then none else some rest)
    else if p == 0x5b
    then behind_class (match_class rest c)
    else if p == c
    then some rest
    else none

unfoldable pub go_on : (Text → Text → Bool) → Option Text → Text → Bool
go_on matches none text = false
go_on matches (some rest) text = matches rest text

-- The loop's round where the pattern has a char left, `p`: the star, and anything else.
unfoldable pub glob_round : (Text → Text → Bool) → Bool → ℕ → Text → Text → Bool
glob_round matches true p rest text =
    try_skips (matches (behind_stars rest)) (crosses_slash rest) text
glob_round matches false p rest [] = false
glob_round matches false p rest (c ∷ text) = go_on matches (take_char p rest c) text

-- globMatch. Each round takes a char of the pattern, so its length is enough.
unfoldable pub glob : ℕ → Text → Text → Bool
glob fuel [] text = length text == 0
glob zero (p ∷ rest) text = false
glob (suc fuel) (p ∷ rest) text = glob_round (glob fuel) (p == 0x2a) p rest text

unfoldable pub glob_match : Text → Text → Bool
glob_match pattern text = glob (length pattern) pattern text

-- What is behind the next slash, where there is one.
unfoldable pub behind_slash : Text → Option Text
behind_slash [] = none
behind_slash (x ∷ rest) = if x == 0x2f then some rest else behind_slash rest

-- The loop of matchesAnywhere: each round passes a slash.
unfoldable pub matches_behind : (Text → Bool) → ℕ → Option Text → Bool
matches_behind matches fuel none = false
matches_behind matches zero (some path) = false
matches_behind matches (suc fuel) (some path) =
    matches path || matches_behind matches fuel (behind_slash path)

unfoldable pub matches_anywhere : Text → Text → Bool
matches_anywhere pattern path = matches_behind (glob_match pattern) (suc (length path)) (some path)

-- " \t\r\n"
unfoldable pub is_space : ℕ → Bool
is_space c = (c == 0x20) || (c == 0x09) || (c == 0x0d) || (c == 0x0a)

unfoldable pub trim_front : Text → Text
trim_front [] = []
trim_front (c ∷ rest) = if is_space c then trim_front rest else c ∷ rest

-- The text up to its last char that is no space.
unfoldable pub trim_back : Text → Text
trim_back [] = []
trim_back (c ∷ rest) =
    let kept = trim_back rest in if is_space c && (length kept == 0) then [] else c ∷ kept

unfoldable pub trimmed : Text → Text
trimmed line = trim_back (trim_front line)

pub record Rule : Type 0 where
  pub pattern_text : Text
  pub include : Bool
  pub directory_only : Bool
  pub anchored : Bool

unfoldable pub starts_with : Text → Text → Bool
starts_with text [] = true
starts_with [] (c ∷ front) = false
starts_with (x ∷ text) (c ∷ front) = (x == c) && starts_with text front

unfoldable pub ends_with : Text → Text → Bool
ends_with text end =
    leb (length end) (length text) && starts_with (drop (length text - length end) text) end

-- add from `Rule R` on.
unfoldable pub add_rule : List Rule → Text → Bool → List Rule
add_rule rules p include =
    let directory = ends_with p (0x2f ∷ []) in
    let named = if directory then take (length p - 1) p else p in
    let anchored = starts_with named (0x2f ∷ []) in
    let pattern' = if anchored then drop 1 named else named in
    if length pattern' == 0
    then rules
    else rules
      ++ (record {
        pattern_text = pattern';
        include = include;
        directory_only = directory;
        anchored = anchored;
      }
          ∷ [])

abbrev pub slash_stars : Text
slash_stars = 0x2f ∷ 0x2a ∷ 0x2a ∷ 0x2a ∷ []

-- FilterRules::add: `dir/***` is `dir` and `dir/**`. A call on a shorter pattern adds its rules
-- first.
unfoldable pub add_with : ℕ → List Rule → Text → Bool → List Rule
add_with zero rules p include = rules
add_with (suc fuel) rules p include =
    let shorter = add_with fuel rules (take (length p - 4) p) include in
    let both = add_rule shorter (take (length p - 3) p ++ (0x2a ∷ 0x2a ∷ [])) include in
    if length p == 0
    then rules
    else if ltb 4 (length p) && ends_with p slash_stars
    then both
    else add_rule rules p include

unfoldable pub add : List Rule → Text → Bool → List Rule
add rules p include = add_with (suc (length p)) rules p include

-- "include " and "exclude "
abbrev pub include_word : Text
include_word = 0x69 ∷ 0x6e ∷ 0x63 ∷ 0x6c ∷ 0x75 ∷ 0x64 ∷ 0x65 ∷ 0x20 ∷ []

abbrev pub exclude_word : Text
exclude_word = 0x65 ∷ 0x78 ∷ 0x63 ∷ 0x6c ∷ 0x75 ∷ 0x64 ∷ 0x65 ∷ 0x20 ∷ []

unfoldable pub parse_rule : List Rule → Text → Result (List Rule)
parse_rule rules line =
    let text = trimmed line in
    if length text == 0
    then ok rules
    else if starts_with text (0x2b ∷ 0x20 ∷ [])
    then ok (add rules (trimmed (drop 2 text)) true)
    else if starts_with text (0x2d ∷ 0x20 ∷ [])
    then ok (add rules (trimmed (drop 2 text)) false)
    else if starts_with text include_word
    then ok (add rules (trimmed (drop 8 text)) true)
    else if starts_with text exclude_word
    then ok (add rules (trimmed (drop 8 text)) false)
    else fail_message "filter rule must open with '+ ' or '- '"

-- The loop of addFrom, over the lines of the file.
unfoldable pub add_lines : List Rule → List Text → Bool → List Rule
add_lines rules [] include = rules
add_lines rules (line ∷ lines) include =
    let text = trimmed line in
    let skip = (length text == 0) || starts_with text (0x23 ∷ []) || starts_with text (0x3b ∷ []) in
    add_lines (if skip then rules else add rules text include) lines include

-- addFrom on what the file system gives for the file's lines.
unfoldable pub add_from : List Rule → Option (List Text) → Bool → Result (List Rule)
add_from rules none include = fail_message "cannot read"
add_from rules (some lines) include = ok (add_lines rules lines include)

unfoldable pub applies : Rule → Text → Bool → Bool
applies rule relative directory =
    not (rule.directory_only && not directory)
    && (if rule.anchored
        then glob_match rule.pattern_text relative
        else matches_anywhere rule.pattern_text relative)

unfoldable pub allows : List Rule → Text → Bool → Bool
allows [] relative directory = true
allows (rule ∷ rules) relative directory =
    if applies rule relative directory then rule.include else allows rules relative directory
