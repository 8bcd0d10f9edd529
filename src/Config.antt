-- ===== src/Config.antt =====
-- include/config.h: the configuration, lines of a key and a value that starts with a digit. Text is
-- ASCII codes. The map is a list of entries, with one entry for a key.
pub mod Lines
mod Tests
use my_net_lib.Common.{
  Bool, List, Option, [], false, if◌then◌else◌, none, not, some, true, ℕ, ◌&&◌, ◌==◌, ◌∷◌,
}
use my_net_lib.Decimal.{is_digit}

-- `[^ =]`
abbrev pub is_key_char : ℕ → Bool
is_key_char c = not (c == b' ') && not (c == b'=')

-- `.` does not match the ends of lines.
abbrev pub is_dot : ℕ → Bool
is_dot c = not (c == 10) && not (c == 13)

-- `.*`
unfoldable pub dots : List ℕ → List ℕ
dots [] = []
dots (c ∷ cs) = let rest = dots cs in if is_dot c then c ∷ rest else []

-- `[^\d]*(\d+.*)`: the group starts at the first digit.
unfoldable pub match_value : List ℕ → Option (List ℕ)
unfolding dots
match_value [] = none
match_value (c ∷ cs) =
    let later = match_value cs in if is_digit c then some (dots (c ∷ cs)) else later

-- The first group ends here.
abbrev pub end_key : Option (List ℕ) → Option (List ℕ × List ℕ)
end_key none = none
end_key (some value) = some ([], value)

-- The first group takes one more character, if the rest can match then.
abbrev pub longer_key :
    ℕ → Option (List ℕ × List ℕ) → Option (List ℕ × List ℕ) → Option (List ℕ × List ℕ)
longer_key c none shorter = shorter
longer_key c (some (key, value)) shorter = some (c ∷ key, value)

-- `^([^ =]*)[^\d]*(\d+.*)`: the first group is the longest with which the rest matches.
unfoldable pub match_line : List ℕ → Option (List ℕ × List ℕ)
unfolding match_value
match_line [] = none
match_line (c ∷ cs) =
    let longer = match_line cs in
    let shorter = end_key (match_value (c ∷ cs)) in
    if is_key_char c then longer_key c longer shorter else shorter

abbrev pub same_text : List ℕ → List ℕ → Bool
same_text [] [] = true
same_text (x ∷ xs) (y ∷ ys) = x == y && same_text xs ys
same_text _ _ = false

-- `mp`
abbrev pub Config : Type 0
Config = List (List ℕ × List ℕ)

-- `mp[key]` as it is read: a key that is missing has the empty text.
unfoldable pub value_of : List ℕ → Config → List ℕ
value_of key [] = []
value_of key ((k, v) ∷ mp) = let later = value_of key mp in if same_text k key then v else later

-- `mp[key] = value`
unfoldable pub assign : List ℕ → List ℕ → Config → Config
assign key value [] = (key, value) ∷ []
assign key value ((k, v) ∷ mp) =
    let later = assign key value mp in if same_text k key then (key, value) ∷ mp else (k, v) ∷ later

abbrev pub assign_match : Option (List ℕ × List ℕ) → Config → Config
assign_match none mp = mp
assign_match (some (key, value)) mp = assign key value mp

unfoldable pub parse_line : List ℕ → Config → Config
unfolding match_line assign
parse_line buf mp = assign_match (match_line buf) mp

abbrev pub parse_lines : List (List ℕ) → Config → Config
parse_lines [] mp = mp
parse_lines (buf ∷ rest) mp = parse_lines rest (parse_line buf mp)

-- `PullConfig`, given the lines of the file if it opens.
unfoldable pub pull_config : Option (List (List ℕ)) → Config → Config × Bool
pull_config none mp = (mp, false)
pull_config (some lines) mp = (parse_lines lines mp, true)
