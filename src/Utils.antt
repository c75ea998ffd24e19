-- ===== src/Utils.antt =====
-- Utils.cpp: the reader of a configuration file. The file is the text of its bytes, and one that
-- cannot be opened is an empty text. `Now` is a clock and no part of it.
use simple_cgate.Base.{
  ℕ, ◌+◌, ◌-◌, ◌*◌, Bool, false, not, ◌&&◌, ◌||◌, Option, none, some, List, [], ◌∷◌, Text, Map, put,
  empty_map, length, take, ltb, leb, ◌==◌, nat_eq, text_eq, if◌then◌else◌, map_some,
}

-- `std::getline`, until the file ends: an end of line at the end of the file starts no line.
abbrev cons_first : ℕ → List Text → List Text
cons_first c [] = (c ∷ []) ∷ []
cons_first c (l ∷ ls) = (c ∷ l) ∷ ls

unfoldable pub lines_of : Text → List Text
lines_of [] = []
lines_of (c ∷ cs) = let rest = lines_of cs in if c == b'\n' then [] ∷ rest else cons_first c rest

-- `find('=')` with the two `substr`: the parts of a line before and behind the sign. Without a sign,
-- `t + 1` wraps around to 0.
abbrev cons_left : ℕ → Option (Text × Text) → Option (Text × Text)
cons_left c o = map_some (λ (l, r). (c ∷ l, r)) o

unfoldable pub split_at_sign : Text → Option (Text × Text)
split_at_sign [] = none
split_at_sign (c ∷ cs) =
    let rest = split_at_sign cs in if c == b'=' then some ([], cs) else cons_left c rest

unfoldable pub left_and_right : Text → Text × Text
unfolding split_at_sign
left_and_right line = elim (split_at_sign line) [
  | some parts ↦ parts
  | none ↦ (line, take (length line - 1) line)
]

abbrev pub Sections : Type 0
Sections = Map Text (Map Text Text)

abbrev pub section_of : Text → Sections → Map Text Text
section_of name res = elim (res name) [ none ↦ empty_map | some entries ↦ entries ]

-- `res[cur_section][left] = right`
abbrev store_entry : Text → Text × Text → Sections → Sections
store_entry section (left, right) res = put section (put left right (section_of section res)) res

-- `line[0] == '['`, and the `substr` without the first and the last byte.
abbrev starts_section : Text → Bool
starts_section [] = false
starts_section (c ∷ cs) = c == b'['

abbrev section_name : Text → Text
section_name [] = []
section_name (c ∷ cs) = take (length cs - 1) cs

-- One round of the loop, on the current section and what was read.
unfoldable pub read_line : Text → Text × Sections → Text × Sections
unfolding left_and_right
read_line line (section, res) =
    if starts_section line
    then (section_name line, res)
    else if ltb 1 (length section)
    then (section, store_entry section (left_and_right line) res)
    else (section, res)

unfoldable pub read_lines : List Text → Text × Sections → Text × Sections
unfolding read_line
read_lines [] s = s
read_lines (line ∷ ls) s = read_lines ls (read_line line s)

unfoldable pub read_config_file : Text → Sections
unfolding lines_of read_lines
read_config_file file = (read_lines (lines_of file) ([], empty_map)).1

-- `std::stoi`: spaces, a sign, and then digits; it throws where there is no digit, and where the number
-- is no `int`.
abbrev is_space : ℕ → Bool
is_space c = c == 32 || (leb 9 c && leb c 13)

abbrev is_digit : ℕ → Bool
is_digit c = leb b'0' c && leb c b'9'

unfoldable pub skip_spaces : Text → Text
skip_spaces [] = []
skip_spaces (c ∷ cs) = let rest = skip_spaces cs in if is_space c then rest else c ∷ cs

unfoldable pub digits_value : Text → ℕ → ℕ
digits_value [] n = n
digits_value (c ∷ cs) n =
    let rest = digits_value cs (10 * n + (c - b'0')) in if is_digit c then rest else n

abbrev starts_digit : Text → Bool
starts_digit [] = false
starts_digit (c ∷ cs) = is_digit c

-- The magnitude, where the text has one up to the bound.
unfoldable pub magnitude : ℕ → Text → Option ℕ
unfolding digits_value
magnitude bound t =
    if starts_digit t && leb (digits_value t 0) bound then some (digits_value t 0) else none

unfoldable pub stoi_magnitude : Text → Option ℕ
unfolding magnitude
stoi_magnitude [] = none
stoi_magnitude (c ∷ cs) =
    if c == b'-'
    then magnitude 2147483648 cs
    else if c == b'+'
    then magnitude 2147483647 cs
    else magnitude 2147483647 (c ∷ cs)

-- The two overloads of `ReadParameter`; the second is a fault where `stoi` throws.
abbrev pub read_parameter : Map Text Text → Text → Text → Text
read_parameter entries name dest = elim (entries name) [ none ↦ dest | some t ↦ t ]

unfoldable pub read_flag : Map Text Text → Text → Bool → Option Bool
unfolding skip_spaces stoi_magnitude
read_flag entries name dest = elim (entries name) [
  | none ↦ some dest
  | some t ↦ map_some (λ (n : ℕ). not (n == 0)) (stoi_magnitude (skip_spaces t))
]
