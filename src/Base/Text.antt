-- ===== src/Base/Text.antt =====
-- What the program uses of Rust's strings, on lists of bytes: case, search, splitting and numbers.
use Prim.Native.Nat.{ℕ, ◌+◌, ◌-◌, ◌*◌}
use mathlib.Core.Bool.{Bool, true, false, not, ◌&&◌, ◌||◌}
use mathlib.Core.List.{List, [], ◌∷◌, ◌++◌}
use mathlib.Core.Option.{Option, none, some}
use tg_ws_keenetic.Base.Tests.{ltb, leb, ◌==◌, if◌then◌else◌}
use tg_ws_keenetic.Base.Bytes.{Bytes, bytes_eq}

-- `to_ascii_lowercase`.
abbrev pub lower : ℕ → ℕ
lower c = if leb b'A' c && leb c b'Z' then c + 32 else c

abbrev pub lowercase : Bytes → Bytes
lowercase [] = []
lowercase (c ∷ cs) = lower c ∷ lowercase cs

-- `eq_ignore_ascii_case`.
abbrev pub same_word : Bytes → Bytes → Bool
same_word xs ys = bytes_eq (lowercase xs) (lowercase ys)

-- `text.starts_with(word)`, with what is searched last.
abbrev pub starts_with : Bytes → Bytes → Bool
starts_with [] text = true
starts_with (w ∷ word) [] = false
starts_with (w ∷ word) (c ∷ text) = (w == c) && starts_with word text

-- `text.contains(word)`.
abbrev pub contains : Bytes → Bytes → Bool
contains word [] = starts_with word []
contains word (c ∷ text) = starts_with word (c ∷ text) || contains word text

abbrev pub is_digit : ℕ → Bool
is_digit c = leb b'0' c && leb c b'9'

-- The digits of `parse::<usize>`, behind a value that was read.
abbrev pub digits_from : ℕ → ℕ → Bytes → Option ℕ
digits_from most value [] = some value
digits_from most value (c ∷ cs) =
    let rest = digits_from most (value * 10 + (c - b'0')) cs in
    if not (is_digit c) then none else if leb (value * 10 + (c - b'0')) most then rest else none

abbrev pub some_digits : ℕ → Bytes → Option ℕ
some_digits most [] = none
some_digits most (c ∷ cs) = digits_from most 0 (c ∷ cs)

-- `parse::<usize>` and the other unsigned types, with the largest value: a sign `+` may stand first.
abbrev pub parse_unsigned : ℕ → Bytes → Option ℕ
parse_unsigned most [] = none
parse_unsigned most (c ∷ cs) = if c == b'+' then some_digits most cs else some_digits most (c ∷ cs)

-- Strings as lists of code points, where the source looks at characters: `len` counts the bytes of
-- their UTF-8 form.
abbrev pub utf8_len : List ℕ → ℕ
utf8_len [] = 0
utf8_len (c ∷ cs) =
    (if ltb c 0x80 then 1 else if ltb c 0x800 then 2 else if ltb c 0x10000 then 3 else 4)
    + utf8_len cs

-- `char::is_whitespace`: the code points with the property White_Space.
abbrev pub is_whitespace : ℕ → Bool
is_whitespace c =
    (leb 9 c && leb c 13)
    || (c == 32)
    || (c == 0x85)
    || (c == 0xa0)
    || (c == 0x1680)
    || (leb 0x2000 c && leb c 0x200a)
    || (c == 0x2028)
    || (c == 0x2029)
    || (c == 0x202f)
    || (c == 0x205f)
    || (c == 0x3000)

abbrev pub trim_start : List ℕ → List ℕ
trim_start [] = []
trim_start (c ∷ cs) = let rest = trim_start cs in if is_whitespace c then rest else c ∷ cs

-- One character before a text that is trimmed at its end.
abbrev pub keep_before : ℕ → List ℕ → List ℕ
keep_before c [] = if is_whitespace c then [] else c ∷ []
keep_before c (d ∷ ds) = c ∷ d ∷ ds

abbrev pub trim_end : List ℕ → List ℕ
trim_end [] = []
trim_end (c ∷ cs) = keep_before c (trim_end cs)

abbrev pub trim_both : List ℕ → List ℕ
trim_both text = trim_end (trim_start text)

-- `text.split(separator)`, which always gives one part at least.
abbrev pub before_first : ℕ → List (List ℕ) → List (List ℕ)
before_first c [] = (c ∷ []) ∷ []
before_first c (part ∷ parts) = (c ∷ part) ∷ parts

abbrev pub split : ℕ → List ℕ → List (List ℕ)
split separator [] = [] ∷ []
split separator (c ∷ cs) =
    let rest = split separator cs in if c == separator then [] ∷ rest else before_first c rest

-- `parts.join(separator)`.
abbrev pub join : ℕ → List (List ℕ) → List ℕ
join separator [] = []
join separator (part ∷ []) = part
join separator (part ∷ next ∷ parts) = part ++ (separator ∷ join separator (next ∷ parts))

-- `text.split("\r\n")`.
abbrev pub split_lines : List ℕ → List (List ℕ)
split_lines [] = [] ∷ []
split_lines (c ∷ []) = (c ∷ []) ∷ []
split_lines (c ∷ d ∷ cs) =
    let rest = split_lines cs in
    let more = split_lines (d ∷ cs) in
    if (c == b'\r') && (d == b'\n') then [] ∷ rest else before_first c more

-- `text.split_once(separator)`.
abbrev pub with_first : ℕ → Option (List ℕ × List ℕ) → Option (List ℕ × List ℕ)
with_first c none = none
with_first c (some (before, behind)) = some (c ∷ before, behind)

abbrev pub split_once : ℕ → List ℕ → Option (List ℕ × List ℕ)
split_once separator [] = none
split_once separator (c ∷ cs) =
    let rest = split_once separator cs in
    if c == separator then some ([], cs) else with_first c rest

-- The first part of `splitn(.., ' ')`, and what is behind it.
abbrev pub first_part : ℕ → List ℕ → List ℕ × Option (List ℕ)
first_part separator text = elim (split_once separator text) [
  | none ↦ (text, none)
  | some (before, behind) ↦ (before, some behind)
]
