-- ===== src/MenuHelper/Repair.antt =====
-- The repair of a recordings file whose names are quoted wrongly: EscapeBasicTomlString and
-- RepairRecordingNameQuotes. A character is its byte, and npos is none.
pub mod Reading
pub mod Lines
use mathlib.Core.Option.{Option, none, some}
use xenomods.Base.{
  starts_with, ℕ, zero, suc, ◌+◌, ◌-◌, Bool, true, false, ◌&&◌, ◌==◌, List, [], ◌∷◌, ◌++◌,
  if◌then◌else◌, Text, take, drop, length,
}

-- The characters that a case of the switch turns into two.
unfoldable pub escape_character : ℕ → Text
escape_character c =
    if c == 92
    then 92 ∷ 92 ∷ []
    else if c == 34
    then 92 ∷ 34 ∷ []
    else if c == 8
    then 92 ∷ 98 ∷ []
    else if c == 9
    then 92 ∷ 116 ∷ []
    else if c == 10
    then 92 ∷ 110 ∷ []
    else if c == 12
    then 92 ∷ 102 ∷ []
    else if c == 13
    then 92 ∷ 114 ∷ []
    else c ∷ []

-- EscapeBasicTomlString
unfoldable pub escape_basic_toml_string : Text → Text
unfolding escape_character
escape_basic_toml_string [] = []
escape_basic_toml_string (c ∷ cs) = escape_character c ++ escape_basic_toml_string cs

-- The place of a pattern in a text.
unfoldable pub find_text : (pattern text : Text) → Option ℕ
find_text pattern [] = if starts_with pattern [] then some 0 else none
find_text pattern (c ∷ cs) =
    let rest = find_text pattern cs in
    if starts_with pattern (c ∷ cs)
    then some 0
    else elim rest [ none ↦ none | some i ↦ some (suc i) ]

-- "name = '"
abbrev pub name_key : Text
name_key = 110 ∷ 97 ∷ 109 ∷ 101 ∷ 32 ∷ 61 ∷ 32 ∷ 39 ∷ []

-- The last character of a text that has one.
unfoldable pub back : Text → ℕ
back [] = 0
back (c ∷ []) = c
back (c ∷ d ∷ ds) = back (d ∷ ds)

-- text.back() = c
unfoldable pub set_back : Text → ℕ → Text
set_back [] c = []
set_back (x ∷ []) c = c ∷ []
set_back (x ∷ y ∷ ys) c = x ∷ set_back (y ∷ ys) c

-- What the loop appends for a line.
unfoldable pub repair_line : Text → Text
unfolding find_text back set_back escape_basic_toml_string
repair_line line = elim (find_text name_key line) [
  | none ↦ line
  | some key ↦
      let start = key + 8 in
      if back line == 39
      then set_back (take start line) 34
        ++ escape_basic_toml_string (take (length line - start - 1) (drop start line))
        ++ (34 ∷ [])
      else line
]

-- The first line of a text, and what is after its newline when it ends with one.
unfoldable pub next_line : Text → Text × Option Text
next_line [] = ([], none)
next_line (c ∷ cs) =
    let rest = next_line cs in if c == 10 then ([], some cs) else (c ∷ rest.0, rest.1)

-- The loop of RepairRecordingNameQuotes, from a line's start.
unfoldable pub repair_lines : (fuel : ℕ) → Text → Text
unfolding next_line repair_line
repair_lines zero contents = []
repair_lines (suc fuel) [] = []
repair_lines (suc fuel) (c ∷ cs) =
    let line = next_line (c ∷ cs) in
    repair_line line.0 ++ elim line.1 [ none ↦ [] | some rest ↦ 10 ∷ repair_lines fuel rest ]

-- RepairRecordingNameQuotes: each round goes past a newline, so the length is enough.
unfoldable pub repair_recording_name_quotes : Text → Text
unfolding repair_lines
repair_recording_name_quotes contents = repair_lines (suc (length contents)) contents
