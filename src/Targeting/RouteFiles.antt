-- ===== src/Targeting/RouteFiles.antt =====
-- The names of route files: RouteFileNumber and the name that CreateNewRoute takes. A character is
-- its byte. The numbers are ints, and where one overflows the model says so.
pub mod Fresh
use xenomods.Base.{
  ℕ, suc, ltb, ◌^◌, ◌+◌, ◌-◌, ◌*◌, Bool, true, not, ◌&&◌, ◌||◌, leb, List, [], ◌∷◌, if◌then◌else◌,
  Option, none, some, Text, same_text, starts_with, length, drop, take, max,
}

-- "targets" and ".toml"
abbrev pub targets_text : Text
targets_text = 116 ∷ 97 ∷ 114 ∷ 103 ∷ 101 ∷ 116 ∷ 115 ∷ []

abbrev pub toml_text : Text
toml_text = 46 ∷ 116 ∷ 111 ∷ 109 ∷ 108 ∷ []

-- text.ends_with(suffix)
unfoldable pub ends_with : Text → Text → Bool
ends_with suffix text =
    leb (length suffix) (length text) && same_text (drop (length text - length suffix) text) suffix

-- std::isdigit
abbrev pub is_digit : ℕ → Bool
is_digit c = leb 48 c && leb c 57

-- An int that names a route file: -1, or a number below 2 ^ 31. Where an int overflows, C++ leaves the
-- behaviour undefined, which is a value of its own here.
pub data FileNumber : Type 0 where
  no_number : FileNumber
  file_number : ℕ → FileNumber
  overflowed : FileNumber

-- An int as a computation gives it.
unfoldable pub as_int : ℕ → FileNumber
as_int n = if ltb n (2 ^ 31) then file_number n else overflowed

-- The loop over the digits, from a result on.
unfoldable pub read_digits : (result : ℕ) → Text → FileNumber
read_digits result [] = file_number result
read_digits result (c ∷ cs) =
    let next = result * 10 + (c - 48) in
    let rest = read_digits next cs in
    if not (is_digit c) then no_number else if ltb next (2 ^ 31) then rest else overflowed

-- RouteFileNumber
unfoldable pub route_file_number : Text → FileNumber
unfolding ends_with read_digits
route_file_number name =
    let number = take (length name - 12) (drop 7 name) in
    if not (starts_with targets_text name) || not (ends_with toml_text name)
    then no_number
    else if leb (length number) 0
    then no_number
    else read_digits 0 number

-- std::max of two numbers.
unfoldable pub max_number : FileNumber → FileNumber → FileNumber
max_number overflowed n = overflowed
max_number no_number n = n
max_number (file_number m) overflowed = overflowed
max_number (file_number m) no_number = file_number m
max_number (file_number m) (file_number n) = file_number (max m n)

-- maximum after the loop over the route files, from a value on.
unfoldable pub maximum_number : FileNumber → List Text → FileNumber
unfolding max_number route_file_number
maximum_number maximum [] = maximum
maximum_number maximum (file ∷ files) =
    maximum_number (max_number maximum (route_file_number file)) files

-- maximum + 1
unfoldable pub next_number : FileNumber → FileNumber
unfolding as_int
next_number no_number = file_number 0
next_number (file_number n) = as_int (suc n)
next_number overflowed = overflowed

-- The currentRouteFile of CreateNewRoute, none where an int overflows; `format` is fmt::format of
-- "targets{}.toml".
unfoldable pub new_route_file : (format : ℕ → Text) → List Text → Option Text
unfolding maximum_number next_number
new_route_file format files = elim (next_number (maximum_number no_number files)) [
  | no_number ↦ none
  | file_number n ↦ some (format n)
  | overflowed ↦ none
]
