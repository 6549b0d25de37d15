-- ===== src/MenuHelper/Repair/Reading.antt =====
-- What a repaired name and a repaired file read as.
use mathlib.Core.Option.{Option, none, some}
use mathlib.Core.Path.{subst}
use mathlib.Core.List.{append_assoc}
use xenomods.Base.{
  ◌||◌, leb, ◌&&◌, not, Bool, starts_with, ℕ, suc, ◌-◌, true, false, ◌==◌, [], ◌∷◌, ◌++◌,
  if◌then◌else◌, ◌≡◌, refl, arith, ◌∙◌, ap, Text, take, drop, length, if-cases, if_true, if_false,
}
use xenomods.MenuHelper.Repair.{
  escape_character, escape_basic_toml_string, name_key, back, set_back, find_text, repair_line,
}

-- The character that a TOML basic string's escape sequence stands for.
unfoldable pub escaped : ℕ → Option ℕ
escaped c =
    if c == 92
    then some 92
    else if c == 34
    then some 34
    else if c == 98
    then some 8
    else if c == 116
    then some 9
    else if c == 110
    then some 10
    else if c == 102
    then some 12
    else if c == 114
    then some 13
    else none

prepend : ℕ → Option (Text × Text) → Option (Text × Text)
prepend c none = none
prepend c (some read) = some (c ∷ read.0, read.1)

-- A control character that TOML does not allow to stand for itself in a basic string: all but the tab.
abbrev pub is_control : ℕ → Bool
is_control c = leb c 8 || leb 10 c && leb c 31 || c == 127

-- The body of a TOML basic string up to its closing quote, and what is after it. The escape sequences
-- with the number of a character are left out: the repair writes none. Characters are bytes, and
-- that they are valid UTF-8 is not looked at.
unfoldable pub read_basic : Text → Option (Text × Text)
unfolding prepend
read_basic [] = none
read_basic (c ∷ []) = if c == 34 then some ([], []) else none
read_basic (c ∷ d ∷ ds) =
    let after_escape = read_basic ds in
    let after_plain = read_basic (d ∷ ds) in
    if c == 34
    then some ([], d ∷ ds)
    else if c == 92
    then elim (escaped d) [ none ↦ none | some e ↦ prepend e after_escape ]
    else if is_control c
    then none
    else prepend c after_plain

-- A character that needs no escape sequence in a basic string or gets one from the repair.
abbrev pub is_readable : ℕ → Bool
is_readable c = not (is_control c) || c == 8 || c == 10 || c == 12 || c == 13

abbrev pub all_readable : Text → Bool
all_readable [] = true
all_readable (c ∷ cs) = is_readable c && all_readable cs

read-escape_character :
    (c : ℕ) (t : Text)
    → is_readable c ≡ true
    → read_basic (escape_character c ++ t) ≡ prepend c (read_basic t)
unfolding read_basic escape_character escaped
read-escape_character c t readable =
    let P : Text → Type 0 = λ u. read_basic (u ++ t) ≡ prepend c (read_basic t) in
    if-cases P (c == 92) (λ e. special 92 92 refl e)
      (λ not_backslash.
        if-cases P (c == 34) (λ e. special 34 34 refl e)
          (λ not_quote.
            if-cases P (c == 8) (λ e. special 8 98 refl e)
              (λ backspace.
                if-cases P (c == 9) (λ e. special 9 116 refl e)
                  (λ _.
                    if-cases P (c == 10) (λ e. special 10 110 refl e)
                      (λ newline.
                        if-cases P (c == 12) (λ e. special 12 102 refl e)
                          (λ feed.
                            if-cases P (c == 13) (λ e. special 13 114 refl e)
                              (λ return. plain t not_quote not_backslash (
                                printable (c == 8) (c == 10) (c == 12) (c == 13) (is_control c)
                                  readable backspace newline feed return))))))))
  where
    plain :
        (u : Text)
        → (c == 34) ≡ false
        → (c == 92) ≡ false
        → is_control c ≡ false
        → read_basic (c ∷ u) ≡ prepend c (read_basic u)
    plain [] x y z = if_false (some ([], [])) x
    plain (d ∷ ds) x y z = if_false (some ([], d ∷ ds)) x ∙ if_false _ y ∙ if_false none z

    printable :
        (b n f r control : Bool)
        → (not control || b || n || f || r) ≡ true
        → b ≡ false
        → n ≡ false
        → f ≡ false
        → r ≡ false
        → control ≡ false
    printable b n f r control e eb en ef er = ground (arith, e, eb, en, ef, er)

    equal : (k : ℕ) → (c == k) ≡ true → k ≡ c
    equal k e = ground (arith, e)

    special :
        (k x : ℕ)
        → read_basic (92 ∷ x ∷ t) ≡ prepend k (read_basic t)
        → (c == k) ≡ true
        → read_basic (92 ∷ x ∷ t) ≡ prepend c (read_basic t)
    special k x reads e =
        subst (λ n. read_basic (92 ∷ x ∷ t) ≡ prepend n (read_basic t)) (equal k e) reads

-- An escaped name and a quote read as the name, whatever comes after.
read-escape :
    (name rest : Text)
    → all_readable name ≡ true
    → read_basic (escape_basic_toml_string name ++ (34 ∷ rest)) ≡ some (name, rest)
unfolding escape_basic_toml_string read_basic
read-escape [] [] e = refl
read-escape [] (r ∷ rs) e = refl
read-escape (c ∷ cs) rest e =
    ap read_basic (append_assoc (escape_character c) (escape_basic_toml_string cs) (34 ∷ rest))
    ∙ read-escape_character c (escape_basic_toml_string cs ++ (34 ∷ rest)) (ground (arith, e))
    ∙ ap (prepend c) (read-escape cs rest (ground (arith, e)))

-- name = 'NAME'
abbrev pub literal_name : Text → Text
literal_name name = name_key ++ name ++ (39 ∷ [])

back-snoc : (c : ℕ) (t : Text) (x : ℕ) → back (c ∷ (t ++ (x ∷ []))) ≡ x
unfolding back
back-snoc c [] x = refl
back-snoc c (d ∷ ds) x = back-snoc d ds x

length-snoc : (t : Text) (x : ℕ) → length (t ++ (x ∷ [])) ≡ suc (length t)
length-snoc [] x = refl
length-snoc (c ∷ cs) x = ap suc (length-snoc cs x)

take-snoc : (t : Text) (x : ℕ) → take (length t) (t ++ (x ∷ [])) ≡ t
take-snoc [] x = refl
take-snoc (c ∷ cs) x = ap (λ u. c ∷ u) (take-snoc cs x)

value_taken : (name : Text) → take (length (literal_name name) - 8 - 1) (name ++ (39 ∷ [])) ≡ name
value_taken name =
    ap (λ n. take n (name ++ (39 ∷ [])))
      (ap (λ n. past_key n - 8 - 1) (length-snoc name 39) ∙ count (length name))
    ∙ take-snoc name 39
  where
    past_key : ℕ → ℕ
    past_key n = suc (suc (suc (suc (suc (suc (suc (suc n)))))))

    count : (n : ℕ) → suc (suc (suc (suc (suc (suc (suc (suc (suc n)))))))) - 8 - 1 ≡ n
    count n = omega arith

repair_line-literal_name :
    (name : Text)
    → repair_line (literal_name name)
      ≡ set_back name_key 34 ++ escape_basic_toml_string name ++ (34 ∷ [])
unfolding repair_line find_text starts_with set_back
repair_line-literal_name name =
    if_true (literal_name name) (ap (λ n. n == 39) (back-snoc 110 (drop 1 name_key ++ name) 39))
    ∙ ap (λ n. set_back name_key 34 ++ escape_basic_toml_string n ++ (34 ∷ [])) (value_taken name)

-- The repair of the line name = 'NAME' is name = and a TOML basic string that reads as NAME, when
-- NAME has no control character but backspace, tab, line feed, form feed and carriage return.
pub repair_line-reads :
    (name : Text)
    → all_readable name ≡ true
    → (take 8 (repair_line (literal_name name)) ≡ set_back name_key 34)
      × (read_basic (drop 8 (repair_line (literal_name name))) ≡ some (name, []))
unfolding set_back
repair_line-reads name e = (
  ap (take 8) (repair_line-literal_name name),
  ap (λ t. read_basic (drop 8 t)) (repair_line-literal_name name) ∙ read-escape name [] e,
)
