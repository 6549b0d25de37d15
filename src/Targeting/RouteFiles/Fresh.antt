-- ===== src/Targeting/RouteFiles/Fresh.antt =====
-- The name of a new route is that of no route file.
use mathlib.Core.Option.{none-ne-some, some_inj}
use mathlib.Core.Path.{subst}
use xenomods.Base.{
  ◌<◌, ◌^◌, if_true, ℕ, zero, suc, ◌+◌, ◌-◌, ◌≤◌, Bool, true, false, not, ◌&&◌, leb, List, [], ◌∷◌,
  ◌++◌, if◌then◌else◌, Option, none, some, Text, same_text, same_text_self, starts_with, length,
  drop, take, get_elem?, ◌≡◌, ◌≢◌, refl, sym, ap, ◌∙◌, arith, if_false,
}
use xenomods.Targeting.RouteFiles.{
  FileNumber, no_number, file_number, overflowed, as_int, targets_text, toml_text, ends_with,
  read_digits, route_file_number, max_number, maximum_number, next_number, new_route_file,
}

-- A text is the decimal digits of a number.
pub record IsDecimal (digits : Text) (n : ℕ) : Type 0 where
  pub nonempty : digits ≢ []
  pub reads : read_digits 0 digits ≡ file_number n

-- fmt::format of "targets{}.toml"
abbrev pub format_route : (digits : ℕ → Text) → ℕ → Text
format_route digits n = targets_text ++ (digits n ++ toml_text)

length-append : (s t : Text) → length (s ++ t) ≡ length s + length t
length-append [] t = omega arith
length-append (c ∷ cs) t = let e = length-append cs t in omega (arith, e)

drop-append : (s t : Text) → drop (length s) (s ++ t) ≡ t
drop-append [] t = refl
drop-append (c ∷ cs) t = drop-append cs t

take-append : (s t : Text) → take (length s) (s ++ t) ≡ s
take-append [] t = refl
take-append (c ∷ cs) t = ap (λ u. c ∷ u) (take-append cs t)

length-format :
    (digits : Text) → length (targets_text ++ (digits ++ toml_text)) ≡ 12 + length digits
length-format digits = let e = length-append digits toml_text in omega (arith, e)

ends_with-format :
    (digits : Text) → ends_with toml_text (targets_text ++ (digits ++ toml_text)) ≡ true
unfolding ends_with
ends_with-format digits =
    both (long (length (targets_text ++ (digits ++ toml_text))) (length-format digits)) (
      ap (λ n. same_text (drop n (targets_text ++ (digits ++ toml_text))) toml_text)
        (start (length (targets_text ++ (digits ++ toml_text))) (length-format digits))
      ∙ ap (λ t. same_text t toml_text) (drop-append (targets_text ++ digits) toml_text)
      ∙ same_text_self toml_text)
  where
    long : (n : ℕ) → n ≡ 12 + length digits → leb 5 n ≡ true
    long n e = ground (arith, e)

    start : (n : ℕ) → n ≡ 12 + length digits → n - 5 ≡ length (targets_text ++ digits)
    start n e = omega (arith, e)

    both : {a b : Bool} → a ≡ true → b ≡ true → (a && b) ≡ true
    both e f = ground (arith, e, f)

-- The digits of a route file's name.
number-format :
    (digits : Text)
    → take (length (targets_text ++ (digits ++ toml_text)) - 12) (digits ++ toml_text) ≡ digits
number-format digits =
    ap (λ n. take n (digits ++ toml_text))
      (size (length (targets_text ++ (digits ++ toml_text))) (length-format digits))
    ∙ take-append digits toml_text
  where
    size : (n : ℕ) → n ≡ 12 + length digits → n - 12 ≡ length digits
    size n e = omega (arith, e)

nonempty-length : (t : Text) → t ≢ [] → leb (length t) 0 ≡ false
nonempty-length [] e = absurd (e refl)
nonempty-length (c ∷ cs) e = ground arith

route_file_number-format :
    (digits : Text) (n : ℕ)
    → IsDecimal digits n
    → route_file_number (targets_text ++ (digits ++ toml_text)) ≡ file_number n
unfolding route_file_number starts_with
route_file_number-format digits n d =
    if_false no_number (ap not (ends_with-format digits))
    ∙ ap (λ t. if leb (length t) 0 then no_number else read_digits 0 t) (number-format digits)
    ∙ if_false no_number (nonempty-length digits d.nonempty)
    ∙ d.reads

-- A number is -1, or an int after which there is another one.
abbrev pub Fits : FileNumber → Type 0
Fits no_number = Unit {0}
Fits (file_number n) = suc n < 2 ^ 31
Fits overflowed = ⊥

abbrev pub AllFit : List Text → Type 0
AllFit [] = Unit {0}
AllFit (file ∷ files) = Fits (route_file_number file) × AllFit files

-- The number after an int.
rank : FileNumber → ℕ
rank no_number = 0
rank (file_number n) = suc n
rank overflowed = 0

max_number-Fits : (m n : FileNumber) → Fits m → Fits n → Fits (max_number m n)
unfolding max_number
max_number-Fits no_number n p q = q
max_number-Fits (file_number m) no_number p q = p
max_number-Fits (file_number m) (file_number n) p q = omega (arith, p, q)
max_number-Fits (file_number m) overflowed p q = elim q [ ]
max_number-Fits overflowed n p q = elim p [ ]

max_number-rank :
    (m n : FileNumber)
    → Fits m
    → Fits n
    → (rank m ≤ rank (max_number m n)) × (rank n ≤ rank (max_number m n))
unfolding max_number rank
max_number-rank no_number n p q = (omega arith, omega arith)
max_number-rank (file_number m) no_number p q = (omega arith, omega arith)
max_number-rank (file_number m) (file_number n) p q = (omega arith, omega arith)
max_number-rank (file_number m) overflowed p q = elim q [ ]
max_number-rank overflowed n p q = elim p [ ]

maximum_number-Fits :
    (maximum : FileNumber) (files : List Text)
    → Fits maximum
    → AllFit files
    → Fits (maximum_number maximum files)
unfolding maximum_number
maximum_number-Fits maximum [] p q = p
maximum_number-Fits maximum (file ∷ files) p q =
    maximum_number-Fits (max_number maximum (route_file_number file)) files
      (max_number-Fits maximum (route_file_number file) p q.0) q.1

maximum_number-grows :
    (maximum : FileNumber) (files : List Text)
    → Fits maximum
    → AllFit files
    → rank maximum ≤ rank (maximum_number maximum files)
unfolding maximum_number
maximum_number-grows maximum [] p q = omega arith
maximum_number-grows maximum (file ∷ files) p q =
    let n = route_file_number file in
    let first = (max_number-rank maximum n p q.0).0 in
    let rest =
      maximum_number-grows (max_number maximum n) files (max_number-Fits maximum n p q.0) q.1 in
    omega (arith, first, rest)

maximum_number-rank :
    (maximum : FileNumber) (files : List Text) (i : ℕ) (file : Text)
    → Fits maximum
    → AllFit files
    → get_elem? files i ≡ some file
    → rank (route_file_number file) ≤ rank (maximum_number maximum files)
unfolding maximum_number
maximum_number-rank maximum [] i file p q e = absurd (none-ne-some file e)
maximum_number-rank maximum (f ∷ files) zero file p q e =
    let n = route_file_number f in
    let first = (max_number-rank maximum n p q.0).1 in
    let rest =
      maximum_number-grows (max_number maximum n) files (max_number-Fits maximum n p q.0) q.1 in
    subst (λ t. rank (route_file_number t) ≤ rank (maximum_number maximum (f ∷ files)))
      (some_inj.0 e) (omega (arith, first, rest))
maximum_number-rank maximum (f ∷ files) (suc i) file p q e =
    let n = route_file_number f in
    maximum_number-rank (max_number maximum n) files i file (max_number-Fits maximum n p q.0) q.1 e

-- Where the numbers fit, maximum + 1 does not overflow.
next_number-rank : (m : FileNumber) → Fits m → next_number m ≡ file_number (rank m)
unfolding next_number as_int rank
next_number-rank no_number p = refl
next_number-rank (file_number n) p = if_true overflowed (ground (arith, p))
next_number-rank overflowed p = elim p [ ]

-- There is a name, and it is not that of a file.
abbrev pub IsNewTo : Text → Option Text → Type 0
IsNewTo file none = ⊥
IsNewTo file (some name) = name ≢ file

-- When the number of every route file is below 2 ^ 31 - 1 (so no int overflows) and fmt::format
-- writes the next number as decimal digits, CreateNewRoute takes a name, and it is that of no route
-- file.
pub new_route_file-fresh :
    (digits : ℕ → Text) (files : List Text)
    → AllFit files
    → ((n : ℕ)
        → next_number (maximum_number no_number files) ≡ file_number n
        → IsDecimal (digits n) n)
    → (i : ℕ) (file : Text) → get_elem? files i ≡ some file
    → IsNewTo file (new_route_file (format_route digits) files)
unfolding new_route_file rank
new_route_file-fresh digits files fits d i file m =
    let highest = maximum_number no_number files in
    let n = rank highest in
    let next = next_number-rank highest (maximum_number-Fits no_number files tt fits) in
    let below = maximum_number-rank no_number files i file tt fits m in
    rw (new_route_file, next)
      (λ same.
        let parsed : route_file_number file ≡ file_number n =
          ap route_file_number (sym same) ∙ route_file_number-format (digits n) n (d n next) in
        let too_big : suc n ≤ n = subst (λ k. rank k ≤ n) parsed below in
        absurd (omega (arith, too_big)))
