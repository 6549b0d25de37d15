-- ===== src/MenuHelper/Repair/Lines.antt =====
-- The repair of a file is the repair of its lines.
use mathlib.Core.Option.{Option, none, some}
use mathlib.Core.Option.{none-ne-some, some_inj}
use xenomods.Base.{
  starts_with, ℕ, zero, suc, ◌<◌, ◌==◌, List, [], ◌∷◌, ◌++◌, if◌then◌else◌, ◌≡◌, refl, arith, ◌∙◌,
  sym, ap, Text, length, map, if-cases, if_true, if_false,
}
use xenomods.MenuHelper.Repair.{
  find_text, repair_line, next_line, repair_lines, repair_recording_name_quotes,
}

-- A character joins the first line.
onto_first : ℕ → List Text → List Text
onto_first c [] = (c ∷ []) ∷ []
onto_first c (l ∷ ls) = (c ∷ l) ∷ ls

-- The lines of a text, one more than it has newlines.
unfoldable pub split_lines : Text → List Text
unfolding onto_first
split_lines [] = [] ∷ []
split_lines (c ∷ cs) = let rest = split_lines cs in if c == 10 then [] ∷ rest else onto_first c rest

unfoldable pub newline_lines : List Text → Text
newline_lines [] = []
newline_lines (l ∷ ls) = 10 ∷ (l ++ newline_lines ls)

-- The text of some lines.
unfoldable pub join_lines : List Text → Text
unfolding newline_lines
join_lines [] = []
join_lines (l ∷ ls) = l ++ newline_lines ls

other_lines : Option Text → List Text
other_lines none = []
other_lines (some rest) = split_lines rest

split_lines-next_line : (t : Text) → split_lines t ≡ (next_line t).0 ∷ other_lines (next_line t).1
unfolding split_lines next_line other_lines onto_first
split_lines-next_line [] = refl
split_lines-next_line (c ∷ cs) =
    if-cases (λ (n : Text × Option Text). split_lines (c ∷ cs) ≡ n.0 ∷ other_lines n.1) (c == 10)
      (λ e. if_true (onto_first c (split_lines cs)) e)
      (λ e. if_false ([] ∷ split_lines cs) e ∙ ap (onto_first c) (split_lines-next_line cs))

next_line-shorter : (t rest : Text) → (next_line t).1 ≡ some rest → length rest < length t
unfolding next_line
next_line-shorter [] rest = λ e. absurd (none-ne-some rest e)
next_line-shorter (c ∷ cs) rest =
    if-cases (λ (n : Text × Option Text). n.1 ≡ some rest → length rest < length (c ∷ cs)) (c == 10)
      (λ _ e. let l : length cs ≡ length rest = ap length (some_inj.0 e) in ground (arith, l))
      (λ _ e. let l = next_line-shorter cs rest e in ground (arith, l))

newline_lines-join :
    (t : Text)
    → newline_lines (map repair_line (split_lines t))
      ≡ 10 ∷ join_lines (map repair_line (split_lines t))
unfolding join_lines
newline_lines-join t = rw (split_lines-next_line t) refl

first-join :
    (t : Text) (n : Text × Option Text) (repair : Text → Text)
    → split_lines t ≡ n.0 ∷ other_lines n.1
    → ((rest : Text)
        → n.1 ≡ some rest
        → repair rest ≡ join_lines (map repair_line (split_lines rest)))
    → repair_line n.0 ++ elim n.1 [ none ↦ [] | some rest ↦ 10 ∷ repair rest ]
      ≡ join_lines (map repair_line (split_lines t))
unfolding join_lines other_lines
first-join t (l, none) repair e f = rw (e) refl
first-join t (l, some rest) repair e f =
    ap (λ u. repair_line l ++ u) (ap (λ u. 10 ∷ u) (f rest refl) ∙ sym (newline_lines-join rest))
    ∙ ap (λ ls. join_lines (map repair_line ls)) (sym e)

empty_join : [] ≡ join_lines (map repair_line (split_lines []))
unfolding join_lines split_lines repair_line find_text starts_with
empty_join = refl

repair_lines-join :
    (fuel : ℕ) (t : Text)
    → length t < fuel
    → repair_lines fuel t ≡ join_lines (map repair_line (split_lines t))
unfolding repair_lines
repair_lines-join zero t b = absurd (ground (arith, b))
repair_lines-join (suc fuel) [] b = empty_join
repair_lines-join (suc fuel) (c ∷ cs) b =
    first-join (c ∷ cs) (next_line (c ∷ cs)) (repair_lines fuel) (split_lines-next_line (c ∷ cs))
      (λ rest e.
        let shorter = next_line-shorter (c ∷ cs) rest e in
        repair_lines-join fuel rest (ground (arith, shorter, b)))

-- A repaired file has the repaired lines of the file, in order and with the same newlines.
pub repair-lines :
    (contents : Text)
    → repair_recording_name_quotes contents ≡ join_lines (map repair_line (split_lines contents))
unfolding repair_recording_name_quotes
repair-lines contents = repair_lines-join (suc (length contents)) contents (omega arith)
