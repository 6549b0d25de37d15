-- ===== src/Targeting/Splits/Timing.antt =====
-- The frames of a section are those between its two targets.
use mathlib.Core.Path.{sym, subst}
use mathlib.Core.Option.{none-ne-some}
use xenomods.Base.{
  ℕ, zero, suc, ◌+◌, ◌%◌, ◌^◌, ◌<◌, true, false, not, ltb, List, [], ◌∷◌, ◌++◌, if◌then◌else◌, ◌≡◌,
  refl, ap, ◌∙◌, arith, none, some, get_elem?, set_elem, ◌!=◌, ◌==◌, ◌&&◌, ◌||◌, length, Text,
  if_true, if_false, replicate,
}
use xenomods.Targeting.{TargetData}
use xenomods.Targeting.Names.{normalize_target_names}
use xenomods.Targeting.Entries.{find_next_movement_target_for_map}
use xenomods.Targeting.Splits.Naming.{value_at, value_at-normalize_from}
use xenomods.Targeting.Splits.{
  SplitState, count_split_frame, time_section, start_section, finish_section, is_found,
  complete_target_split,
}
use xenomods.Targeting.Splits.Best.{SplitEvent, frame_passed, target_reached, split_run}

get-set_elem :
    (ts : List TargetData) (o : ℕ) (t u : TargetData)
    → get_elem? ts o ≡ some t
    → get_elem? (set_elem ts o u) o ≡ some u
get-set_elem [] o t u e = absurd (none-ne-some t e)
get-set_elem (v ∷ vs) zero t u e = refl
get-set_elem (v ∷ vs) (suc o) t u e = get-set_elem vs o t u e

abbrev with_count : SplitState → ℕ → SplitState
with_count s c = record s { target_to_target_frame_count = c }

in_range : (i n : ℕ) → i < n → not (ltb i n) ≡ false
in_range i n b = ground (arith, b)

-- 1 when there is a target at an index, and 0 when there is none.
present : List TargetData → ℕ → ℕ
present ts i = value_at (λ _. 1) ts i

range-present : (ts : List TargetData) (i : ℕ) → i < length ts → present ts i ≡ 1
unfolding present value_at
range-present [] i h = absurd (omega (arith, h))
range-present (t ∷ ts) zero h = refl
range-present (t ∷ ts) (suc i) h = range-present ts i (omega (arith, h))

present-range : (ts : List TargetData) (i : ℕ) → present ts i ≡ 1 → i < length ts
unfolding present value_at
present-range [] i h = absurd (omega (arith, h))
present-range (t ∷ ts) zero h = omega arith
present-range (t ∷ ts) (suc i) h = let r = present-range ts i h in omega (arith, r)

present-get :
    (ts : List TargetData) (i : ℕ)
    → present ts i ≡ 1
    → (P : Type 0) → ((t : TargetData) → get_elem? ts i ≡ some t → P)
    → P
unfolding present value_at
present-get [] i h P f = absurd (omega (arith, h))
present-get (t ∷ ts) zero h P f = f t refl
present-get (t ∷ ts) (suc i) h P f = present-get ts i h P f

present-set_elem :
    (ts : List TargetData) (o i : ℕ) (u : TargetData) → present (set_elem ts o u) i ≡ present ts i
unfolding present value_at
present-set_elem [] o i u = refl
present-set_elem (t ∷ ts) zero zero u = refl
present-set_elem (t ∷ ts) zero (suc i) u = refl
present-set_elem (t ∷ ts) (suc o) zero u = refl
present-set_elem (t ∷ ts) (suc o) (suc i) u = present-set_elem ts o i u

-- A target that is reached starts a section: no section is timed yet, or one that is running ends.
pub data Begins (s : SplitState) : Type 0 where
  first : s.target_to_target_origin_index ≡ none → Begins s
  later :
      (o : ℕ) (section : TargetData)
      → s.target_to_target_origin_index ≡ some o
      → s.target_to_target_timer_running ≡ true
      → get_elem? s.targets o ≡ some section
      → Begins s

-- The timer runs from 0 in the section of a target, and the targets have the indices that they had.
record InSection (i : ℕ) (s s1 : SplitState) : Type 0 where
  at_origin : s1.target_to_target_origin_index ≡ some i
  running : s1.target_to_target_timer_running ≡ true
  from_zero : s1.target_to_target_frame_count ≡ 0
  same_range : (k : ℕ) → present s1.targets k ≡ present s.targets k

-- The section of an index took n frames between two states of the targets.
abbrev pub Timed : (i n : ℕ) → (started ended : List TargetData) → Type 0
Timed i n started ended =
    let best = value_at (λ u. u.best_frames) started i in
    (value_at (λ u. u.last_frames) ended i ≡ n)
    × (value_at (λ u. u.best_frames) ended i
        ≡ (if n != 0 && (best == 0 || ltb n best) then n else best))

module _ (format : Text → ℕ → Text) where
  -- Frames that pass are counted while the timer runs.
  run-frames :
      (n : ℕ) (es : List SplitEvent) (s : SplitState)
      → s.target_to_target_timer_running ≡ true
      → s.target_to_target_frame_count + n < 2 ^ 64
      → split_run format (replicate n frame_passed ++ es) s
        ≡ split_run format es (with_count s (s.target_to_target_frame_count + n))
  unfolding split_run count_split_frame
  run-frames zero es s r b =
      let e : s.target_to_target_frame_count ≡ s.target_to_target_frame_count + 0 = omega arith in
      ap (λ c. split_run format es (with_count s c)) e
  run-frames (suc n) es s r b =
      let c = s.target_to_target_frame_count in
      let e : suc c % 2 ^ 64 ≡ c + 1 = omega (arith, b) in
      let counted : count_split_frame s ≡ with_count s (c + 1) =
        if_true s r ∙ ap (with_count s) e in
      let sum : c + 1 + n ≡ c + suc n = omega arith in
      ap (split_run format (replicate n frame_passed ++ es)) counted
      ∙ run-frames n es (with_count s (c + 1)) r (omega (arith, b))
      ∙ ap (λ k. split_run format es (with_count s k)) sum

  -- Timing and naming the targets anew keeps which indices have one.
  present-finish :
      (o i : ℕ) (section : TargetData) (s : SplitState)
      → present (finish_section format o section s).targets i ≡ present s.targets i
  unfolding finish_section normalize_target_names present value_at
  present-finish o i section s =
      let timed = time_section s.target_to_target_frame_count section in
      value_at-normalize_from (λ _. 1) (λ _ _. refl) format (λ _. 0) (set_elem s.targets o timed) i
      ∙ present-set_elem s.targets o i timed

  -- A section that begins runs from 0 at its target, whether it is the first or another one is over.
  Begins-InSection :
      (i m : ℕ) (s : SplitState)
      → i < length s.targets
      → Begins s
      → is_found (find_next_movement_target_for_map (some i) m s.targets) ≡ true
      → InSection i s (complete_target_split format i m s)
  unfolding complete_target_split start_section
  Begins-InSection i m s b (first o) f =
      let started : complete_target_split format i m s ≡ start_section i true s =
        if_false s (in_range i (length s.targets) b) ∙ (rw (o, f) refl) in
      subst (InSection i s) (sym started)
        (record { at_origin = refl; running = refl; from_zero = refl; same_range = λ k. refl })
  Begins-InSection i m s b (later o section g r e) f =
      let over = finish_section format o section s in
      let started : complete_target_split format i m s ≡ start_section i true over =
        if_false s (in_range i (length s.targets) b) ∙ (rw (g, r, e, f) refl) in
      subst (InSection i s) (sym started) (record {
        at_origin = refl;
        running = refl;
        from_zero = refl;
        same_range = λ k. present-finish o k section s;
      })

  -- The next target ends the section.
  reach-finish :
      (i j m : ℕ) (s : SplitState) (t : TargetData)
      → j < length s.targets
      → get_elem? s.targets i ≡ some t
      → s.target_to_target_origin_index ≡ some i
      → s.target_to_target_timer_running ≡ true
      → (value : TargetData → ℕ)
      → ((u : TargetData) (name : Text) → value (record u { name = name }) ≡ value u)
      → value_at value (complete_target_split format j m s).targets i
        ≡ value (time_section s.target_to_target_frame_count t)
  unfolding complete_target_split start_section finish_section value_at normalize_target_names
  reach-finish i j m s t b e o r value unnamed =
      let timed = time_section s.target_to_target_frame_count t in
      ap (λ (u : SplitState). value_at value u.targets i)
        (if_false s (in_range j (length s.targets) b))
      ∙ (rw (o, r, e)
          (value_at-normalize_from value unnamed format (λ _. 0) (set_elem s.targets i timed) i
            ∙ (rw (value_at, get-set_elem s.targets i t timed e) refl)))

  -- n frames of a section and its end.
  section_run :
      (i j k n : ℕ) (s s1 : SplitState)
      → InSection i s s1
      → n < 2 ^ 64
      → split_run format (replicate n frame_passed ++ (target_reached j k ∷ [])) s1
        ≡ complete_target_split format j k (with_count s1 n)
  unfolding split_run
  section_run i j k n s s1 v l =
      let zero_first : s1.target_to_target_frame_count + n ≡ n = omega (arith, v.from_zero) in
      run-frames n (target_reached j k ∷ []) s1 v.running (omega (arith, l, v.from_zero))
      ∙ ap (λ count. complete_target_split format j k (with_count s1 count)) zero_first

  section_end :
      (i j k n : ℕ) (s s1 : SplitState)
      → i < length s.targets
      → j < length s.targets
      → InSection i s s1
      → Timed i n s1.targets (complete_target_split format j k (with_count s1 n)).targets
  unfolding value_at time_section
  section_end i j k n s s1 b c v =
      let j_range = present-range s1.targets j (v.same_range j ∙ range-present s.targets j c) in
      let i_range = v.same_range i ∙ range-present s.targets i b in
      present-get s1.targets i i_range
        (Timed i n s1.targets (complete_target_split format j k (with_count s1 n)).targets)
        (λ t e.
          let best : t.best_frames ≡ value_at (λ u. u.best_frames) s1.targets i =
            rw (value_at, e) refl in
          let reach = reach-finish i j k (with_count s1 n) t j_range e v.at_origin v.running in
          (
            reach (λ u. u.last_frames) (λ _ _. refl),
            reach (λ u. u.best_frames) (λ _ _. refl)
                ∙ ap (λ x. if n != 0 && (x == 0 || ltb n x) then n else x) best,
          ))

  -- When the party reaches a target that has another one after it, and the timer has no section yet
  -- or runs in a section of the route, a section starts; when then n frames pass, n below 2 ^ 64,
  -- and the party reaches a target of the route, the section has n as its last frames. Its best
  -- frames are n when it had none as it started or n is fewer, and n is not 0; otherwise they stay.
  pub section-frames :
      (i m j k n : ℕ) (s : SplitState)
      → i < length s.targets
      → j < length s.targets
      → Begins s
      → is_found (find_next_movement_target_for_map (some i) m s.targets) ≡ true
      → n < 2 ^ 64
      → Timed i n
          (split_run format (target_reached i m ∷ []) s).targets
          (split_run format
            (target_reached i m ∷ (replicate n frame_passed ++ (target_reached j k ∷ [])))
            s).targets
  unfolding split_run
  section-frames i m j k n s b c begin f l =
      let s1 = complete_target_split format i m s in
      let v = Begins-InSection i m s b begin f in
      subst (λ (u : SplitState). Timed i n s1.targets u.targets)
        (sym (section_run i j k n s s1 v l)) (section_end i j k n s s1 b c v)
