-- ===== src/Targeting/Splits/Best.antt =====
-- A best time only gets better.
use mathlib.Core.Path.{subst}
use mathlib.Core.Option.{some_inj}
use xenomods.Base.{
  ℕ, zero, suc, ◌<◌, not, ◌&&◌, ◌||◌, ◌==◌, ◌!=◌, ltb, List, [], ◌∷◌, if◌then◌else◌, ◌≡◌, ◌≢◌, refl,
  sym, ap, ◌∙◌, arith, ◌⊎◌, inl, inr, some, get_elem?, set_elem, length, Text, if-elim, if-cases,
  option-cases, Bool-cases,
}
use xenomods.Targeting.{TargetData}
use xenomods.Targeting.Names.{normalize_target_names}
use xenomods.Targeting.Splits.Naming.{value_at, value_at-normalize_from}
use xenomods.Targeting.Splits.{
  SplitState, count_split_frame, time_section, start_section, finish_section, complete_target_split,
}

-- The best time of the section at an index; 0 when there is none.
abbrev pub best_at : List TargetData → ℕ → ℕ
best_at ts i = value_at (λ t. t.best_frames) ts i

-- A later best time: the same, or a first one, or a smaller one.
abbrev pub Improves : ℕ → ℕ → Type 0
Improves best later = (later ≡ best) ⊎ ((later ≢ 0) × ((best ≡ 0) ⊎ (later < best)))

Improves-trans : (a b c : ℕ) → Improves a b → Improves b c → Improves a c
Improves-trans a b c (inl e) (inl f) = inl (f ∙ e)
Improves-trans a b c (inl e) (inr (n, inl z)) = inr (n, inl (sym e ∙ z))
Improves-trans a b c (inl e) (inr (n, inr l)) = inr (n, inr (omega (arith, e, l)))
Improves-trans a b c (inr (n, inl z)) (inl f) = inr ((λ q. n (sym f ∙ q)), inl z)
Improves-trans a b c (inr (n, inr l)) (inl f) =
    inr ((λ q. n (sym f ∙ q)), inr (omega (arith, f, l)))
Improves-trans a b c (inr (n, p)) (inr (k, inl z)) = absurd (n z)
Improves-trans a b c (inr (n, inl z)) (inr (k, inr l)) = inr (k, inl z)
Improves-trans a b c (inr (n, inr r)) (inr (k, inr l)) = inr (k, inr (omega (arith, r, l)))

timed-Improves :
    (frames best : ℕ)
    → Improves best (if frames != 0 && (best == 0 || ltb frames best) then frames else best)
timed-Improves frames best =
    if-cases (Improves best) (frames != 0 && (best == 0 || ltb frames best))
      (λ e. inr (
        (λ z. ground (arith, e, z)),
        elim (Bool-cases (best == 0)) [
          | inl first ↦ inl (ground (arith, first))
          | inr again ↦ inr (ground (arith, e, again))
        ],
      ))
      (λ _. inl refl)

best_at-set_elem :
    (ts : List TargetData) (o : ℕ) (t : TargetData) (frames i : ℕ)
    → get_elem? ts o ≡ some t
    → Improves (best_at ts i) (best_at (set_elem ts o (time_section frames t)) i)
unfolding value_at time_section
best_at-set_elem [] o t frames i e = inl refl
best_at-set_elem (u ∷ us) zero t frames zero e =
    subst (λ best. Improves best (time_section frames t).best_frames)
      (sym (ap (λ (v : TargetData). v.best_frames) (some_inj.0 e)))
      (timed-Improves frames t.best_frames)
best_at-set_elem (u ∷ us) zero t frames (suc i) e = inl refl
best_at-set_elem (u ∷ us) (suc o) t frames zero e = inl refl
best_at-set_elem (u ∷ us) (suc o) t frames (suc i) e = best_at-set_elem us o t frames i e

-- What happens to the splits: a frame passes, or the party reaches a target on a map.
pub data SplitEvent : Type 0 where
  frame_passed : SplitEvent
  target_reached : (index map_id : ℕ) → SplitEvent

module _ (format : Text → ℕ → Text) where
  unfoldable pub split_run : List SplitEvent → SplitState → SplitState
  split_run [] s = s
  split_run (frame_passed ∷ es) s = split_run es (count_split_frame s)
  split_run (target_reached i m ∷ es) s = split_run es (complete_target_split format i m s)

  reached-Improves :
      (i m : ℕ) (s : SplitState) (k : ℕ)
      → Improves (best_at s.targets k) (best_at (complete_target_split format i m s).targets k)
  unfolding complete_target_split start_section finish_section normalize_target_names
  reached-Improves i m s k =
      let P : SplitState → Type 0 = λ t. Improves (best_at s.targets k) (best_at t.targets k) in
      if-elim P (not (ltb i (length s.targets))) (inl refl) (
        option-cases P s.target_to_target_origin_index (λ _. inl refl)
          (λ o _. if-elim P (not s.target_to_target_timer_running) (inl refl) (
            option-cases P (get_elem? s.targets o) (λ _. inl refl)
              (λ section e.
                subst (Improves (best_at s.targets k))
                  (sym (
                    value_at-normalize_from (λ t. t.best_frames) (λ _ _. refl) format (λ _. 0)
                      (set_elem s.targets o (time_section s.target_to_target_frame_count section))
                      k))
                  (best_at-set_elem s.targets o section s.target_to_target_frame_count k e)))))

  -- Whatever frames pass and targets are reached, in any order, the best time of every section
  -- stays what it was, or becomes its first one, or becomes a smaller one; it is never lost.
  pub split_run-Improves :
      (es : List SplitEvent) (s : SplitState) (k : ℕ)
      → Improves (best_at s.targets k) (best_at (split_run es s).targets k)
  unfolding split_run count_split_frame
  split_run-Improves [] s k = inl refl
  split_run-Improves (frame_passed ∷ es) s k =
      Improves-trans (best_at s.targets k) (best_at (count_split_frame s).targets k)
        (best_at (split_run es (count_split_frame s)).targets k)
        (if-elim (λ (t : SplitState). Improves (best_at s.targets k) (best_at t.targets k))
          s.target_to_target_timer_running (inl refl) (inl refl))
        (split_run-Improves es (count_split_frame s) k)
  split_run-Improves (target_reached i m ∷ es) s k =
      Improves-trans (best_at s.targets k) (best_at (complete_target_split format i m s).targets k)
        (best_at (split_run es (complete_target_split format i m s)).targets k)
        (reached-Improves i m s k) (split_run-Improves es (complete_target_split format i m s) k)
