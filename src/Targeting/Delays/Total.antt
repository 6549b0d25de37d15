-- ===== src/Targeting/Delays/Total.antt =====
-- ConsumeActiveDelaySteps always returns.
use mathlib.Core.Option.{none-ne-some, some_inj}
use xenomods.Base.{
  option-cases, ℕ, zero, suc, Bool, ◌!=◌, List, [], ◌∷◌, Option, some, length, drop, ◌≡◌, refl, ap,
  ◌∙◌, sym, arith, if_true, if_false, ◌≤◌, ◌<◌, Bool-cases, inl, inr, if-elim,
}
use xenomods.Targeting.{TargetData}
use xenomods.Targeting.Entries.{find_from, on_map, find_next_target_for_map, after}
use xenomods.Targeting.Entries.Search.{drop-suc}
use xenomods.Targeting.Route.{RouteState, release_left_stick, reset_target_approach}
use xenomods.Targeting.Delays.{
  same_index, active_delay, begin_delay, next_step, consume_delay_steps, consume_active_delay_steps,
}

-- A result that is there.
pub record Returns (r : Option (RouteState × Bool)) : Type 0 where
  pub result : RouteState × Bool
  pub result_is : r ≡ some result

returned : (r : RouteState × Bool) → Returns (some r)
returned r = record { result = r; result_is = refl }

-- Behind an index that a search gives fewer entries are left than it started with.
find_from-shorter :
    (p : TargetData → Bool) (k j : ℕ) (ts us : List TargetData)
    → drop k ts ≡ us
    → find_from p k us ≡ some j
    → length (drop (suc j) ts) < length us
unfolding find_from
find_from-shorter p k j ts [] d e = absurd (none-ne-some j e)
find_from-shorter p k j ts (u ∷ us) d e =
    let next : drop (suc k) ts ≡ us = drop-suc k ts ∙ ap (drop 1) d in
    elim (Bool-cases (p u)) [
      | inl on ↦
          let k_is : k ≡ j = some_inj.0 (sym (if_true _ on) ∙ e) in
          let left : length (drop (suc j) ts) ≡ length us =
            ap (λ (n : ℕ). length (drop (suc n) ts)) (sym k_is) ∙ ap length next in
          omega arith
      | inr off ↦
          let shorter = find_from-shorter p (suc k) j ts us next (sym (if_false _ off) ∙ e) in
          omega arith
    ]

-- The entries behind the active one.
left : RouteState → ℕ
left s = length (drop (after s.active_target_index) s.targets)

next_step-left :
    (m j : ℕ) (s : RouteState)
    → (next_step m s).active_target_index ≡ some j
    → left (next_step m s) < left s
unfolding next_step find_next_target_for_map left after
next_step-left m j s e =
    let now : left (next_step m s) ≡ length (drop (suc j) s.targets) =
      ap (λ o. length (drop (after o) s.targets)) e in
    let shorter = find_from-shorter (on_map m) (after s.active_target_index) j s.targets _ refl e in
    omega arith

-- The start of a round leaves the route where it is.
begin_delay-left :
    (i : ℕ) (t : TargetData) (s : RouteState)
    → left (release_left_stick (reset_target_approach (begin_delay i t s))) ≡ left s
unfolding begin_delay release_left_stick reset_target_approach left
begin_delay-left i t s =
    if-elim (λ (u : RouteState). left (release_left_stick (reset_target_approach u)) ≡ left s)
      (same_index s.active_delay_index i) refl refl

consume_delay_steps-Returns :
    (fuel m : ℕ) (s : RouteState) → left s < fuel → Returns (consume_delay_steps fuel m s)
unfolding consume_delay_steps
consume_delay_steps-Returns zero m s h = elim h [ ]
consume_delay_steps-Returns (suc fuel) m s h =
    option-cases Returns (active_delay m s) (λ _. returned _)
      (λ d _.
        let s1 = release_left_stick (reset_target_approach (begin_delay d.0 d.1 s)) in
        let same : left s1 ≡ left s = begin_delay-left d.0 d.1 s in
        if-elim Returns (s1.delay_frames_remaining != 0) (returned _) (
          option-cases Returns (next_step m s1).active_target_index (λ _. returned _)
            (λ j e.
              let shorter : left (next_step m s1) < left s1 = next_step-left m j s1 e in
              consume_delay_steps-Returns fuel m (next_step m s1) (omega arith))))

drop-shorter {ℓ} : {A : Type ℓ} (k : ℕ) (ts : List A) → length (drop k ts) ≤ length ts
drop-shorter zero ts = omega arith
drop-shorter (suc k) [] = omega arith
drop-shorter (suc k) (t ∷ ts) = omega (arith, drop-shorter k ts)

-- ConsumeActiveDelaySteps returns on every route, whatever its entries, its active index and the
-- state of its delay: the loop ends within one round more than there are entries.
pub consume_active_delay_steps-Returns :
    (m : ℕ) (s : RouteState) → Returns (consume_active_delay_steps m s)
unfolding consume_active_delay_steps left
consume_active_delay_steps-Returns m s =
    consume_delay_steps-Returns (suc (length s.targets)) m s
      (omega (arith, drop-shorter (after s.active_target_index) s.targets))
