-- ===== src/Targeting/Delays/Waiting.antt =====
-- How long a delay step keeps a route.
use mathlib.Core.Option.{none-ne-some}
use xenomods.Base.{
  List, [], ◌∷◌, ℕ, zero, suc, ◌-◌, Bool, true, false, ◌&&◌, ◌!=◌, if◌then◌else◌, Option, none,
  some, get_elem?, length, ◌≡◌, refl, ap, ◌∙◌, arith, if_false, suc_nonzero, suc_less, ==_iff,
}
use xenomods.InputBuffer.Sticks.{set_left_stick_override}
use xenomods.Targeting.{TargetData, delay_step, max_zero}
use xenomods.Targeting.Entries.{on_map, find_next_target_for_map}
use xenomods.Targeting.Route.{
  RouteState, release_left_stick, reset_target_approach, mark_route_movement_complete,
}
use xenomods.Targeting.Delays.{
  is_delay, same_index, active_delay, begin_delay, next_step, consume_delay_steps,
  consume_active_delay_steps,
}

-- Some calls of ConsumeActiveDelaySteps that all keep the route waiting, and the state after them;
-- none if one of them does not return or does not keep it waiting.
unfoldable pub waits : (calls map_id : ℕ) → RouteState → Option RouteState
waits zero m s = some s
waits (suc n) m s = elim (consume_active_delay_steps m s) [
  | none ↦ none
  | some (s', b) ↦ if b then waits n m s' else none
]

-- A route that stands at the delay step of an index, with this many frames left, and steers nowhere.
unfoldable pub standing : (i remaining : ℕ) → RouteState → RouteState
unfolding release_left_stick reset_target_approach
standing i remaining s = record (release_left_stick (reset_target_approach s)) {
  active_delay_index = some i;
  delay_frames_remaining = remaining;
}

-- The rest of the loop at the entry after the delay; the route is complete where there is none.
resumes : (fuel map_id : ℕ) → RouteState → Option (RouteState × Bool)
resumes fuel m s = elim s.active_target_index [
  | none ↦ some (mark_route_movement_complete s, true)
  | some j ↦ consume_delay_steps fuel m s
]

goes_on : (fuel map_id : ℕ) → RouteState → Option (RouteState × Bool)
goes_on fuel m s = resumes fuel m (next_step m s)

-- The route with another active entry, or none, and no delay.
abbrev pub moved : (next : Option ℕ) → RouteState → RouteState
moved next s = record s { active_target_index = next; active_delay_index = none }

-- What the route is then, and what a call returns.
abbrev pub arrives : (next : Option ℕ) → RouteState → RouteState × Bool
arrives none s = (mark_route_movement_complete s, true)
arrives (some j) s = (s, false)

module _ (m i : ℕ) (t : TargetData) (here : t.map_id ≡ m) (delay : t.type ≡ delay_step) where
  is-here : (on_map m t && is_delay t.type) ≡ true
  unfolding on_map is_delay
  is-here = ap (λ b. b && is_delay t.type) ((==_iff t.map_id m).1 here) ∙ ap is_delay delay

  active_delay-here :
      (s : RouteState)
      → s.active_target_index ≡ some i
      → get_elem? s.targets i ≡ some t
      → active_delay m s ≡ some (i, t)
  unfolding active_delay
  active_delay-here s a g = rw (active_delay, a, g, is-here) refl

  -- One round that stays at the delay.
  consume-stays :
      (s s' : RouteState) (fuel r : ℕ)
      → s.active_target_index ≡ some i
      → get_elem? s.targets i ≡ some t
      → release_left_stick (reset_target_approach (begin_delay i t s)) ≡ s'
      → s'.delay_frames_remaining ≡ suc r
      → consume_delay_steps (suc fuel) m s ≡ some (record s' { delay_frames_remaining = r }, true)
  unfolding consume_delay_steps
  consume-stays s s' fuel r a g e n =
      rw (consume_delay_steps, active_delay-here s a g, e, n, suc_nonzero r, suc_less r) refl

  same_index_self : same_index (some i) i ≡ true
  unfolding same_index
  same_index_self = (==_iff i i).1 refl

  -- A route that stands stays as it is but for the countdown.
  rest-standing :
      (s : RouteState) (r : ℕ)
      → release_left_stick (reset_target_approach (begin_delay i t (standing i r s)))
        ≡ standing i r s
  unfolding standing begin_delay release_left_stick reset_target_approach set_left_stick_override
  rest-standing s r = rw (begin_delay, same_index_self) refl

  consume-standing :
      (s : RouteState) (r : ℕ)
      → s.active_target_index ≡ some i
      → get_elem? s.targets i ≡ some t
      → consume_active_delay_steps m (standing i (suc r) s) ≡ some (standing i r s, true)
  unfolding consume_active_delay_steps standing release_left_stick reset_target_approach
  consume-standing s r a g =
      consume-stays (standing i (suc r) s) (standing i (suc r) s) (length s.targets) r a g
        (rest-standing s (suc r)) refl

  -- The first frame, in which the delay begins.
  consume-first :
      (s : RouteState) (r : ℕ)
      → s.active_target_index ≡ some i
      → get_elem? s.targets i ≡ some t
      → same_index s.active_delay_index i ≡ false
      → max_zero t.delay_frames ≡ suc r
      → consume_active_delay_steps m s ≡ some (standing i r s, true)
  unfolding consume_active_delay_steps standing begin_delay release_left_stick reset_target_approach
      set_left_stick_override
  consume-first s r a g new n =
      consume-stays s (standing i (suc r) s) (length s.targets) r a g
        (rw (begin_delay, new, n) refl) refl

  waits-standing :
      (s : RouteState) (r : ℕ)
      → s.active_target_index ≡ some i
      → get_elem? s.targets i ≡ some t
      → waits r m (standing i r s) ≡ some (standing i 0 s)
  unfolding waits
  waits-standing s zero a g = refl
  waits-standing s (suc r) a g = rw (waits, consume-standing s r a g) (waits-standing s r a g)

  -- One round at a delay.
  consume-round :
      (s : RouteState) (fuel : ℕ)
      → s.active_target_index ≡ some i
      → get_elem? s.targets i ≡ some t
      → let s' = release_left_stick (reset_target_approach (begin_delay i t s)) in
        consume_delay_steps (suc fuel) m s ≡ (
          if s'.delay_frames_remaining != 0
          then some (record s' { delay_frames_remaining = s'.delay_frames_remaining - 1 }, true)
          else goes_on fuel m s')
  unfolding consume_delay_steps goes_on resumes
  consume-round s fuel a g = rw (consume_delay_steps, active_delay-here s a g) refl

  -- One round that leaves the delay.
  consume-leaves :
      (s s' : RouteState) (fuel : ℕ)
      → s.active_target_index ≡ some i
      → get_elem? s.targets i ≡ some t
      → release_left_stick (reset_target_approach (begin_delay i t s)) ≡ s'
      → s'.delay_frames_remaining ≡ 0
      → consume_delay_steps (suc fuel) m s ≡ goes_on fuel m s'
  consume-leaves s s' fuel a g e n =
      consume-round s fuel a g
      ∙ ap
          (λ (u : RouteState).
            if u.delay_frames_remaining != 0
            then some (record u { delay_frames_remaining = u.delay_frames_remaining - 1 }, true)
            else goes_on fuel m u)
          e
      ∙ if_false {b = s'.delay_frames_remaining != 0} _ (ground (arith, n))

  -- What a call does once the delay is over.
  over-standing :
      (s : RouteState)
      → s.active_target_index ≡ some i
      → get_elem? s.targets i ≡ some t
      → consume_active_delay_steps m (standing i 0 s)
        ≡ goes_on (length s.targets) m (standing i 0 s)
  unfolding consume_active_delay_steps standing release_left_stick reset_target_approach
  over-standing s a g =
      consume-leaves (standing i 0 s) (standing i 0 s) (length s.targets) a g (rest-standing s 0)
        refl

  -- The rest of the loop, when the next entry is no delay of the map.
  resumes-moved :
      (s : RouteState) (next : Option ℕ) (ts : List TargetData)
      → get_elem? ts i ≡ some t
      → active_delay m (moved next s) ≡ none
      → resumes (length ts) m (moved next s) ≡ some (arrives next (moved next s))
  unfolding resumes consume_delay_steps
  resumes-moved s next [] e d = absurd (none-ne-some t e)
  resumes-moved s none (u ∷ us) e d = refl
  resumes-moved s (some j) (u ∷ us) e d = rw (consume_delay_steps, d) refl

  goes_on-moves :
      (s : RouteState) (next : Option ℕ)
      → get_elem? s.targets i ≡ some t
      → find_next_target_for_map s.active_target_index m s.targets ≡ next
      → active_delay m (moved next s) ≡ none
      → goes_on (length s.targets) m s ≡ some (arrives next (moved next s))
  unfolding goes_on next_step
  goes_on-moves s next e f d =
      ap (λ x. resumes (length s.targets) m (moved x s)) f ∙ resumes-moved s next s.targets e d

  -- A delay step of n frames, n above 0, that the route has just reached keeps it for n calls of
  -- ConsumeActiveDelaySteps: each returns true, and after them the route still stands at the step,
  -- with no frame left and the left stick released. When what comes next on the map is no delay, the
  -- next call leaves the step: it makes the next entry of the map the active one, ends the delay and
  -- returns false; where the map has no further entry the route's movement is complete, and it
  -- returns true.
  pub waits-delay :
      (s : RouteState) (r : ℕ) (next : Option ℕ)
      → s.active_target_index ≡ some i
      → get_elem? s.targets i ≡ some t
      → same_index s.active_delay_index i ≡ false
      → max_zero t.delay_frames ≡ suc r
      → find_next_target_for_map (some i) m s.targets ≡ next
      → active_delay m (moved next (standing i 0 s)) ≡ none
      → (waits (suc r) m s ≡ some (standing i 0 s))
        × (consume_active_delay_steps m (standing i 0 s)
            ≡ some (arrives next (moved next (standing i 0 s))))
  unfolding waits standing release_left_stick reset_target_approach
  waits-delay s r next a g new n f d = (
    rw (waits, consume-first s r a g new n) (waits-standing s r a g),
    over-standing s a g
        ∙ goes_on-moves (standing i 0 s) next g
            (ap (λ x. find_next_target_for_map x m s.targets) a ∙ f) d,
  )
