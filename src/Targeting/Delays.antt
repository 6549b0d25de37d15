-- ===== src/Targeting/Delays.antt =====
-- The delay steps of a route: ConsumeActiveDelaySteps.
pub mod Waiting
pub mod Total
use xenomods.Base.{
  ℕ, zero, suc, ◌-◌, Bool, true, false, ◌&&◌, ◌==◌, ◌!=◌, List, if◌then◌else◌, Option, none, some,
  get_elem?, length,
}
use xenomods.Targeting.{
  TargetData, TargetType, position_target, delay_step, action_step, toggle_step, shop_tas, menu_tas,
  travel_tas, max_zero,
}
use xenomods.Targeting.Entries.{on_map, find_next_target_for_map}
use xenomods.Targeting.Route.{
  RouteState, release_left_stick, reset_target_approach, mark_route_movement_complete,
}

-- type == TargetType::Delay
unfoldable pub is_delay : TargetType → Bool
is_delay position_target = false
is_delay delay_step = true
is_delay action_step = false
is_delay toggle_step = false
is_delay shop_tas = false
is_delay menu_tas = false
is_delay travel_tas = false

-- An index against one that may be negative.
unfoldable pub same_index : Option ℕ → ℕ → Bool
same_index none i = false
same_index (some j) i = j == i

-- The active entry with its index, if it is a delay of this map.
unfoldable pub active_delay : (map_id : ℕ) → RouteState → Option (ℕ × TargetData)
unfolding on_map is_delay
active_delay m s = elim s.active_target_index [
  | none ↦ none
  | some i ↦ elim (get_elem? s.targets i) [
    | none ↦ none
    | some t ↦ if on_map m t && is_delay t.type then some (i, t) else none
  ]
]

-- A delay that was not running starts with all its frames.
unfoldable pub begin_delay : ℕ → TargetData → RouteState → RouteState
unfolding same_index
begin_delay i t s =
    if same_index s.active_delay_index i
    then s
    else record s { active_delay_index = some i; delay_frames_remaining = max_zero t.delay_frames }

-- The entry after a delay that is over.
unfoldable pub next_step : (map_id : ℕ) → RouteState → RouteState
next_step m s = record s {
  active_target_index = find_next_target_for_map s.active_target_index m s.targets;
  active_delay_index = none;
}

-- The loop of ConsumeActiveDelaySteps; none when the fuel is out before it returns.
unfoldable pub consume_delay_steps : (fuel map_id : ℕ) → RouteState → Option (RouteState × Bool)
unfolding begin_delay next_step active_delay
consume_delay_steps zero m s = none
consume_delay_steps (suc fuel) m s = elim (active_delay m s) [
  | none ↦ some (s, false)
  | some (i, t) ↦
      let s1 = release_left_stick (reset_target_approach (begin_delay i t s)) in
      let s2 = next_step m s1 in
      if s1.delay_frames_remaining != 0
      then some (record s1 { delay_frames_remaining = s1.delay_frames_remaining - 1 }, true)
      else elim s2.active_target_index [
        | none ↦ some (mark_route_movement_complete s2, true)
        | some j ↦ consume_delay_steps fuel m s2
      ]
]

-- ConsumeActiveDelaySteps: each round but the last leaves an entry of the route behind.
unfoldable pub consume_active_delay_steps : (map_id : ℕ) → RouteState → Option (RouteState × Bool)
unfolding consume_delay_steps
consume_active_delay_steps m s = consume_delay_steps (suc (length s.targets)) m s
