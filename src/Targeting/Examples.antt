-- ===== src/Targeting/Examples.antt =====
-- Runs of the route model on a small route.
use mathlib.Core.Path.{subst}
use xenomods.Base.{
  same_text, starts_with, ap, length, Text, ℕ, ◌+◌, true, false, List, [], ◌∷◌, ◌++◌, none, some,
  ◌≡◌, refl, arith, get_elem?,
}
use xenomods.InputBuffer.State.{init, no_layers}
use xenomods.Targeting.{TargetData, new_target_data, is_position, action_step, delay_step, pos}
use xenomods.Targeting.RouteFiles.{
  FileNumber, no_number, file_number, overflowed, targets_text, toml_text, new_route_file,
  next_number, maximum_number, read_digits,
}
use xenomods.Targeting.RouteFiles.Fresh.{IsNewTo, IsDecimal, format_route, new_route_file-fresh}
use xenomods.Targeting.Names.{normalize_target_names}
use xenomods.Targeting.Names.Numbering.{numbered, normalize-route_number}
use xenomods.Targeting.Entries.{
  after, find_from, find_next_target_for_map, map_entry_indices, find_first_target_for_map,
  route_number, on_map, indices_from, count_positions,
}
use xenomods.Targeting.Entries.Search.{visit, visit-map_entry_indices}
use xenomods.Targeting.Route.{reset_target_approach, release_left_stick, RouteState}
use xenomods.Targeting.Delays.{is_delay, active_delay, consume_active_delay_steps, same_index}
use xenomods.Targeting.Delays.Total.{Returns, consume_active_delay_steps-Returns}
use xenomods.Targeting.Delays.Waiting.{waits, standing, arrives, moved, waits-delay}
use xenomods.Targeting.Actions.{queue_action}
use xenomods.Targeting.Actions.Timing.{Runs, frames-queue_action}

abbrev field : TargetData
field = record new_target_data { map_name = 70 ∷ []; map_id = 1 }

abbrev town : TargetData
town = record new_target_data { map_id = 2 }

abbrev press_plus : TargetData
press_plus = record new_target_data {
  type = action_step;
  map_id = 1;
  button_mask = 512;
  delay_frames = pos 2;
  hold_frames = pos 3;
}

abbrev route : List TargetData
route = field ∷ town ∷ press_plus ∷ field ∷ []

-- A stand-in for fmt::format: the map's name and the number as one more byte.
abbrev short_name : Text → ℕ → Text
short_name name n = name ++ ((48 + n) ∷ [])

abbrev resting : RouteState
resting = record {
  targets = route;
  route_active = true;
  active_target_index = some 2;
  waiting_for_player = false;
  start_delay_frames = 0;
  active_delay_index = none;
  delay_frames_remaining = 0;
  active_actions = [];
  tracked_target_index = none;
  previous_target_delta = record { x = 0; y = 0; z = 0 };
  has_previous_target_delta = false;
  script_movement_complete = false;
  target_to_target_timer_running = false;
  input = init no_layers;
}

normalize-route_number_example :
    (get_elem? (normalize_target_names short_name route).0 3
      ≡ some (numbered short_name (route_number (some 3) route) field))
    × (normalize_target_names short_name (normalize_target_names short_name route).0
        ≡ ((normalize_target_names short_name route).0, false))
normalize-route_number_example = normalize-route_number short_name route 3 field refl

visit-map_entry_indices_example :
    visit 6 1 route (find_first_target_for_map 1 route) ≡ map_entry_indices 1 route
visit-map_entry_indices_example = visit-map_entry_indices 1 6 route (omega arith)

-- The entries of the first map.
map_entry_indices-route : map_entry_indices 1 route ≡ 0 ∷ 2 ∷ 3 ∷ []
unfolding map_entry_indices indices_from on_map
map_entry_indices-route = refl

-- The second position target of the first map has number 2.
route_number-route : route_number (some 3) route ≡ 2
unfolding route_number count_positions on_map is_position
route_number-route = refl

frames-queue_action_example :
    Runs 5 (queue_action 2 resting) ((0, 0) ∷ (0, 0) ∷ (512, 512) ∷ (512, 0) ∷ (512, 0) ∷ [])
frames-queue_action_example =
    frames-queue_action 2 press_plus refl refl resting 2 2 refl refl refl refl

-- A route whose active entry is a delay of three frames.
abbrev pause : TargetData
pause = record new_target_data { type = delay_step; map_id = 1; delay_frames = pos 3 }

abbrev pausing : RouteState
pausing = record resting { targets = field ∷ pause ∷ field ∷ []; active_target_index = some 1 }

waits-delay_example :
    (waits 3 1 pausing ≡ some (standing 1 0 pausing))
    × (consume_active_delay_steps 1 (standing 1 0 pausing)
        ≡ some (arrives (some 2) (moved (some 2) (standing 1 0 pausing))))
unfolding same_index find_next_target_for_map find_from after on_map active_delay is_delay standing
    release_left_stick reset_target_approach
waits-delay_example =
    waits-delay 1 1 pause refl refl pausing 2 (some 2) refl refl refl refl refl refl

consume_active_delay_steps-Returns_example : Returns (consume_active_delay_steps 1 pausing)
consume_active_delay_steps-Returns_example = consume_active_delay_steps-Returns 1 pausing

-- targets.toml, which has no number, and targets0.toml
abbrev route_files : List Text
route_files = (targets_text ++ toml_text) ∷ (targets_text ++ ((48 ∷ []) ++ toml_text)) ∷ []

-- A stand-in for the decimal digits of a number below 10.
abbrev one_digit : ℕ → Text
one_digit n = (48 + n) ∷ []

abbrev next_value : FileNumber → ℕ
next_value no_number = 0
next_value (file_number n) = n
next_value overflowed = 0

one_digit-IsDecimal : IsDecimal (one_digit 1) 1
unfolding read_digits
one_digit-IsDecimal = record { nonempty = filled; reads = refl }
  where
    filled : one_digit 1 ≡ [] → ⊥
    filled e = let l = ap length e in ground (arith, l)

new_route_file-fresh_example :
    IsNewTo
      (targets_text ++ ((48 ∷ []) ++ toml_text))
      (new_route_file (format_route one_digit) route_files)
unfolding next_number maximum_number starts_with same_text
new_route_file-fresh_example =
    new_route_file-fresh one_digit route_files (tt, (omega arith, tt))
      (λ n e. subst (λ k. IsDecimal (one_digit k) k) (ap next_value e) one_digit-IsDecimal) 1
      (targets_text ++ ((48 ∷ []) ++ toml_text)) refl
