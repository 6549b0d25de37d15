-- ===== src/Targeting/Route.antt =====
-- The state of a running route, the globals of src/xenomods/modules/Targeting.cpp, with the input
-- that it injects, and the small resets of it.
use xenomods.Base.{ℕ, Bool, true, false, List, [], Option, none}
use xenomods.InputBuffer.State.{InputState}
use xenomods.InputBuffer.Api.{set_raw_button_override, cancel_buffered_button_action}
use xenomods.InputBuffer.Sticks.{set_left_stick_override, set_action_stick_override}
use xenomods.Targeting.{TargetData, Vec3}

-- An action of the route that is running. Its entry is an index into the route.
pub record ActiveAction : Type 0 where
  pub index : ℕ
  pub delay_frames_remaining : ℕ
  pub hold_frames_remaining : ℕ
  pub started : Bool
  pub buffered_requested : Bool
  pub buffered_accepted : Bool

pub record RouteState : Type 0 where
  pub targets : List TargetData
  pub route_active : Bool
  pub active_target_index : Option ℕ
  pub waiting_for_player : Bool
  pub start_delay_frames : ℕ
  pub active_delay_index : Option ℕ
  pub delay_frames_remaining : ℕ
  pub active_actions : List ActiveAction
  pub tracked_target_index : Option ℕ
  pub previous_target_delta : Vec3
  pub has_previous_target_delta : Bool
  pub script_movement_complete : Bool
  pub target_to_target_timer_running : Bool
  pub input : InputState

-- InputBuffer::SetLeftStickOverride(false)
unfoldable pub release_left_stick : RouteState → RouteState
unfolding set_left_stick_override
release_left_stick s = record s { input = set_left_stick_override false 0 0 s.input }

-- ResetTargetApproach
unfoldable pub reset_target_approach : RouteState → RouteState
reset_target_approach s = record s {
  tracked_target_index = none;
  previous_target_delta = record { x = 0; y = 0; z = 0 };
  has_previous_target_delta = false;
}

-- ClearActiveActions
unfoldable pub clear_active_actions : RouteState → RouteState
unfolding set_raw_button_override set_action_stick_override cancel_buffered_button_action
clear_active_actions s = record s {
  active_actions = [];
  input =
      cancel_buffered_button_action
        (set_action_stick_override false false 0 0 (set_raw_button_override false 0 0 s.input));
}

-- MarkRouteMovementComplete
unfoldable pub mark_route_movement_complete : RouteState → RouteState
unfolding reset_target_approach release_left_stick
mark_route_movement_complete s =
    record (release_left_stick (
      reset_target_approach (record s {
        route_active = false;
        active_target_index = none;
        waiting_for_player = false;
        start_delay_frames = 0;
        active_delay_index = none;
        delay_frames_remaining = 0;
      }))) { script_movement_complete = true; target_to_target_timer_running = false }
