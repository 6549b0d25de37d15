-- ===== src/InputBuffer/Api.antt =====
-- The setters and queries of include/xenomods/InputBuffer.hpp, and the calls of the registered
-- callbacks.
pub mod AuxCore
pub mod Completion
use xenomods.Base.{
  ℕ, ◌+◌, ◌-◌, ◌%◌, ◌^◌, bit_and, bit_or, Bool, false, true, not, ◌&&◌, ◌||◌, ◌==◌, ◌!=◌, ltb, ◌∷◌,
  if◌then◌else◌,
}
use xenomods.InputBuffer.State.{
  InputState, AcceptedAction, no_action, playback, PlaybackMode, standard_menu, AutoUiActionPhase,
  idle, pending, neutral, Call, accepted_action, no_frame,
}
use xenomods.InputBuffer.Action.{is_ui_pad_action, ui_pad_mask, lr_button_mask}

-- What the callbacks that the tools register do to this state, by the setters below.
abbrev pub Client : Type 0
Client = Call → InputState → InputState

-- A call through a registered callback: it is noted, and the callback runs.
unfoldable pub invoke : Client → Call → InputState → InputState
invoke client call s = client call (record s { calls = call ∷ s.calls })

-- CompletePlaybackAction
unfoldable pub complete_playback_action : Client → AcceptedAction → InputState → InputState
unfolding invoke
complete_playback_action client action s =
    if s.accepted_action_callback then invoke client (accepted_action action playback) s else s

-- acceptedAction = playbackAction; playbackAction = {}; CompletePlaybackAction(acceptedAction).
unfoldable pub finish_playback_action : Client → InputState → InputState
unfolding complete_playback_action
finish_playback_action client s =
    complete_playback_action client s.playback_action (record s { playback_action = no_action })

unfoldable pub set_raw_button_override :
    (active : Bool) (held_mask down_mask : ℕ) → InputState → InputState
set_raw_button_override active held_mask down_mask s =
    let on = active && held_mask != 0 in
    record s {
      raw_button_override_active = on;
      raw_button_held = if on then held_mask else 0;
      raw_button_down = if on then bit_and down_mask held_mask else 0;
    }

unfoldable pub set_buffered_button_action : ℕ → InputState → InputState
set_buffered_button_action input_mask s = record s {
  scripted_buffered_mask = bit_or s.scripted_buffered_mask (bit_and input_mask ui_pad_mask);
  scripted_ui_offered_mask = 0;
}

unfoldable pub cancel_buffered_button_action : InputState → InputState
cancel_buffered_button_action s = record s {
  scripted_buffered_mask = 0;
  scripted_ui_offered_mask = 0;
}

unfoldable pub set_accepted_action_callback : Bool → InputState → InputState
set_accepted_action_callback present s = record s { accepted_action_callback = present }

unfoldable pub set_input_layer_update_callback : Bool → InputState → InputState
set_input_layer_update_callback present s = record s { input_layer_update_callback = present }

unfoldable pub set_auto_ui_action_accepted_callback : Bool → InputState → InputState
set_auto_ui_action_accepted_callback present s = record s {
  auto_ui_action_accepted_callback = present;
}

unfoldable pub buffered_button_action_pending : InputState → Bool
buffered_button_action_pending s = s.scripted_buffered_mask != 0

unfoldable pub buffered_button_action_pending_mask : InputState → ℕ
buffered_button_action_pending_mask s = s.scripted_buffered_mask

unfoldable pub set_input_layer_pad_capture : Bool → InputState → InputState
set_input_layer_pad_capture active s = record s {
  input_layer_pad_capture_active = active;
  active_ui_pad_data_valid = if active then s.active_ui_pad_data_valid else false;
}

-- autoUiActionPhase != AutoUiActionPhase::Idle
abbrev pub is_idle : AutoUiActionPhase → Bool
is_idle idle = true
is_idle pending = false
is_idle neutral = false

abbrev pub is_pending : AutoUiActionPhase → Bool
is_pending idle = false
is_pending pending = true
is_pending neutral = false

abbrev pub is_neutral : AutoUiActionPhase → Bool
is_neutral idle = false
is_neutral pending = false
is_neutral neutral = true

unfoldable pub request_auto_ui_action : (object input_mask : ℕ) → InputState → InputState
request_auto_ui_action object input_mask s =
    let mask = bit_and input_mask ui_pad_mask in
    if object == 0 || mask == 0
    then s
    else if not (is_idle s.auto_ui_action_phase)
        && s.auto_ui_action_object == object
        && s.auto_ui_action_mask == mask
    then s
    else record s {
      auto_ui_action_object = object;
      auto_ui_action_mask = mask;
      auto_ui_action_phase = pending;
    }

unfoldable pub cancel_auto_ui_action : ℕ → InputState → InputState
cancel_auto_ui_action object s =
    if object != 0 && s.auto_ui_action_object != object then s else record s {
      auto_ui_action_phase = idle;
      auto_ui_action_object = 0;
      auto_ui_action_mask = 0;
      auto_ui_action_offered = false;
    }

unfoldable pub set_accepted_action_capture : Bool → InputState → InputState
set_accepted_action_capture active s = record s {
  accepted_action_capture_active = active;
  accepted_action_capture_waiting_for_neutral = active;
  active_ui_pad_data_valid = false;
}

unfoldable pub accepted_action_capture_waiting_for_neutral : InputState → Bool
accepted_action_capture_waiting_for_neutral s =
    s.accepted_action_capture_active && s.accepted_action_capture_waiting_for_neutral

unfoldable pub set_playback_override : Bool → PlaybackMode → InputState → InputState
set_playback_override active mode s = record s {
  playback_override_active = active;
  playback_mode = if active then mode else standard_menu;
  playback_action = if active then s.playback_action else no_action;
  aux_core_native_acceptance_active = if active then s.aux_core_native_acceptance_active else false;
  playback_ui_action_offered = false;
  playback_ui_direct_action_offered = false;
}

unfoldable pub set_playback_action : AcceptedAction → InputState → InputState
set_playback_action action s =
    if s.playback_override_active then record s { playback_action = action } else s

unfoldable pub playback_action_pending : InputState → Bool
playback_action_pending s = s.playback_override_active && s.playback_action.input != 0

unfoldable pub set_frame_index : ℕ → InputState → InputState
set_frame_index frame s = record s { current_frame_index = frame }

unfoldable pub reset_aux_core_amount_input : InputState → InputState
reset_aux_core_amount_input s = record s { last_aux_core_amount_input_frame = no_frame }

unfoldable pub set_aux_core_amount_menu : (active : Bool) (object : ℕ) → InputState → InputState
unfolding reset_aux_core_amount_input
set_aux_core_amount_menu active object s =
    let s' = record s {
      aux_core_amount_menu_active = active;
      aux_core_amount_menu_object = if active then object else 0;
    } in
    if active then s' else reset_aux_core_amount_input s'

unfoldable pub accept_aux_core_amount_playback : Client → InputState → InputState × Bool
unfolding finish_playback_action
accept_aux_core_amount_playback client s =
    if not s.aux_core_amount_menu_active
      || not s.playback_override_active
      || not (is_ui_pad_action s.playback_action.input)
      || bit_and (bit_and s.playback_action.input ui_pad_mask) lr_button_mask == 0
    then (s, false)
    else (
      finish_playback_action client (record s { aux_core_native_acceptance_active = true }),
      true,
    )

-- AuxCoreAmountRepeatFrames
abbrev pub aux_core_amount_repeat_frames : ℕ
aux_core_amount_repeat_frames = 3

-- The frame difference is taken in std::uint64_t.
unfoldable pub accept_aux_core_amount_input : InputState → InputState × Bool
accept_aux_core_amount_input s =
    if not s.enabled && not s.playback_override_active
    then (s, true)
    else if s.last_aux_core_amount_input_frame != no_frame
        && ltb ((s.current_frame_index + 2 ^ 64 - s.last_aux_core_amount_input_frame) % 2 ^ 64)
            aux_core_amount_repeat_frames
    then (s, false)
    else (record s { last_aux_core_amount_input_frame = s.current_frame_index }, true)
