-- ===== src/InputBuffer/Examples.antt =====
-- Concrete runs of the input buffer: the theorems at inputs that meet their hypotheses, and tests.
use xenomods.Base.{◌⊎◌, ℕ, bit_and, true, List, [], ◌∷◌, ◌≡◌, ◌≢◌, refl, arith, none, ◌!=◌}
use xenomods.InputBuffer.State.{
  InputState, InputLayer, LayerRegistration, AcceptedAction, no_registration, init,
}
use xenomods.InputBuffer.Action.{ui_pad_mask}
use xenomods.InputBuffer.Buttons.Pending.{
  ButtonEvent, reads_held, reads_down, consumes, run, latches, button, IsBuffering, run-latches,
}
use xenomods.InputBuffer.Sticks.Flick.{Position}
use xenomods.InputBuffer.Layers.{
  has_match, playback_layer_matches, input_layer_handle, input_layer_entry_count, accepts_from,
  fw_pad, handle_in, register_in, release_in, input_layer_accepts_mask,
  input_layer_enabled_button_mask,
}
use xenomods.InputBuffer.Layers.Registry.{has_free, handle_in-registry}
use xenomods.InputBuffer.Layers.Accepts.{accepts_mask-enabled}
use xenomods.InputBuffer.Api.{Client}
use xenomods.InputBuffer.Api.Completion.{IsQuiet}
use xenomods.InputBuffer.Pad.{get_pad_data_hook}
use xenomods.InputBuffer.Pad.Offers.{Shows, get_pad_data_hook-playback}
use xenomods.InputBuffer.Relay.{ResAction, CheckAction, check_action_hook}
use xenomods.InputBuffer.Relay.Once.{IsNative, AtMostOnce, check_action_hook-once}
use xenomods.InputBuffer.Update.{Update, update_hook, captured_action}
use xenomods.InputBuffer.Update.Once.{get_pad_data_hook-Keeps, OneMore, update_hook-OneMore}
use xenomods.InputBuffer.Update.AutoUi.{KeepsConsistent, IsConsistent, update_hook-IsConsistent}
use xenomods.InputBuffer.Update.Replay.{captured_action-replay}

-- A game whose every layer has one enabled entry for UI pad 1, the button of bit 2.
abbrev memory : ℕ → InputLayer
memory _ = record {
  emitted_event = 0;
  secondary_event = 8;
  secondary_action = 1;
  object = 500;
  entry = λ _. record { ui_pad = 1; enabled = 1 };
  count = 1;
}

abbrev start : InputState
start = init memory

-- The buffer is switched on.
abbrev buffering : InputState
buffering = record start { enabled = true }

buffering-IsBuffering : IsBuffering buffering
buffering-IsBuffering = record {
  is_enabled = refl;
  no_playback = refl;
  no_raw = refl;
  frames_fit = refl;
  no_release = refl;
}

-- Button 2 is pressed, held for a frame without a new press, and consumed.
abbrev press_and_consume : List ButtonEvent
press_and_consume = reads_held 4 ∷ reads_down 4 ∷ reads_held 4 ∷ reads_down 0 ∷ consumes 4 ∷ []

run-latches_example :
    button 2 (run press_and_consume buffering) ≡ latches 2 press_and_consume (button 2 buffering)
run-latches_example = run-latches press_and_consume 2 buffering buffering-IsBuffering (omega arith)

-- A recorded press of button 2 for the layer with handle 9 is to be played back.
abbrev recorded : AcceptedAction
recorded = record { input = 0x40000004; layer = 9; display = 4 }

abbrev playing : InputState
playing = record start {
  playback_override_active = true;
  playback_action = recorded;
  accepted_action_callback = true;
  updating_input_layer = 77;
  layer_registrations = record { layer = 77; handle = 9 } ∷ [];
}

-- A flick to the right at full deflection, then two centred frames.
abbrev right : Position
right = record { px = 0x3f800000; py = 0 }

abbrev centre : Position
centre = record { px = 0; py = 0 }

-- A table of two slots, the first of them taken.
abbrev two_slots : List LayerRegistration
two_slots = record { layer = 77; handle = 9 } ∷ no_registration ∷ []

handle_in-registry_example :
    (handle_in 78 (register_in 78 10 two_slots) ≡ 10)
    × (handle_in 77 (register_in 78 10 two_slots) ≡ handle_in 77 two_slots)
    × (handle_in 78 (release_in 10 (register_in 78 10 two_slots)) ≢ 10)
unfolding has_match has_free handle_in
handle_in-registry_example =
    handle_in-registry 78 77 10 two_slots (omega arith) (omega arith) refl (omega arith)
      (omega arith) (omega arith)

accepts_mask-enabled_example :
    input_layer_accepts_mask playing 77 6
    ≡ (bit_and 6 (input_layer_enabled_button_mask playing 77) != 0)
accepts_mask-enabled_example = accepts_mask-enabled playing 77 6

abbrev at_frame_ten : InputState
at_frame_ten = record buffering { current_frame_index = 10 }

get_pad_data_hook-playback_example :
    Shows none 0 (get_pad_data_hook none playing).1
    ⊎ (Shows none (bit_and 0x40000004 ui_pad_mask) (get_pad_data_hook none playing).1
        × (playback_layer_matches playing 77 ≡ true))
get_pad_data_hook-playback_example = get_pad_data_hook-playback none playing refl refl

-- Callbacks that queue the same action again.
abbrev requeue : Client
requeue call s = record s { playback_action = recorded }

requeue-IsQuiet : IsQuiet requeue
requeue-IsQuiet call s = refl

-- A game check that accepts every action.
abbrev accepting : CheckAction
accepting s = (s, true)

accepting-IsNative : IsNative accepting
accepting-IsNative = record {
  same_calls = λ s. refl;
  same_action = λ s. refl;
  same_callback = λ s. refl;
  same_override = λ s. refl;
}

abbrev menu_a : ResAction
menu_a = record {
  present = true;
  has_descriptor = true;
  input_type = 2;
  button_index = 2;
  resource = 1;
}

check_action_hook-once_example :
    AtMostOnce playing (check_action_hook requeue accepting menu_a playing)
check_action_hook-once_example =
    check_action_hook-once requeue requeue-IsQuiet accepting accepting-IsNative menu_a playing refl

-- A layer update that reads the pad once and accepts.
abbrev reading : Update
reading s = ((get_pad_data_hook none s).0, true)

update_hook-OneMore_example :
    OneMore
      (update_hook requeue reading 77 playing).1
      playing
      (update_hook requeue reading 77 playing).0
update_hook-OneMore_example =
    update_hook-OneMore requeue requeue-IsQuiet reading 77 playing
      (λ t. get_pad_data_hook-Keeps none t)

requeue-KeepsConsistent : KeepsConsistent requeue
requeue-KeepsConsistent call s v = record { at_rest = v.at_rest; under_way = v.under_way }

update_hook-IsConsistent_example : IsConsistent (update_hook requeue accepting 77 playing).0
update_hook-IsConsistent_example =
    update_hook-IsConsistent requeue requeue-KeepsConsistent accepting 77 playing (λ t v. v)
      (record { at_rest = λ _. (refl, refl); under_way = λ e. cc })

-- Layer 77 accepted button 2 while a recording was made.
abbrev capturing : InputState
capturing = record playing {
  active_ui_pad_data = record { word0 = 4; word1 = 4; word3 = 4; others = [] };
  active_ui_pad_data_valid = true;
}

-- The same action is played back to that layer.
abbrev replaying : InputState
replaying = record playing { playback_action = captured_action capturing 77 }

captured_action-replay_example :
    Shows none (captured_action capturing 77).display (get_pad_data_hook none replaying).1
unfolding captured_action input_layer_handle handle_in input_layer_accepts_mask
    input_layer_entry_count accepts_from fw_pad
captured_action-replay_example =
    captured_action-replay capturing 77 replaying none (omega arith) refl refl refl (omega arith)
      refl refl
