-- ===== src/InputBuffer/Update.antt =====
-- UIInputLayerUpdateHook: one update of a UI input layer of the game.
pub mod Once
pub mod AutoUi
pub mod Replay
use xenomods.Base.{
  ℕ, bit_and, bit_or, Bool, false, true, not, ◌&&◌, ◌||◌, ◌==◌, ◌!=◌, if◌then◌else◌,
}
use xenomods.Word.{bit_not}
use xenomods.InputBuffer.State.{
  AcceptedAction, InputState, InputLayer, layer_update, accepted_action, auto_ui_accepted, physical,
  idle, neutral,
}
use xenomods.InputBuffer.Action.{
  is_ui_pad_action, ui_pad_mask, ui_pad_action_flag, is_aux_core_amount_playback_action,
}
use xenomods.InputBuffer.Layers.{input_layer_handle, input_layer_object, playback_layer_matches}
use xenomods.InputBuffer.Api.{Client, invoke, finish_playback_action, is_neutral, is_pending}

-- UIInputLayer::update of the game: it may run the other hooks and changes the game's memory.
abbrev pub Update : Type 0
Update = InputState → InputState × Bool

-- UiSecondaryActionEvent
abbrev pub ui_secondary_action_event : ℕ
ui_secondary_action_event = 8

-- The callback before Orig.
unfoldable pub notify_before : Client → (layer object handle : ℕ) → InputState → InputState
unfolding invoke
notify_before client layer object handle s =
    if s.input_layer_update_callback && layer != 0
    then invoke client
        (layer_update (record {
          object = object;
          input_layer = layer;
          layer_handle = handle;
          after_update = false;
          accepted = false;
          emitted_event = 0;
          secondary_event = 0;
          secondary_action = 0;
          held_buttons = 0;
          down_buttons = 0;
        }))
        s
    else s

-- The state in which Orig runs.
unfoldable pub begin_update : ℕ → InputState → InputState
begin_update layer s = record s {
  updating_input_layer = layer;
  active_ui_pad_data_valid = false;
  playback_ui_action_offered = false;
  playback_ui_direct_action_offered = false;
  auto_ui_action_offered = false;
  scripted_ui_offered_mask = 0;
}

-- The callback after Orig.
unfoldable pub notify_after :
    Client → (layer object handle : ℕ) → (accepted : Bool) → InputLayer → InputState → InputState
unfolding invoke
notify_after client layer object handle accepted view s =
    if s.input_layer_update_callback && layer != 0
    then invoke client
        (layer_update (record {
          object = object;
          input_layer = layer;
          layer_handle = handle;
          after_update = true;
          accepted = accepted;
          emitted_event = view.emitted_event;
          secondary_event = view.secondary_event;
          secondary_action = view.secondary_action;
          held_buttons = if s.active_ui_pad_data_valid then s.active_ui_pad_data.word1 else 0;
          down_buttons = if s.active_ui_pad_data_valid then s.active_ui_pad_data.word3 else 0;
        }))
        s
    else s

-- The automatic UI action's release frame is over.
unfoldable pub settle_auto : (object : ℕ) → InputState → InputState
settle_auto object s =
    if is_neutral s.auto_ui_action_phase && object == s.auto_ui_action_object
    then record s {
      auto_ui_action_phase = idle;
      auto_ui_action_object = 0;
      auto_ui_action_mask = 0;
    }
    else s

-- The automatic UI action is accepted once the layer emits its native secondary action.
unfoldable pub accept_auto :
    Client → (object handle : ℕ) → (accepted : Bool) → InputLayer → InputState → InputState
unfolding invoke
accept_auto client object handle accepted view s =
    if is_pending s.auto_ui_action_phase
      && s.auto_ui_action_offered
      && accepted
      && object == s.auto_ui_action_object
      && view.secondary_event == ui_secondary_action_event
      && view.secondary_action == 1
    then (let s' = record s { auto_ui_action_phase = neutral } in
        if s'.auto_ui_action_accepted_callback
        then invoke client (auto_ui_accepted object handle) s'
        else s')
    else s

-- The scripted bits that an accepting layer was offered are used up.
unfoldable pub accept_scripted : Bool → InputState → InputState
accept_scripted accepted s =
    if accepted && s.scripted_ui_offered_mask != 0
    then record s {
      scripted_buffered_mask =
          bit_and s.scripted_buffered_mask (bit_not s.scripted_ui_offered_mask);
    }
    else s

-- The action that a layer accepted: the pressed UI pad bits and the layer's handle.
unfoldable pub captured_action : InputState → (layer : ℕ) → AcceptedAction
captured_action s layer =
    let mask = bit_and (bit_or s.active_ui_pad_data.word1 s.active_ui_pad_data.word3) ui_pad_mask in
    record {
      input = bit_or ui_pad_action_flag mask;
      layer = input_layer_handle s layer;
      display = mask;
    }

-- What the layer accepted is reported to the recorder.
unfoldable pub record_physical : Client → (layer : ℕ) → (accepted : Bool) → InputState → InputState
unfolding invoke captured_action
record_physical client layer accepted s =
    let action = captured_action s layer in
    if (accepted && s.accepted_action_capture_active && s.accepted_action_callback
        && s.active_ui_pad_data_valid)
      && (action.display != 0 && action.layer != 0)
    then invoke client (accepted_action action physical) s
    else s

-- The recorded action that the layer was offered and accepted is complete.
unfoldable pub accept_playback :
    Client
    → (layer : ℕ) → (accepted offered direct : Bool) → (emitted_event : ℕ) → InputState
    → InputState
unfolding finish_playback_action
accept_playback client layer accepted offered direct emitted_event s =
    if accepted
      && s.playback_override_active
      && not (is_aux_core_amount_playback_action s)
      && is_ui_pad_action s.playback_action.input
      && playback_layer_matches s layer
      && offered
      && (direct || emitted_event == 6)
    then finish_playback_action client s
    else s

-- The hook from Orig's return on; `previous` is the layer that was updating before.
unfoldable pub finish_update :
    Client → (layer object handle previous : ℕ) → (accepted : Bool) → InputState → InputState
finish_update client layer object handle previous accepted s =
    let view = s.layer_at layer in
    let offered = s.playback_ui_action_offered in
    let direct = s.playback_ui_direct_action_offered in
    let s1 = notify_after client layer object handle accepted view s in
    let s2 = record s1 { updating_input_layer = previous } in
    let s3 = settle_auto object s2 in
    let s4 = accept_auto client object handle accepted view s3 in
    let s5 = accept_scripted accepted s4 in
    let s6 = record_physical client layer accepted s5 in
    accept_playback client layer accepted offered direct view.emitted_event s6

-- UIInputLayerUpdateHook
unfoldable pub update_hook : Client → Update → (layer : ℕ) → InputState → InputState × Bool
update_hook client update layer s =
    let object = input_layer_object s layer in
    let handle = input_layer_handle s layer in
    let s1 = notify_before client layer object handle s in
    let previous = s1.updating_input_layer in
    let (s2, accepted) = update (begin_update layer s1) in
    (finish_update client layer object handle previous accepted s2, accepted)
