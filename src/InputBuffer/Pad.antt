-- ===== src/InputBuffer/Pad.antt =====
-- UIUtilGetPadDataHook: the pad data that a UI input layer reads while it updates. The result is
-- the data behind the returned pointer, none for nullptr.
pub mod Offers
use xenomods.Base.{
  ℕ, bit_and, bit_or, false, true, not, ◌&&◌, ◌||◌, ◌==◌, ◌!=◌, if◌then◌else◌, Option, none, some,
}
use xenomods.Word.{bit_not}
use xenomods.InputBuffer.State.{InputState, PadData, no_pad_data}
use xenomods.InputBuffer.Action.{
  is_ui_pad_action, ui_pad_mask, direction_button_mask, is_aux_core_amount_playback_action,
}
use xenomods.InputBuffer.Layers.{
  input_layer_enabled_button_mask, input_layer_accepts_mask, input_layer_accepts_ui_pad_action,
  input_layer_object, playback_layer_matches,
}
use xenomods.InputBuffer.Api.{is_idle, is_neutral}

-- words[0], [1] and [3] |= mask
abbrev pub press : ℕ → PadData → PadData
press mask d = record d {
  word0 = bit_or d.word0 mask;
  word1 = bit_or d.word1 mask;
  word3 = bit_or d.word3 mask;
}

-- words[0], [1] and [3] &= ~mask
abbrev pub unpress : ℕ → PadData → PadData
unpress mask d = record d {
  word0 = bit_and d.word0 (bit_not mask);
  word1 = bit_and d.word1 (bit_not mask);
  word3 = bit_and d.word3 (bit_not mask);
}

-- words[0], [1] and [3] = mask
abbrev pub replace_words : ℕ → PadData → PadData
replace_words mask d = record d { word0 = mask; word1 = mask; word3 = mask }

-- The copy into activeUiPadData.
abbrev pub snapshot : PadData → InputState → InputState
snapshot d s = record s { active_ui_pad_data = d; active_ui_pad_data_valid = true }

-- The capture for the layer callbacks, of the data that Orig returned.
pub capture_for_callback : PadData → InputState → InputState
capture_for_callback d s =
    if s.input_layer_pad_capture_active
      && s.input_layer_update_callback
      && s.updating_input_layer != 0
    then snapshot d s
    else s

-- A recording starts with the first pad data that has no button.
pub await_neutral : PadData → InputState → InputState
await_neutral d s =
    if s.accepted_action_capture_active
      && s.accepted_action_capture_waiting_for_neutral
      && bit_and (bit_or (bit_or d.word0 d.word1) d.word3) ui_pad_mask == 0
    then record s { accepted_action_capture_waiting_for_neutral = false }
    else s

-- The capture for the recording.
pub capture_for_action : PadData → InputState → InputState
capture_for_action d s =
    if s.accepted_action_capture_active
      && not s.accepted_action_capture_waiting_for_neutral
      && s.updating_input_layer != 0
    then snapshot d s
    else s

-- The three captures at the start of the hook; nothing is captured of nullptr.
pub capture_pad : Option PadData → InputState → InputState
unfolding capture_for_callback await_neutral capture_for_action
capture_pad none s = s
capture_pad (some d) s = capture_for_action d (await_neutral d (capture_for_callback d s))

-- The injected data starts as a copy of the original, or empty.
abbrev pub copied : Option PadData → PadData
copied none = no_pad_data
copied (some d) = d

-- The part for a playback action: the layer sees that action alone, or an empty pad.
unfoldable pub offer_playback : PadData → InputState → InputState × Option PadData
offer_playback injected s =
    let input_mask = bit_and s.playback_action.input ui_pad_mask in
    let direct = input_layer_accepts_ui_pad_action s s.updating_input_layer in
    if is_ui_pad_action s.playback_action.input
      && playback_layer_matches s s.updating_input_layer
      && (bit_and input_mask direction_button_mask != 0
          || direct
          || is_aux_core_amount_playback_action s)
    then (
      record s { playback_ui_action_offered = true; playback_ui_direct_action_offered = direct },
      some (replace_words input_mask injected),
    )
    else (s, some (replace_words 0 injected))

-- The part for a scripted buffered action: the bits that the layer has enabled are pressed.
pub offer_scripted : Option PadData → InputState → InputState × Option PadData
offer_scripted original s =
    if s.updating_input_layer == 0 || s.scripted_buffered_mask == 0
    then (s, original)
    else let offered =
        bit_and s.scripted_buffered_mask
          (input_layer_enabled_button_mask s s.updating_input_layer) in
      let s1 = record s { scripted_ui_offered_mask = offered } in
      let injected = press offered (copied original) in
      if offered == 0 then (s1, original) else (snapshot injected s1, some injected)

-- What follows the automatic UI action.
pub offer_rest : Option PadData → InputState → InputState × Option PadData
unfolding offer_playback offer_scripted
offer_rest original s =
    if s.playback_override_active
    then offer_playback (copied original) s
    else offer_scripted original s

-- The part for an automatic UI action of the object that is updating.
pub offer_auto : Option PadData → InputState → InputState × Option PadData
unfolding offer_rest
offer_auto original s =
    if not (is_idle s.auto_ui_action_phase)
      && s.updating_input_layer != 0
      && input_layer_object s s.updating_input_layer == s.auto_ui_action_object
    then (if is_neutral s.auto_ui_action_phase
        then (let injected = unpress s.auto_ui_action_mask (copied original) in
            (snapshot injected s, some injected))
        else if input_layer_accepts_mask s s.updating_input_layer s.auto_ui_action_mask
        then (let injected = press s.auto_ui_action_mask (copied original) in
            (snapshot injected (record s { auto_ui_action_offered = true }), some injected))
        else offer_rest original s)
    else offer_rest original s

-- UIUtilGetPadDataHook, whose Orig returned `original`.
unfoldable pub get_pad_data_hook : Option PadData → InputState → InputState × Option PadData
unfolding capture_pad offer_auto
get_pad_data_hook original s =
    let s' = capture_pad original s in
    if not s'.playback_override_active
      && is_idle s'.auto_ui_action_phase
      && s'.scripted_buffered_mask == 0
    then (s', original)
    else offer_auto original s'
