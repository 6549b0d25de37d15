-- ===== src/InputBuffer/Relay.antt =====
-- PadRelayCheckActionHook: whether a field or menu action of the game fires.
pub mod Once
use xenomods.Base.{
  ℕ, bit_and, bit_or, Bool, false, true, not, ◌&&◌, ◌||◌, ◌==◌, ◌!=◌, ltb, if◌then◌else◌,
}
use xenomods.Word.{bit, bit_not}
use xenomods.InputBuffer.State.{
  InputState, PlaybackMode, standard_menu, shop_menu_layered, travel_ui_buffered,
}
use xenomods.InputBuffer.Action.{
  is_encoded_action, is_ui_pad_action, ui_pad_mask, direction_button_mask, trigger_button_mask,
  action_matches, is_aux_core_amount_playback_action, is_aux_core_native_playback_action,
}
use xenomods.InputBuffer.Buttons.{get_pending_mask, consume}
use xenomods.InputBuffer.Api.{Client, finish_playback_action}

-- What the hook reads of an fw::ResAction: whether it and its descriptor are there, the
-- descriptor's two words, and the word at offset 8.
pub record ResAction : Type 0 where
  pub present : Bool
  pub has_descriptor : Bool
  pub input_type : ℕ
  pub button_index : ℕ
  pub resource : ℕ

-- PadRelay::checkAction of the game on this action; it may run the other hooks.
abbrev pub CheckAction : Type 0
CheckAction = InputState → InputState × Bool

abbrev pub is_standard : PlaybackMode → Bool
is_standard standard_menu = true
is_standard shop_menu_layered = false
is_standard travel_ui_buffered = false

unfoldable pub descriptor_valid : ResAction → Bool
descriptor_valid a = a.present && a.has_descriptor && ltb a.input_type 8

unfoldable pub resource_enabled : ResAction → Bool
resource_enabled a = a.present && a.resource != 0

-- Orig under a strict relay mask that offers one scripted button; an accepted action uses it up.
unfoldable pub relay_scripted : CheckAction → ResAction → InputState → InputState × Bool
relay_scripted check a s =
    let previous = s.strict_relay_mask in
    let (s1, accepted) =
      check (record s { strict_relay_mask = bit_or previous (bit a.button_index) }) in
    let s2 = record s1 { strict_relay_mask = previous } in
    (
      if accepted
          then record s2 {
            scripted_buffered_mask =
                bit_and s2.scripted_buffered_mask (bit_not (bit a.button_index));
          }
          else s2,
      accepted,
    )

-- playbackUiRelayType
unfoldable pub ui_relay_type : ResAction → InputState → Bool
unfolding descriptor_valid
ui_relay_type a s =
    let mask = bit_and s.playback_action.input ui_pad_mask in
    descriptor_valid a
    && is_standard s.playback_mode
    && not (is_aux_core_amount_playback_action s)
    && not (is_aux_core_native_playback_action s)
    && not (bit_and mask direction_button_mask != 0)
    && (a.input_type == 2
        || bit_and mask trigger_button_mask != 0 && (a.input_type == 0 || a.input_type == 4))

-- The test that completes a recorded UI pad action at the relay.
unfoldable pub completes_ui_pad : ResAction → InputState → Bool
unfolding ui_relay_type resource_enabled
completes_ui_pad a s =
    s.playback_override_active
    && is_standard s.playback_mode
    && is_ui_pad_action s.playback_action.input
    && descriptor_valid a
    && resource_enabled a
    && ui_relay_type a s
    && ltb a.button_index 32
    && bit_and (bit_and s.playback_action.input ui_pad_mask) (bit a.button_index) != 0

-- The test that keeps the game from seeing a relay action while a UI pad action waits.
unfoldable pub withholds_ui_pad : InputState → Bool
withholds_ui_pad s =
    s.playback_override_active
    && is_standard s.playback_mode
    && is_ui_pad_action s.playback_action.input
    && not (is_aux_core_amount_playback_action s)
    && not (is_aux_core_native_playback_action s)
    && bit_and (bit_and s.playback_action.input ui_pad_mask) direction_button_mask == 0

-- The test that an accepted action is the recorded button action.
unfoldable pub completes_button : ResAction → InputState → Bool
completes_button a s =
    s.playback_override_active
    && not (is_ui_pad_action s.playback_action.input)
    && not (is_encoded_action s.playback_action.input)
    && bit_and s.playback_action.input (bit a.button_index) != 0

-- if(Enabled && (GetPendingMask() & bit) != 0) Consume(bit);
unfoldable pub consume_pending : ℕ → InputState → InputState
unfolding consume get_pending_mask
consume_pending mask s =
    if s.enabled && bit_and (get_pending_mask s) mask != 0 then consume mask s else s

-- What follows an Orig that accepted an action of a valid descriptor.
unfoldable pub after_accept : Client → ResAction → InputState → InputState
unfolding completes_button consume_pending finish_playback_action
after_accept client a s =
    if ltb a.button_index 32
    then consume_pending (bit a.button_index)
        (if completes_button a s then finish_playback_action client s else s)
    else s

-- The end of the hook, from the call of Orig on.
unfoldable pub relay_orig : Client → CheckAction → ResAction → InputState → InputState × Bool
unfolding after_accept descriptor_valid
relay_orig client check a s =
    let (s1, accepted) = check s in
    if not accepted || not (descriptor_valid a)
    then (s1, accepted)
    else (after_accept client a s1, accepted)

-- The hook past the scripted action.
unfoldable pub relay_playback : Client → CheckAction → ResAction → InputState → InputState × Bool
unfolding completes_ui_pad withholds_ui_pad relay_orig
relay_playback client check a s =
    if completes_ui_pad a s
    then (finish_playback_action client s, true)
    else if withholds_ui_pad s
    then (s, false)
    else if s.playback_override_active && is_encoded_action s.playback_action.input
    then (if descriptor_valid a
          && resource_enabled a
          && action_matches s.playback_action.input a.input_type a.button_index
        then (finish_playback_action client s, true)
        else (s, false))
    else relay_orig client check a s

-- PadRelayCheckActionHook
unfoldable pub check_action_hook : Client → CheckAction → ResAction → InputState → InputState × Bool
unfolding relay_scripted relay_playback
check_action_hook client check a s =
    if s.scripted_buffered_mask != 0
      && s.updating_input_layer == 0
      && descriptor_valid a
      && resource_enabled a
      && ltb a.button_index 32
      && bit_and s.scripted_buffered_mask (bit a.button_index) != 0
    then relay_scripted check a s
    else relay_playback client check a s
