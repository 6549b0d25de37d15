-- ===== src/InputBuffer/Action.antt =====
-- The two encodings of an accepted action's input word: a PadRelay action (flag bit 31, the input
-- type in bits 28 to 30 and an index) and a UI pad mask (flag bit 30 above 30 mask bits).
pub mod Encoding
use xenomods.Base.{ℕ, ◌*◌, ◌/◌, ◌%◌, ◌^◌, bit_and, bit_or, Bool, ◌&&◌, ◌==◌, ◌!=◌, if◌then◌else◌}
use xenomods.InputBuffer.State.{AcceptedAction, InputState}

abbrev pub encoded_action_flag : ℕ
encoded_action_flag = 0x80000000

abbrev pub ui_pad_action_flag : ℕ
ui_pad_action_flag = 0x40000000

abbrev pub encoded_action_index_mask : ℕ
encoded_action_index_mask = 0x0fffffff

abbrev pub ui_pad_mask : ℕ
ui_pad_mask = 0x3fffffff

-- Bits 12 to 15 and 24 to 27.
abbrev pub direction_button_mask : ℕ
direction_button_mask = 0x0f00f000

-- Bits 4 and 5.
abbrev pub lr_button_mask : ℕ
lr_button_mask = 0x30

-- Bits 8 and 9.
abbrev pub trigger_button_mask : ℕ
trigger_button_mask = 0x300

abbrev pub is_encoded_action : ℕ → Bool
is_encoded_action action = bit_and action encoded_action_flag != 0

abbrev pub is_ui_pad_action : ℕ → Bool
is_ui_pad_action action = bit_and action 0xc0000000 == ui_pad_action_flag

-- The low three bits of the type are shifted by 28, so no bit leaves the 32-bit word.
pub encode_action : ℕ → ℕ → ℕ
encode_action input_type index =
    bit_or (bit_or encoded_action_flag (bit_and input_type 7 * 2 ^ 28))
      (bit_and index encoded_action_index_mask)

pub action_matches : ℕ → ℕ → ℕ → Bool
action_matches encoded input_type index =
    bit_and (encoded / 2 ^ 28) 7 == input_type && bit_and encoded encoded_action_index_mask == index

unfoldable pub playback_button_mask : InputState → ℕ
playback_button_mask s =
    if is_encoded_action s.playback_action.input
    then 0
    else if is_ui_pad_action s.playback_action.input
    then 0
    else s.playback_action.input

unfoldable pub is_aux_core_amount_playback_action : InputState → Bool
is_aux_core_amount_playback_action s =
    s.aux_core_amount_menu_active
    && is_ui_pad_action s.playback_action.input
    && bit_and (bit_and s.playback_action.input ui_pad_mask) lr_button_mask != 0

unfoldable pub is_aux_core_native_playback_action : InputState → Bool
is_aux_core_native_playback_action s =
    s.aux_core_native_acceptance_active
    && is_ui_pad_action s.playback_action.input
    && bit_and (bit_and s.playback_action.input ui_pad_mask) lr_button_mask == 0
