-- ===== src/HidInput.antt =====
-- The pads that the tools read: include/xenomods/HidInput.hpp and src/xenomods/HidInput.cpp. A button
-- set is the number of its bits, a stick's position the bit patterns of its numbers, and a combo has
-- the width of a button set. What the SDK reports is the argument of Poll.
pub mod Edges
mod Examples
use xenomods.Base.{
  ℕ, Bool, true, false, not, ◌&&◌, ◌||◌, ◌==◌, ◌!=◌, bit_and, bit_or, if◌then◌else◌,
}
use xenomods.Word.{test_bit}

-- A glm::vec2, or an nn::hid::AnalogStickState.
pub record Vec2 : Type 0 where
  pub x : ℕ
  pub y : ℕ

-- HidInput::State
pub record PadState : Type 0 where
  pub buttons : ℕ
  pub l_axis : Vec2
  pub r_axis : Vec2

-- HidInput
pub record HidInput : Type 0 where
  pub state_cur : PadState
  pub state_prev : PadState
  pub pad_connected : Bool

-- The fields of nn::hid::NpadBaseState that are read.
pub record NpadState : Type 0 where
  pub button_set : ℕ
  pub analog_stick_l : Vec2
  pub analog_stick_r : Vec2
  pub attributes : ℕ

abbrev pub no_npad_state : NpadState
no_npad_state = record {
  button_set = 0;
  analog_stick_l = record { x = 0; y = 0 };
  analog_stick_r = record { x = 0; y = 0 };
  attributes = 0;
}

-- What the SDK reports for one poll: the style set, the state in each style, the operation mode and
-- the pad in handheld mode.
pub record Report : Type 0 where
  pub style_set : ℕ
  pub full_key : NpadState
  pub handheld : NpadState
  pub joy_dual : NpadState
  pub in_handheld_mode : Bool
  pub handheld_pad : NpadState

-- NpadAttribute::IsConnected
abbrev pub is_connected : NpadState → Bool
is_connected pad = test_bit 0 pad.attributes

-- The state of the pad in its style.
unfoldable pub styled_state : Report → NpadState
styled_state r =
    if test_bit 0 r.style_set
    then r.full_key
    else if test_bit 1 r.style_set
    then r.handheld
    else if test_bit 2 r.style_set
    then r.joy_dual
    else no_npad_state

-- The other stick when it is off its centre.
unfoldable pub merge_stick : Vec2 → Vec2 → Vec2
merge_stick own other = if other.x != 0 || other.y != 0 then other else own

-- The state with the handheld values.
unfoldable pub merge_handheld : NpadState → NpadState → NpadState
unfolding merge_stick
merge_handheld pad other = record {
  button_set = bit_or pad.button_set other.button_set;
  analog_stick_l = merge_stick pad.analog_stick_l other.analog_stick_l;
  analog_stick_r = merge_stick pad.analog_stick_r other.analog_stick_r;
  attributes = bit_or pad.attributes other.attributes;
}

-- bitMask and bitMaskStrict
abbrev pub bit_mask : (lhs mask : ℕ) → Bool
bit_mask lhs mask = bit_and lhs mask == mask

abbrev pub bit_mask_strict : (lhs mask : ℕ) → Bool
bit_mask_strict lhs mask = lhs == mask

-- HidInput::InputHeld, InputUp and InputDown
unfoldable pub input_held : ℕ → HidInput → Bool
input_held combo p = bit_mask p.state_cur.buttons combo

unfoldable pub input_up : ℕ → HidInput → Bool
input_up combo p = not (bit_mask p.state_cur.buttons combo) && bit_mask p.state_prev.buttons combo

unfoldable pub input_down : ℕ → HidInput → Bool
input_down combo p = bit_mask p.state_cur.buttons combo && not (bit_mask p.state_prev.buttons combo)

-- HidInput::InputHeldStrict, InputUpStrict and InputDownStrict
abbrev pub low_buttons : PadState → ℕ
low_buttons s = bit_and s.buttons 0xffff

unfoldable pub input_held_strict : ℕ → HidInput → Bool
input_held_strict combo p = bit_mask_strict (low_buttons p.state_cur) combo

unfoldable pub input_up_strict : ℕ → HidInput → Bool
input_up_strict combo p =
    not (bit_mask_strict (low_buttons p.state_cur) combo)
    && bit_mask_strict (low_buttons p.state_prev) combo

unfoldable pub input_down_strict : ℕ → HidInput → Bool
input_down_strict combo p =
    bit_mask_strict (low_buttons p.state_cur) combo
    && not (bit_mask_strict (low_buttons p.state_prev) combo)

-- HidInput::Poll; `to_axis` divides a stick's number by 32768 as a float.
module _ (to_axis : ℕ → ℕ) where
  unfoldable pub axis_of : Vec2 → Vec2
  axis_of stick = record { x = to_axis stick.x; y = to_axis stick.y }

  unfoldable pub poll : (is_first_player : Bool) → Report → HidInput → HidInput
  unfolding styled_state merge_handheld axis_of
  poll is_first_player r p =
      let own = styled_state r in
      let pad : NpadState =
        if is_first_player && r.in_handheld_mode && is_connected r.handheld_pad
        then merge_handheld own r.handheld_pad
        else own in
      if is_connected pad
      then record {
        state_prev = p.state_cur;
        state_cur = record {
          buttons = pad.button_set;
          l_axis = axis_of pad.analog_stick_l;
          r_axis = axis_of pad.analog_stick_r;
        };
        pad_connected = true;
      }
      else record p { state_prev = p.state_cur; pad_connected = false }
