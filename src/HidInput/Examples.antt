-- ===== src/HidInput/Examples.antt =====
-- A pad on which the button of bit 0 is pressed, released and pressed again.
use xenomods.Base.{ℕ, ◌+◌, true, false, List, [], ◌∷◌, ◌≡◌}
use xenomods.HidInput.{
  HidInput, Report, no_npad_state, PadState, input_down, input_up, input_held, input_down_strict,
  input_up_strict, input_held_strict,
}
use xenomods.HidInput.Edges.{one_if, polls, count_polls, downs-ups}

abbrev with_buttons : ℕ → Report
with_buttons n = record {
  style_set = 1;
  full_key = record no_npad_state { button_set = n; attributes = 1 };
  handheld = no_npad_state;
  joy_dual = no_npad_state;
  in_handheld_mode = false;
  handheld_pad = no_npad_state;
}

abbrev resting_state : PadState
resting_state = record {
  buttons = 0;
  l_axis = record { x = 0; y = 0 };
  r_axis = record { x = 0; y = 0 };
}

abbrev resting_pad : HidInput
resting_pad = record {
  state_cur = resting_state;
  state_prev = resting_state;
  pad_connected = false;
}

abbrev presses : List Report
presses = with_buttons 1 ∷ with_buttons 1 ∷ with_buttons 0 ∷ with_buttons 1 ∷ []

downs-ups_example :
    (count_polls (λ n. n) true (input_down 1) presses resting_pad
        + one_if (input_held 1 resting_pad)
      ≡ count_polls (λ n. n) true (input_up 1) presses resting_pad
        + one_if (input_held 1 (polls (λ n. n) true presses resting_pad)))
    × (count_polls (λ n. n) true (input_down_strict 1) presses resting_pad
          + one_if (input_held_strict 1 resting_pad)
        ≡ count_polls (λ n. n) true (input_up_strict 1) presses resting_pad
          + one_if (input_held_strict 1 (polls (λ n. n) true presses resting_pad)))
downs-ups_example = downs-ups (λ n. n) true 1 presses resting_pad
