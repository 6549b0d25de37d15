-- ===== src/InputBuffer/Sticks.antt =====
-- The stick values: buffered flicks, the route and action overrides, and the hooks on
-- ml::DevPad::getALX, getALY, getARX and getARY.
pub mod Flick
pub mod Override
use xenomods.Base.{ℕ, ◌-◌, max, Bool, true, false, not, ◌&&◌, ◌||◌, ◌==◌, ltb, if◌then◌else◌}
use xenomods.Float32.{lt, le, abs, clamp_unit}
use xenomods.InputBuffer.State.{StickState, InputState}

-- 0.05f
abbrev pub stick_threshold : ℕ
stick_threshold = 0x3d4ccccd

-- std::abs(value) > StickThreshold
abbrev pub is_deflected : ℕ → Bool
is_deflected value = lt stick_threshold (abs value)

-- BufferStickY past its early return.
pub buffer_stick_y_on : ℕ → StickState → ℕ → StickState × ℕ
buffer_stick_y_on stick_buffer_frames state value =
    let updated = record state { pending_y = value } in
    if is_deflected updated.pending_x || is_deflected updated.pending_y
    then (
      record updated {
        x = updated.pending_x;
        y = updated.pending_y;
        frames = max 1 stick_buffer_frames;
      },
      value,
    )
    else if ltb 0 updated.frames
    then (
      if updated.frames - 1 == 0
          then record updated { x = 0; y = 0; frames = 0 }
          else record updated { frames = updated.frames - 1 },
      updated.y,
    )
    else (updated, value)

-- BufferStickY
unfoldable pub buffer_stick_y : InputState → StickState → ℕ → Bool → StickState × ℕ
unfolding buffer_stick_y_on
buffer_stick_y s state value enabled =
    if not s.enabled || not enabled
    then (state, value)
    else buffer_stick_y_on s.stick_buffer_frames state value

-- BufferStickX past its early return.
pub buffer_stick_x_on : StickState → ℕ → StickState × ℕ
buffer_stick_x_on state value =
    let updated = record state { pending_x = value } in
    (updated, if le (abs value) stick_threshold && ltb 0 updated.frames then updated.x else value)

-- BufferStickX
unfoldable pub buffer_stick_x : InputState → StickState → ℕ → Bool → StickState × ℕ
unfolding buffer_stick_x_on
buffer_stick_x s state value enabled =
    if not s.enabled || not enabled then (state, value) else buffer_stick_x_on state value

-- The end of GetALXHook, for pad 0 without an override.
buffer_left_x : ℕ → InputState → InputState × ℕ
unfolding buffer_stick_x
buffer_left_x original s =
    let (stick, value) = buffer_stick_x s s.left_stick original s.buffer_left_stick in
    (record s { left_stick = stick }, value)

buffer_left_y : ℕ → InputState → InputState × ℕ
unfolding buffer_stick_y
buffer_left_y original s =
    let (stick, value) = buffer_stick_y s s.left_stick original s.buffer_left_stick in
    (record s { left_stick = stick }, value)

buffer_right_x : ℕ → InputState → InputState × ℕ
unfolding buffer_stick_x
buffer_right_x original s =
    let (stick, value) = buffer_stick_x s s.right_stick original s.buffer_right_stick in
    (record s { right_stick = stick }, value)

buffer_right_y : ℕ → InputState → InputState × ℕ
unfolding buffer_stick_y
buffer_right_y original s =
    let (stick, value) = buffer_stick_y s s.right_stick original s.buffer_right_stick in
    (record s { right_stick = stick }, value)

-- GetALXHook, whose Orig returned `original`.
pub get_alx_hook : (original pad : ℕ) → InputState → InputState × ℕ
unfolding buffer_left_x
get_alx_hook original pad s =
    if pad == 0 && s.playback_override_active
    then (s, 0)
    else if pad == 0 && s.action_left_stick_override_active
    then (s, s.action_left_stick_override_x)
    else if pad == 0 && s.left_stick_override_active
    then (s, s.left_stick_override_x)
    else if pad == 0
    then buffer_left_x original s
    else (s, original)

-- GetALYHook
pub get_aly_hook : (original pad : ℕ) → InputState → InputState × ℕ
unfolding buffer_left_y
get_aly_hook original pad s =
    if pad == 0 && s.playback_override_active
    then (s, 0)
    else if pad == 0 && s.action_left_stick_override_active
    then (s, s.action_left_stick_override_y)
    else if pad == 0 && s.left_stick_override_active
    then (s, s.left_stick_override_y)
    else if pad == 0
    then buffer_left_y original s
    else (s, original)

-- GetARXHook
pub get_arx_hook : (original pad : ℕ) → InputState → InputState × ℕ
unfolding buffer_right_x
get_arx_hook original pad s =
    if pad == 0 && s.playback_override_active
    then (s, 0)
    else if pad == 0 && s.action_right_stick_override_active
    then (s, s.action_right_stick_override_x)
    else if pad == 0
    then buffer_right_x original s
    else (s, original)

-- GetARYHook
pub get_ary_hook : (original pad : ℕ) → InputState → InputState × ℕ
unfolding buffer_right_y
get_ary_hook original pad s =
    if pad == 0 && s.playback_override_active
    then (s, 0)
    else if pad == 0 && s.action_right_stick_override_active
    then (s, s.action_right_stick_override_y)
    else if pad == 0
    then buffer_right_y original s
    else (s, original)

unfoldable pub set_left_stick_override : (active : Bool) (x y : ℕ) → InputState → InputState
set_left_stick_override active x y s = record s {
  left_stick_override_active = active;
  left_stick_override_x = if active then clamp_unit x else 0;
  left_stick_override_y = if active then clamp_unit y else 0;
}

unfoldable pub set_action_stick_override :
    (active right_stick : Bool) (x y : ℕ) → InputState → InputState
set_action_stick_override false right_stick x y s = record s {
  action_left_stick_override_active = false;
  action_right_stick_override_active = false;
  action_left_stick_override_x = 0;
  action_left_stick_override_y = 0;
  action_right_stick_override_x = 0;
  action_right_stick_override_y = 0;
}
set_action_stick_override true true x y s = record s {
  action_right_stick_override_active = true;
  action_right_stick_override_x = clamp_unit x;
  action_right_stick_override_y = clamp_unit y;
}
set_action_stick_override true false x y s = record s {
  action_left_stick_override_active = true;
  action_left_stick_override_x = clamp_unit x;
  action_left_stick_override_y = clamp_unit y;
}
