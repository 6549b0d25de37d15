-- ===== src/InputBuffer/Buttons.antt =====
-- The buffered button presses and the hooks on ml::DevPad::getBtn, getDown and getUp.
pub mod Loops
pub mod Pending
pub mod Hooks
use xenomods.Base.{
  ℕ, suc, ◌+◌, ◌-◌, ◌^◌, bit_and, bit_or, Bool, false, not, ◌&&◌, ◌||◌, ◌==◌, ◌!=◌, List, [], ◌∷◌,
  replicate, if◌then◌else◌,
}
use xenomods.Word.{bit, bit_not}
use xenomods.InputBuffer.State.{InputState, no_stick}
use xenomods.InputBuffer.Action.{playback_button_mask}

-- The loop of GetPendingMask from an index on, over the frames that are left.
pub pending_from : ℕ → List ℕ → ℕ → ℕ
pending_from index [] result = result
pending_from index (f ∷ fs) result =
    pending_from (suc index) fs (if f != 0 then bit_or result (bit index) else result)

unfoldable pub get_pending_mask : InputState → ℕ
get_pending_mask s = pending_from 0 s.button_frames 0

-- The loop of Consume from an index on.
pub consume_from : ℕ → ℕ → List ℕ → List ℕ
consume_from mask index [] = []
consume_from mask index (f ∷ fs) =
    (if bit_and mask (bit index) != 0 then 0 else f) ∷ consume_from mask (suc index) fs

unfoldable pub consume : ℕ → InputState → InputState
consume mask s = record s { button_frames = consume_from mask 0 s.button_frames }

unfoldable pub clear : InputState → InputState
clear s = record s {
  button_frames = replicate 32 0;
  physical_needs_release_mask = 0;
  strict_relay_mask = 0;
  left_stick = no_stick;
  right_stick = no_stick;
}

-- The frames and the release mask after the loop of GetDownHook.
pub record Scan : Type 0 where
  pub frames : List ℕ
  pub needs_release : ℕ

-- One round of that loop: the new frame count of a button.
pub scan_frame : (original held needs_release index frames : ℕ) → ℕ
scan_frame original held needs_release index frames =
    if bit_and held (bit index) == 0
    then 0
    else if bit_and original (bit index) != 0 && bit_and needs_release (bit index) == 0
    then 1
    else frames

-- One round of that loop: the new release mask.
pub scan_release : (held needs_release index : ℕ) → ℕ
scan_release held needs_release index =
    if bit_and held (bit index) == 0
    then bit_and needs_release (bit_not (bit index))
    else needs_release

-- The loop of GetDownHook from an index on.
pub scan_from : (original held needs_release index : ℕ) → List ℕ → Scan
scan_from original held needs_release index [] = record {
  frames = [];
  needs_release = needs_release;
}
scan_from original held needs_release index (f ∷ fs) =
    let rest = scan_from original held (scan_release held needs_release index) (suc index) fs in
    record {
      frames = scan_frame original held needs_release index f ∷ rest.frames;
      needs_release = rest.needs_release;
    }

-- GetBtnHook, whose Orig returned `original`.
unfoldable pub get_btn_hook : (original pad : ℕ) → InputState → InputState × ℕ
get_btn_hook original pad s =
    let s' = if pad == 0 then record s { physical_held = original } else s in
    (
      s',
      if pad == 0 && s.playback_override_active
          then bit_or (bit_or (playback_button_mask s) s.strict_relay_mask) s.scripted_buffered_mask
          else if pad == 0 && s.raw_button_override_active
          then bit_or (bit_or original s.raw_button_held) s.scripted_buffered_mask
          else if pad == 0
          then bit_or original s.scripted_buffered_mask
          else original,
    )

-- GetDownHook once the two overrides and a disabled buffer are out of the way.
pub get_down_buffered : ℕ → InputState → InputState × ℕ
get_down_buffered original s =
    let scan = scan_from original s.physical_held s.physical_needs_release_mask 0 s.button_frames in
    let s' = record s {
      button_frames = scan.frames;
      physical_needs_release_mask = scan.needs_release;
    } in
    (s', bit_or (bit_or original (get_pending_mask s')) s.scripted_buffered_mask)

-- GetDownHook, whose Orig returned `original`.
unfoldable pub get_down_hook : (original pad : ℕ) → InputState → InputState × ℕ
unfolding get_down_buffered
get_down_hook original pad s =
    if pad == 0 && s.playback_override_active
    then (s, bit_or (bit_or (playback_button_mask s) s.strict_relay_mask) s.scripted_buffered_mask)
    else if pad == 0 && s.raw_button_override_active
    then (s, bit_or (bit_or original s.raw_button_down) s.scripted_buffered_mask)
    else if not s.enabled || pad != 0
    then (
      if pad == 0 then clear s else s,
      if pad == 0 then bit_or original s.scripted_buffered_mask else original,
    )
    else get_down_buffered original s

-- GetUpHook, whose Orig returned `original`. It changes no state.
unfoldable pub get_up_hook : (original pad : ℕ) → InputState → ℕ
get_up_hook original pad s =
    if pad == 0 && (s.playback_override_active || s.strict_relay_mask != 0)
    then 0
    else if pad != 0
    then original
    else bit_and original (
        bit_not (
          bit_or s.scripted_buffered_mask
            (if s.raw_button_override_active then s.raw_button_held else 0)))
