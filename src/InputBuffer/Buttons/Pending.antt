-- ===== src/InputBuffer/Buttons/Pending.antt =====
-- The buffer seen one button at a time: a latch that a press sets while the button is held, and
-- that its release or its consumption clears.
use native.Mathlib.Nat.{zero-add}
use xenomods.Base.{
  ℕ, ◌<◌, Bool, true, false, not, ◌&&◌, ◌||◌, ◌!=◌, List, [], ◌∷◌, ◌≡◌, refl, ◌∙◌, ap, arith,
  length,
}
use xenomods.Word.{test_bit}
use xenomods.Word.Bits.{test_bit-bit_or, test_bit-zero}
use xenomods.InputBuffer.State.{InputState}
use xenomods.InputBuffer.Buttons.{
  get_pending_mask, consume, get_btn_hook, get_down_hook, get_down_buffered,
}
use xenomods.InputBuffer.Buttons.Loops.{
  frame_at, pending_from-test_bit, consume_from-frame, consume_from-length, scan_from-frame,
  scan_frame-bits, scan_from-length, scan_from-release_zero,
}

-- A button is pending when its frame counter is set.
pending-bit :
    (i : ℕ) (s : InputState) → test_bit i (get_pending_mask s) ≡ (frame_at s.button_frames i != 0)
unfolding get_pending_mask
pending-bit i s =
    (rw zero-add at (pending_from-test_bit 0 i s.button_frames 0))
    ∙ ap (λ b. b || frame_at s.button_frames i != 0) (test_bit-zero i)

-- What the game and the tools do to the buffer while it is the one in charge of the pad.
pub data ButtonEvent : Type 0 where
  reads_held : (original : ℕ) → ButtonEvent
  reads_down : (original : ℕ) → ButtonEvent
  consumes : (mask : ℕ) → ButtonEvent

pub step : ButtonEvent → InputState → InputState
step (reads_held original) s = (get_btn_hook original 0 s).0
step (reads_down original) s = (get_down_hook original 0 s).0
step (consumes mask) s = consume mask s

pub run : List ButtonEvent → InputState → InputState
run [] s = s
run (e ∷ es) s = run es (step e s)

-- The specification: one button, with the controller's view and the latch.
pub record Button : Type 0 where
  pub held : Bool
  pub buffered : Bool

pub latch : ℕ → ButtonEvent → Button → Button
latch i (reads_held original) b = record b { held = test_bit i original }
latch i (reads_down original) b = record b {
  buffered = b.held && (test_bit i original || b.buffered);
}
latch i (consumes mask) b = record b { buffered = b.buffered && not (test_bit i mask) }

pub latches : ℕ → List ButtonEvent → Button → Button
latches i [] b = b
latches i (e ∷ es) b = latches i es (latch i e b)

-- One button of the state.
pub button : ℕ → InputState → Button
button i s = record {
  held = test_bit i s.physical_held;
  buffered = test_bit i (get_pending_mask s);
}

-- The buffer is in charge: enabled, with no playback and no raw override.
pub record IsBuffering (s : InputState) : Type 0 where
  pub is_enabled : s.enabled ≡ true
  pub no_playback : s.playback_override_active ≡ false
  pub no_raw : s.raw_button_override_active ≡ false
  pub frames_fit : length s.button_frames ≡ 32
  pub no_release : s.physical_needs_release_mask ≡ 0

get_down-buffered :
    (original : ℕ) (s : InputState)
    → IsBuffering s
    → get_down_hook original 0 s ≡ get_down_buffered original s
unfolding get_down_hook
get_down-buffered original s v = rw (v.no_playback, v.no_raw, v.is_enabled)

step-IsBuffering : (e : ButtonEvent) (s : InputState) → IsBuffering s → IsBuffering (step e s)
unfolding step get_down_hook
step-IsBuffering (reads_held original) s v =
    unfold get_btn_hook in
    record {
      is_enabled = v.is_enabled;
      no_playback = v.no_playback;
      no_raw = v.no_raw;
      frames_fit = v.frames_fit;
      no_release = v.no_release;
    }
step-IsBuffering (reads_down original) s v = rw (get_down-buffered original s v) (
    unfold get_down_buffered in
    record {
      is_enabled = v.is_enabled;
      no_playback = v.no_playback;
      no_raw = v.no_raw;
      frames_fit = scan_from-length original _ _ 0 s.button_frames ∙ v.frames_fit;
      no_release = rw v.no_release (scan_from-release_zero original _ 0 s.button_frames);
    })
step-IsBuffering (consumes mask) s v =
    unfold consume in
    record {
      is_enabled = v.is_enabled;
      no_playback = v.no_playback;
      no_raw = v.no_raw;
      frames_fit = consume_from-length mask 0 s.button_frames ∙ v.frames_fit;
      no_release = v.no_release;
    }

pub frame-reads_down :
    (original i : ℕ) (s : InputState)
    → IsBuffering s
    → i < 32
    → (frame_at (get_down_buffered original s).0.button_frames i != 0)
      ≡ (test_bit i s.physical_held && (test_bit i original || frame_at s.button_frames i != 0))
unfolding get_down_buffered
frame-reads_down original i s v h =
    rw
      (
        scan_from-frame original s.physical_held s.physical_needs_release_mask 0 i s.button_frames
            (omega (arith, v.frames_fit)) (omega (arith, v.frames_fit)),
        zero-add i,
        scan_frame-bits original s.physical_held s.physical_needs_release_mask i
            (frame_at s.button_frames i),
        v.no_release,
        test_bit-zero i,
      )
      (ground arith)

step-latch :
    (e : ButtonEvent) (i : ℕ) (s : InputState)
    → IsBuffering s
    → i < 32
    → button i (step e s) ≡ latch i e (button i s)
unfolding step latch button get_down_hook get_pending_mask
step-latch (reads_held original) i s v h = unfold get_btn_hook get_pending_mask in refl
step-latch (reads_down original) i s v h =
    rw
      (
        get_down-buffered original s v,
        pending-bit i (get_down_buffered original s).0,
        frame-reads_down original i s v h,
        pending-bit i s,
      )
      (unfold get_down_buffered in refl)
step-latch (consumes mask) i s v h =
    rw (pending-bit i (consume mask s), pending-bit i s)
      (unfold consume in rw (consume_from-frame mask 0 i s.button_frames) (ground arith))

-- When the buffer is enabled and has its 32 counters, no playback and no raw override is active and
-- no button awaits its release, then over any sequence of pad reads and consumptions the buffer
-- holds, for each of the 32 buttons, exactly what the latch of that button holds: a press is kept
-- while the button stays held, and is lost at its release or when it is consumed.
pub run-latches :
    (es : List ButtonEvent) (i : ℕ) (s : InputState)
    → IsBuffering s
    → i < 32
    → button i (run es s) ≡ latches i es (button i s)
unfolding run latches
run-latches [] i s v h = refl
run-latches (e ∷ es) i s v h =
    run-latches es i (step e s) (step-IsBuffering e s v) h
    ∙ ap (latches i es) (step-latch e i s v h)

-- While the buffer is in charge, getDown reports a button exactly when the controller reports it
-- pressed, or its press is still buffered after this read, or a scripted action asks for it.
pub get_down_hook-button :
    (original i : ℕ) (s : InputState)
    → IsBuffering s
    → i < 32
    → test_bit i (get_down_hook original 0 s).1 ≡ (
        (test_bit i original || (latch i (reads_down original) (button i s)).buffered)
        || test_bit i s.scripted_buffered_mask)
unfolding get_pending_mask get_down_hook
get_down_hook-button original i s v h = rw (← step-latch (reads_down original) i s v h) (
    unfold step button in
    rw (get_down-buffered original s v) (unfold get_down_buffered in simp test_bit-bit_or))
