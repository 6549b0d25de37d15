-- ===== src/AutoCutsceneSkips/Timing.antt =====
-- When A is queued after the game has accepted +: the frames of a confirmation in
-- src/xenomods/modules/AutoCutsceneSkips.cpp.
pub mod Press
use xenomods.Base.{
  ℕ, zero, suc, ◌+◌, ◌-◌, ◌%◌, ◌^◌, ◌<◌, ◌≤◌, Bool, true, false, not, ◌&&◌, ◌||◌, ◌==◌, ◌!=◌, ltb,
  leb, List, ◌≡◌, ◌≢◌, refl, sym, ◌∙◌, ap, bit_and, Option, none, some, if◌then◌else◌, if-elim,
  if_true, if_false, option-cases, arith,
}
use mathlib.Core.Path.{subst}
use xenomods.InputBuffer.State.{InputState, LayerUpdate}
use xenomods.InputBuffer.Api.{request_auto_ui_action}
use xenomods.AutoCutsceneSkips.{
  PlaybackPhase, waiting_for_a_frame, a_queued, CutsceneState, TraceLog, LayerSnapshot,
  Surroundings, TraceSample, a_button_mask, confirmation_delay_frames, is_waiting_for_a,
  is_a_queued,
}
use xenomods.AutoCutsceneSkips.Trace.{append_sample, record_sample, snapshot_for}
use xenomods.AutoCutsceneSkips.Hooks.{
  count_native_frame, enter_event, a_frame, miss_a, trace_blank, begin_event_update,
  end_event_update,
}
use xenomods.AutoCutsceneSkips.Layer.{
  layer_enabled_mask, is_a_frame, queue_a, before_layer, observe_layer, find_layer, drop_layer,
  on_input_layer_update,
}

-- One frame: the frame is counted, the game's event is updated, and then a layer is about to be.
unfoldable pub confirmation_frame : Surroundings → LayerUpdate → CutsceneState → CutsceneState
confirmation_frame around u s =
    on_input_layer_update around u
      (end_event_update (begin_event_update around (count_native_frame s)))

unfoldable pub confirmation_frames : ℕ → Surroundings → LayerUpdate → CutsceneState → CutsceneState
unfolding confirmation_frame
confirmation_frames zero around u s = s
confirmation_frames (suc n) around u s =
    confirmation_frames n around u (confirmation_frame around u s)

-- What the frames before A keep: + was accepted at frame n, k frames ago, and A is awaited for an
-- object, with the input buffer and the snapshots as they were.
pub record Awaits (n k object : ℕ) (i : InputState) (snapshots : List LayerSnapshot)
    (s : CutsceneState) : Type 0 where
  pub switched_on : s.skips_enabled ≡ true
  pub is_active : s.cutscene_active ≡ true
  pub in_phase : s.phase ≡ waiting_for_a_frame
  pub now : s.native_frame ≡ n + k
  pub accepted_at : s.plus_accepted_frame ≡ n
  pub of_object : s.confirmation_object ≡ object
  pub same_input : s.input ≡ i
  pub same_snapshots : s.log.snapshots ≡ snapshots

append_sample-snapshots :
    (around : Surroundings) (frame : ℕ) (sample : TraceSample) (log : TraceLog)
    → (append_sample around frame sample log).snapshots ≡ log.snapshots
unfolding append_sample
append_sample-snapshots around frame sample log = ground arith

module _ (n object : ℕ) (i : InputState) (snapshots : List LayerSnapshot)
    (counts : n + 8 < 2 ^ 64) where
  record_sample-Awaits :
      (k : ℕ) (around : Surroundings) (sample : TraceSample) (s : CutsceneState)
      → Awaits n k object i snapshots s
      → Awaits n k object i snapshots (record_sample around sample s)
  unfolding record_sample
  record_sample-Awaits k around sample s v = record {
    switched_on = v.switched_on;
    is_active = v.is_active;
    in_phase = v.in_phase;
    now = v.now;
    accepted_at = v.accepted_at;
    of_object = v.of_object;
    same_input = v.same_input;
    same_snapshots = append_sample-snapshots around s.native_frame sample s.log ∙ v.same_snapshots;
  }

  count_native_frame-Awaits :
      (k : ℕ) (s : CutsceneState)
      → k < 6
      → Awaits n k object i snapshots s
      → Awaits n (suc k) object i snapshots (count_native_frame s)
  unfolding count_native_frame
  count_native_frame-Awaits k s h v = record {
    switched_on = v.switched_on;
    is_active = v.is_active;
    in_phase = v.in_phase;
    now =
        if_true {b = s.log.running || s.cutscene_active} s.native_frame (ground arith)
        ∙ ap (λ m. (m + 1) % 2 ^ 64) v.now
        ∙ omega (arith, counts, h);
    accepted_at = v.accepted_at;
    of_object = v.of_object;
    same_input = v.same_input;
    same_snapshots = v.same_snapshots;
  }

  miss_a-Awaits :
      (k : ℕ) (around : Surroundings) (s : CutsceneState)
      → k ≤ 6
      → Awaits n k object i snapshots s
      → Awaits n k object i snapshots (miss_a around s)
  unfolding miss_a a_frame
  miss_a-Awaits k around s h v = subst (Awaits n k object i snapshots) (sym (if_false _ in_time)) v
    where
      in_time :
          (s.skips_enabled
            && s.cutscene_active
            && (is_waiting_for_a s.phase || is_a_queued s.phase && not s.a_attempt_observed)
            && ltb (a_frame s) s.native_frame)
          ≡ false
      in_time = ground (arith, counts, v.now, v.accepted_at)

  begin_event_update-Awaits :
      (k : ℕ) (around : Surroundings) (s : CutsceneState)
      → k ≤ 6
      → Awaits n k object i snapshots s
      → Awaits n k object i snapshots (begin_event_update around s)
  unfolding begin_event_update trace_blank enter_event
  begin_event_update-Awaits k around s h v =
      let entered : Awaits n k object i snapshots (enter_event s) = record {
        switched_on = v.switched_on;
        is_active = v.is_active;
        in_phase = v.in_phase;
        now = v.now;
        accepted_at = v.accepted_at;
        of_object = v.of_object;
        same_input = v.same_input;
        same_snapshots = v.same_snapshots;
      } in
      let missed = miss_a-Awaits k around (enter_event s) h entered in
      if-elim (Awaits n k object i snapshots) _
        (record_sample-Awaits k around _ (miss_a around (enter_event s)) missed) missed

  end_event_update-Awaits :
      (k : ℕ) (s : CutsceneState)
      → Awaits n k object i snapshots s
      → Awaits n k object i snapshots (end_event_update s)
  unfolding end_event_update
  end_event_update-Awaits k s v = record {
    switched_on = v.switched_on;
    is_active = v.is_active;
    in_phase = v.in_phase;
    now = v.now;
    accepted_at = v.accepted_at;
    of_object = v.of_object;
    same_input = v.same_input;
    same_snapshots = v.same_snapshots;
  }

  -- The state in which the layer of the k-th frame is about to be updated.
  pub event_updated-Awaits :
      (k : ℕ) (around : Surroundings) (s : CutsceneState)
      → k < 6
      → Awaits n k object i snapshots s
      → Awaits n
          (suc k)
          object
          i
          snapshots
          (end_event_update (begin_event_update around (count_native_frame s)))
  event_updated-Awaits k around s h v = end_event_update-Awaits (suc k) _ (
      begin_event_update-Awaits (suc k) around _ (omega (arith, h))
        (count_native_frame-Awaits k s h v))

  pub drop_layer-Awaits :
      (k : ℕ) (s : CutsceneState)
      → Awaits n k object i snapshots s
      → Awaits n k object i snapshots (drop_layer s)
  unfolding drop_layer
  drop_layer-Awaits k s v = record {
    switched_on = v.switched_on;
    is_active = v.is_active;
    in_phase = v.in_phase;
    now = v.now;
    accepted_at = v.accepted_at;
    of_object = v.of_object;
    same_input = v.same_input;
    same_snapshots = v.same_snapshots;
  }

  -- The N+6 frame.
  pub is_a_frame-Awaits :
      (k : ℕ) (u : LayerUpdate) (enabled : ℕ) (s : CutsceneState)
      → k < 6
      → Awaits n k object i snapshots s
      → is_a_frame u enabled s ≡ false
  unfolding is_a_frame a_frame
  is_a_frame-Awaits k u enabled s h v = ground (arith, counts, v.now, v.accepted_at)

  pub a_frame-Awaits :
      (u : LayerUpdate) (enabled : ℕ) (s : CutsceneState)
      → u.object ≡ object
      → bit_and enabled a_button_mask ≢ 0
      → Awaits n 6 object i snapshots s
      → is_a_frame u enabled s ≡ true
  unfolding is_a_frame a_frame
  a_frame-Awaits u enabled s e m v = ground (arith, counts, v.now, v.accepted_at)
