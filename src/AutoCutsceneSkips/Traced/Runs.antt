-- ===== src/AutoCutsceneSkips/Traced/Runs.antt =====
-- Every step of src/xenomods/modules/AutoCutsceneSkips.cpp keeps the trace within its array and its frames.
use xenomods.Base.{
  if_false, if_true, ℕ, suc, ◌+◌, ◌%◌, ◌^◌, ◌≤◌, ◌<◌, Bool, true, false, ◌||◌, ◌≡◌, refl, List, [],
  ◌∷◌, length, if-elim, arith, ◌∙◌, Bool-cases, if◌then◌else◌, inl, inr,
}
use mathlib.Core.Path.{subst, ap, sym}
use xenomods.AutoCutsceneSkips.{CutsceneState, Surroundings, TraceKind, TraceLog}
use xenomods.AutoCutsceneSkips.Hooks.{
  cancel_confirmation, leave_scene, end_scene, count_native_frame, end_event_update, finalize_event,
  skip_open, begin_confirmation, note_sender, note_listener,
}
use xenomods.AutoCutsceneSkips.Trace.{finish_trace}
use xenomods.AutoCutsceneSkips.Events.{
  save_skip_settings, switch_skips, set_skips_enabled, set_capture, restart_trace, clear_trace,
  clear_cutscene, change_scene, CutsceneStep, scene_leaves, scene_starts, scene_ends, frame_counts,
  pad_is_read, skip_opens, skip_opened, event_begins, event_ends, event_finalizes, menu_opens,
  menu_initializes, takes_sample, menu_finalizes, sender_seen, listener_done, layer_updates,
  skips_set, capture_set, trace_restarts, trace_clears, state_clears, scene_changes, input_changes,
  cutscene_step, run_cutscene,
}
use xenomods.AutoCutsceneSkips.Traced.{
  Framed-later, IsWithin, IsTraced, record_sample-IsTraced, start_trace-IsTraced,
  finish_trace-IsTraced, reset_playback_only-IsTraced, start_if_capturing-IsTraced,
  begin_cutscene-IsTraced,
}
use xenomods.AutoCutsceneSkips.Traced.Parts.{
  get_control_pad_data_hook-IsTraced, trace_acceptance-IsTraced, accept_plus-IsTraced,
  begin_event_update-IsTraced, skip_finalize-IsTraced, on_input_layer_update-IsTraced,
}

module _ (n : ℕ) where
  -- The tools.
  set_skips_enabled-IsTraced :
      (saved enabled : Bool) {s : CutsceneState}
      → IsTraced n s
      → IsTraced n (set_skips_enabled saved enabled s)
  unfolding set_skips_enabled switch_skips save_skip_settings cancel_confirmation
  set_skips_enabled-IsTraced saved enabled v = ground arith

  set_capture-IsTraced :
      (around : Surroundings) (enabled : Bool) {s : CutsceneState}
      → IsTraced n s
      → IsTraced n (set_capture around enabled s)
  unfolding set_capture
  set_capture-IsTraced around enabled v = grind (arith, finish_trace-IsTraced n)

  finished-IsTraced :
      (around : Surroundings) (kind : TraceKind) (b : Bool) {s : CutsceneState}
      → IsTraced n s
      → IsTraced n (if b then finish_trace around kind s else s)
  finished-IsTraced around kind b v =
      if-elim (IsTraced n) b (finish_trace-IsTraced n around kind v) v

  -- Every step but the count of a frame stays in the frame.
  abbrev counts_frame : CutsceneStep → Bool
  counts_frame frame_counts = true
  counts_frame _ = false

  cutscene_step-IsTraced :
      (step : CutsceneStep) {s : CutsceneState}
      → counts_frame step ≡ false
      → IsTraced n s
      → IsTraced n (cutscene_step step s)
  unfolding cutscene_step leave_scene end_scene end_event_update finalize_event skip_open
      begin_confirmation note_sender note_listener restart_trace clear_trace clear_cutscene
      change_scene
  cutscene_step-IsTraced (scene_leaves around) h v =
      reset_playback_only-IsTraced n (finished-IsTraced around _ _ v)
  cutscene_step-IsTraced (scene_starts around) h v = begin_cutscene-IsTraced n around v
  cutscene_step-IsTraced (scene_ends around) h v =
      reset_playback_only-IsTraced n (finished-IsTraced around _ _ v)
  cutscene_step-IsTraced frame_counts h v = cc
  cutscene_step-IsTraced (pad_is_read around pad original) h v =
      get_control_pad_data_hook-IsTraced n around pad original v
  cutscene_step-IsTraced (skip_opens around first) h v = trace_acceptance-IsTraced n around first v
  cutscene_step-IsTraced (skip_opened around first manager) h v =
      accept_plus-IsTraced n around first manager v
  cutscene_step-IsTraced (event_begins around) h v = begin_event_update-IsTraced n around v
  cutscene_step-IsTraced event_ends h v = record { at_frame = v.at_frame; within = v.within }
  cutscene_step-IsTraced (event_finalizes around) h v =
      reset_playback_only-IsTraced n (finished-IsTraced around _ _ v)
  cutscene_step-IsTraced (menu_opens around context) h v =
      record_sample-IsTraced n around _ (start_if_capturing-IsTraced n around v)
  cutscene_step-IsTraced (menu_initializes around menu) h v =
      let w = start_if_capturing-IsTraced n around v in
      record { at_frame = w.at_frame; within = w.within }
  cutscene_step-IsTraced (takes_sample around sample) h v = record_sample-IsTraced n around sample v
  cutscene_step-IsTraced (menu_finalizes around menu) h v = skip_finalize-IsTraced n around menu v
  cutscene_step-IsTraced (sender_seen sender) h v = record {
    at_frame = v.at_frame;
    within = v.within;
  }
  cutscene_step-IsTraced (listener_done around listener event action sender) {s} h v =
      let w : IsTraced n (record s { a_accepted_this_attempt = true; injected_mask = 0 }) = record {
        at_frame = v.at_frame;
        within = v.within;
      } in
      if-elim (IsTraced n) _ (record_sample-IsTraced n around _ w) v
  cutscene_step-IsTraced (layer_updates around u) h v = on_input_layer_update-IsTraced n around u v
  cutscene_step-IsTraced (skips_set saved enabled) h v = set_skips_enabled-IsTraced saved enabled v
  cutscene_step-IsTraced (capture_set around enabled) h v = set_capture-IsTraced around enabled v
  cutscene_step-IsTraced (trace_restarts around) h v =
      if-elim (IsTraced n) _ (start_trace-IsTraced n around v) v
  cutscene_step-IsTraced trace_clears h v = record {
    at_frame = v.at_frame;
    within = record { bounded = omega arith; started = v.within.started; framed = tt };
  }
  cutscene_step-IsTraced (state_clears around interrupted) h v =
      reset_playback_only-IsTraced n (finished-IsTraced around _ _ v)
  cutscene_step-IsTraced (scene_changes around) h v =
      reset_playback_only-IsTraced n (finished-IsTraced around _ _ v)
  cutscene_step-IsTraced (input_changes f) h v = record { at_frame = v.at_frame; within = v.within }

-- A frame is counted.
IsWithin-later : (n : ℕ) (log : TraceLog) → IsWithin n log → IsWithin (suc n) log
IsWithin-later n log v = record {
  bounded = v.bounded;
  started = omega (arith, v.started);
  framed = Framed-later _ n log.samples v.framed;
}

count_native_frame-IsTraced :
    (n : ℕ) (s : CutsceneState)
    → suc n < 2 ^ 64
    → IsTraced n s
    → (m : ℕ) × (m ≤ suc n) × IsTraced m (count_native_frame s)
unfolding count_native_frame
count_native_frame-IsTraced n s h v = elim (Bool-cases (s.log.running || s.cutscene_active)) [
  | inl e ↦ (
    suc n,
    omega arith,
    record {
      at_frame =
          if_true s.native_frame e ∙ ap (λ k. (k + 1) % 2 ^ 64) v.at_frame ∙ omega (arith, h);
      within = IsWithin-later n s.log v.within;
    },
  )
  | inr e ↦ (n, omega arith, record { at_frame = if_false _ e ∙ v.at_frame; within = v.within })
]

-- The frame after a step is at most one later.
cutscene_step-frame :
    (n : ℕ) (step : CutsceneStep) (s : CutsceneState)
    → suc n < 2 ^ 64
    → IsTraced n s
    → (m : ℕ) × (m ≤ suc n) × IsTraced m (cutscene_step step s)
unfolding cutscene_step
cutscene_step-frame n frame_counts s h v = count_native_frame-IsTraced n s h v
cutscene_step-frame n step s h v = (n, omega arith, cutscene_step-IsTraced n step refl v)

-- In every run of fewer steps than the frame counter can still count, whatever order they come in,
-- the trace keeps to the 512 entries of its array, and every sample in it is of a frame from the
-- start of the trace up to the current one, so that the frames shown for it do not wrap around.
pub run_cutscene-IsTraced :
    (n : ℕ) (steps : List CutsceneStep) (s : CutsceneState)
    → n + length steps < 2 ^ 64
    → IsTraced n s
    → IsWithin (run_cutscene steps s).native_frame (run_cutscene steps s).log
unfolding run_cutscene
run_cutscene-IsTraced n [] s h v = subst (λ m. IsWithin m s.log) (sym v.at_frame) v.within
run_cutscene-IsTraced n (step ∷ rest) s h v =
    let (m, le, w) = cutscene_step-frame n step s (omega arith) v in
    run_cutscene-IsTraced m rest (cutscene_step step s) (omega (arith, le, h)) w
