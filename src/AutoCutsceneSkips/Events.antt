-- ===== src/AutoCutsceneSkips/Events.antt =====
-- What the tools call in src/xenomods/modules/AutoCutsceneSkips.cpp, and the steps that the hooks and the
-- tools take, in any order: a hook whose Orig runs other hooks is its parts around their steps.
use xenomods.Base.{ℕ, Bool, true, false, not, ◌&&◌, List, [], ◌∷◌, Option, if◌then◌else◌}
use xenomods.InputBuffer.State.{InputState, LayerUpdate, PadData}
use xenomods.AutoCutsceneSkips.{
  idle_phase, waiting_for_plus_acceptance, finished, cutscene_cancelled, scene_transition,
  state_cleared, TraceSample, CutsceneState, Surroundings,
}
use xenomods.AutoCutsceneSkips.Trace.{record_sample, start_trace, finish_trace}
use xenomods.AutoCutsceneSkips.Hooks.{
  cancel_confirmation, reset_playback_only, begin_cutscene, leave_scene, end_scene,
  count_native_frame, get_control_pad_data_hook, trace_acceptance, accept_plus, begin_event_update,
  end_event_update, finalize_event, skip_open, begin_confirmation, skip_finalize, note_sender,
  note_listener,
}
use xenomods.AutoCutsceneSkips.Layer.{on_input_layer_update}

abbrev pub same_bool : Bool → Bool → Bool
same_bool true b = b
same_bool false b = not b

-- SaveSettingsIfChanged; `saved` says whether the file could be made.
unfoldable pub save_skip_settings : (saved : Bool) → CutsceneState → CutsceneState
save_skip_settings saved s =
    if same_bool s.skips_enabled s.last_saved_enabled
    then s
    else if saved
    then record s { last_saved_enabled = s.skips_enabled }
    else s

-- SetEnabled before the settings are saved.
unfoldable pub switch_skips : (enabled : Bool) → CutsceneState → CutsceneState
unfolding cancel_confirmation
switch_skips enabled s =
    let s1 = record s { skips_enabled = enabled } in
    if enabled && s1.cutscene_active
    then record s1 { phase = waiting_for_plus_acceptance; plus_request_recorded = false }
    else if not enabled
    then record (cancel_confirmation s1) {
      phase = if s1.cutscene_active then finished else idle_phase;
      injected_mask = 0;
      a_attempt_in_progress = false;
      a_accepted_this_attempt = false;
    }
    else s1

unfoldable pub set_skips_enabled : (saved enabled : Bool) → CutsceneState → CutsceneState
unfolding switch_skips save_skip_settings
set_skips_enabled saved enabled s =
    if same_bool s.skips_enabled enabled
    then s
    else save_skip_settings saved (switch_skips enabled s)

-- The checkbox of ProfilerSection, when it is clicked.
unfoldable pub set_capture : Surroundings → (enabled : Bool) → CutsceneState → CutsceneState
set_capture around enabled s =
    let s1 = record s { profiler_capture_enabled = enabled } in
    if not enabled && s.log.running then finish_trace around cutscene_cancelled s1 else s1

-- Its buttons.
unfoldable pub restart_trace : Surroundings → CutsceneState → CutsceneState
restart_trace around s = if s.cutscene_active then start_trace around s else s

unfoldable pub clear_trace : CutsceneState → CutsceneState
clear_trace s = record s {
  log = record s.log { samples = []; dropped = 0; running = false; complete = false };
}

-- ClearRuntimeState
unfoldable pub clear_cutscene : Surroundings → (interrupted : Bool) → CutsceneState → CutsceneState
unfolding reset_playback_only
clear_cutscene around interrupted s =
    reset_playback_only
      (if s.log.running && interrupted then finish_trace around state_cleared s else s)

-- OnSceneTransition
unfoldable pub change_scene : Surroundings → CutsceneState → CutsceneState
unfolding reset_playback_only
change_scene around s =
    reset_playback_only (if s.log.running then finish_trace around scene_transition s else s)

-- One step; the last one is a change of the input buffer by another part of the program.
pub data CutsceneStep : Type 0 where
  scene_leaves scene_starts scene_ends : Surroundings → CutsceneStep
  frame_counts : CutsceneStep
  pad_is_read : Surroundings → (pad : ℕ) → (original : Option (ℕ × PadData)) → CutsceneStep
  skip_opens : Surroundings → (first : Bool) → CutsceneStep
  skip_opened : Surroundings → (first : Bool) → (manager : ℕ) → CutsceneStep
  event_begins : Surroundings → CutsceneStep
  event_ends : CutsceneStep
  event_finalizes : Surroundings → CutsceneStep
  menu_opens : Surroundings → (context : ℕ) → CutsceneStep
  menu_initializes : Surroundings → (menu : ℕ) → CutsceneStep
  takes_sample : Surroundings → TraceSample → CutsceneStep
  menu_finalizes : Surroundings → (menu : ℕ) → CutsceneStep
  sender_seen : (sender : ℕ) → CutsceneStep
  listener_done : Surroundings → (listener event action sender : ℕ) → CutsceneStep
  layer_updates : Surroundings → LayerUpdate → CutsceneStep
  skips_set : (saved enabled : Bool) → CutsceneStep
  capture_set : Surroundings → (enabled : Bool) → CutsceneStep
  trace_restarts : Surroundings → CutsceneStep
  trace_clears : CutsceneStep
  state_clears : Surroundings → (interrupted : Bool) → CutsceneStep
  scene_changes : Surroundings → CutsceneStep
  input_changes : (InputState → InputState) → CutsceneStep

unfoldable pub cutscene_step : CutsceneStep → CutsceneState → CutsceneState
cutscene_step (scene_leaves around) s = leave_scene around s
cutscene_step (scene_starts around) s = begin_cutscene around s
cutscene_step (scene_ends around) s = end_scene around s
cutscene_step frame_counts s = count_native_frame s
cutscene_step (pad_is_read around pad original) s =
    (get_control_pad_data_hook around pad original s).0
cutscene_step (skip_opens around first) s = trace_acceptance around first s
cutscene_step (skip_opened around first manager) s = accept_plus around first manager s
cutscene_step (event_begins around) s = begin_event_update around s
cutscene_step event_ends s = end_event_update s
cutscene_step (event_finalizes around) s = finalize_event around s
cutscene_step (menu_opens around context) s = skip_open around context s
cutscene_step (menu_initializes around menu) s = begin_confirmation around menu s
cutscene_step (takes_sample around sample) s = record_sample around sample s
cutscene_step (menu_finalizes around menu) s = skip_finalize around menu s
cutscene_step (sender_seen sender) s = note_sender sender s
cutscene_step (listener_done around listener event action sender) s =
    note_listener around listener event action sender s
cutscene_step (layer_updates around u) s = on_input_layer_update around u s
cutscene_step (skips_set saved enabled) s = set_skips_enabled saved enabled s
cutscene_step (capture_set around enabled) s = set_capture around enabled s
cutscene_step (trace_restarts around) s = restart_trace around s
cutscene_step trace_clears s = clear_trace s
cutscene_step (state_clears around interrupted) s = clear_cutscene around interrupted s
cutscene_step (scene_changes around) s = change_scene around s
cutscene_step (input_changes f) s = record s { input = f s.input }

unfoldable pub run_cutscene : List CutsceneStep → CutsceneState → CutsceneState
unfolding cutscene_step
run_cutscene [] s = s
run_cutscene (step ∷ rest) s = run_cutscene rest (cutscene_step step s)
