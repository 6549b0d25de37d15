-- ===== src/AutoCutsceneSkips/Phases/Steps.antt =====
-- The steps of src/xenomods/modules/AutoCutsceneSkips.cpp are moves of the control.
use xenomods.Base.{
  ℕ, Bool, true, false, not, ◌&&◌, ◌||◌, ◌==◌, ◌!=◌, ◌≡◌, refl, sym, if-elim, if-cases,
  option-cases, if◌then◌else◌, arith, ltb, bit_and, bit_or,
}
use mathlib.Core.Path.{subst}
use xenomods.InputBuffer.State.{LayerUpdate}
use xenomods.AutoCutsceneSkips.{
  TraceKind, finished, waiting_for_plus_acceptance, a_button_mask, CutsceneState, Surroundings,
  is_waiting_for_plus, is_waiting_for_a, is_a_queued, cutscene_cancelled, scene_transition,
  cutscene_completed, state_cleared,
}
use xenomods.AutoCutsceneSkips.Trace.{finish_trace, start_trace, record_sample, snapshot_for}
use xenomods.AutoCutsceneSkips.Hooks.{
  get_control_pad_data_hook, trace_acceptance, start_if_capturing, cancel_confirmation,
  reset_playback_only, arm_cutscene, begin_cutscene, leave_scene, end_scene, count_native_frame,
  note_acceptance, accept_plus, enter_event, a_frame, miss_a, begin_event_update, end_event_update,
  finalize_event, skip_open, begin_confirmation, skip_finalize, note_sender, note_listener,
}
use xenomods.AutoCutsceneSkips.Layer.{
  take_snapshot, queue_a, is_a_frame, before_layer, note_result, note_offer, observe_a,
  observe_layer, find_layer, drop_layer, layer_enabled_mask, on_input_layer_update,
}
use xenomods.AutoCutsceneSkips.Events.{
  same_bool, save_skip_settings, switch_skips, set_skips_enabled, set_capture, restart_trace,
  clear_trace, clear_cutscene, change_scene, CutsceneStep, scene_leaves, scene_starts, scene_ends,
  frame_counts, pad_is_read, skip_opens, skip_opened, event_begins, event_ends, event_finalizes,
  menu_opens, menu_initializes, takes_sample, menu_finalizes, sender_seen, listener_done,
  layer_updates, skips_set, capture_set, trace_restarts, trace_clears, state_clears, scene_changes,
  input_changes, cutscene_step,
}
use xenomods.AutoCutsceneSkips.Phases.{
  Control, control, Moves, stays, releases, resets, begins, accepts, queues, settles, misses,
  switches_on, switches_off,
}
use xenomods.AutoCutsceneSkips.Phases.Keeps.{
  Keeps, start_trace-Keeps, finish_trace-Keeps, start_if_stopped-Keeps, start_if_capturing-Keeps,
  get_control_pad_data_hook-Keeps, trace_acceptance-Keeps, note_acceptance-Keeps, trace_blank-Keeps,
  take_snapshot-Keeps,
}

-- The control of one state moves to that of another.
abbrev pub MovesTo : CutsceneState → CutsceneState → Type 0
MovesTo s t = Moves (control s) (control t)

Keeps-MovesTo : (s t : CutsceneState) → Keeps s t → MovesTo s t
Keeps-MovesTo s t k = subst (Moves (control s)) (sym k) stays

-- What keeps the control may stand before or after a move.
after_move : (s t u : CutsceneState) → MovesTo s t → Keeps t u → MovesTo s u
after_move s t u m k = subst (Moves (control s)) (sym k) m

before_move : (s t u : CutsceneState) → Keeps s t → MovesTo t u → MovesTo s u
before_move s t u k m = subst (λ c. Moves c (control u)) k m

reset_after :
    (around : Surroundings) (kind : TraceKind) (b : Bool) (s : CutsceneState)
    → MovesTo s (reset_playback_only (if b then finish_trace around kind s else s))
unfolding reset_playback_only cancel_confirmation
reset_after around kind b s =
    let t : CutsceneState = if b then finish_trace around kind s else s in
    before_move s t (reset_playback_only t) (finish_trace-Keeps around kind b s) resets

arm_cutscene-MovesTo : (s : CutsceneState) → MovesTo s (arm_cutscene s)
unfolding arm_cutscene reset_playback_only cancel_confirmation
arm_cutscene-MovesTo s = begins

accept_plus-MovesTo :
    (around : Surroundings) (first : Bool) (manager : ℕ) (s : CutsceneState)
    → MovesTo s (accept_plus around first manager s)
unfolding accept_plus
accept_plus-MovesTo around first manager s =
    let t : CutsceneState = if first then note_acceptance around manager s else s in
    before_move s t (accept_plus around first manager s)
      (note_acceptance-Keeps around first manager s)
      (if-cases (MovesTo t) (first && is_waiting_for_plus t.phase) (λ e. accepts (ground arith))
        (λ _. stays))

miss_a-MovesTo :
    (around : Surroundings) (s : CutsceneState) → MovesTo s (miss_a around (enter_event s))
unfolding miss_a enter_event record_sample
miss_a-MovesTo around s =
    if-cases (MovesTo s)
      (s.skips_enabled
        && s.cutscene_active
        && (is_waiting_for_a s.phase || is_a_queued s.phase && not s.a_attempt_observed)
        && ltb (a_frame (enter_event s)) s.native_frame)
      (λ e. misses (ground arith)) (λ _. releases)

skip_finalize-MovesTo :
    (around : Surroundings) (menu : ℕ) (s : CutsceneState) → MovesTo s (skip_finalize around menu s)
unfolding skip_finalize cancel_confirmation record_sample
skip_finalize-MovesTo around menu s = if-elim (MovesTo s) (s.confirmation_menu == menu) stays stays

note_listener-MovesTo :
    (around : Surroundings) (listener event action sender : ℕ) (s : CutsceneState)
    → MovesTo s (note_listener around listener event action sender s)
unfolding note_listener record_sample
note_listener-MovesTo around listener event action sender s =
    if-elim (MovesTo s) (s.a_attempt_in_progress && event == 8 && action == 1) releases stays

before_layer-MovesTo :
    (around : Surroundings) (u : LayerUpdate) (enabled : ℕ) (s : CutsceneState)
    → MovesTo s (before_layer around u enabled s)
unfolding before_layer is_a_frame queue_a record_sample
before_layer-MovesTo around u enabled s =
    if-cases (MovesTo s) (is_a_frame u enabled s) (λ e. queues (ground arith)) (λ _. stays)

note_result-Keeps :
    (around : Surroundings) (u : LayerUpdate) (enabled : ℕ) (s : CutsceneState)
    → Keeps s (note_result around u enabled s)
unfolding note_result record_sample
note_result-Keeps around u enabled s = if-elim (Keeps s) _ refl refl

observe_a-MovesTo :
    (around : Surroundings) (u : LayerUpdate) (enabled : ℕ) (s : CutsceneState)
    → MovesTo s (observe_a around u enabled s)
unfolding observe_a note_offer record_sample
observe_a-MovesTo around u enabled s =
    let offered = note_offer around u enabled s in
    let kept = note_result-Keeps around u enabled offered in
    if-cases (MovesTo s)
      (s.a_attempt_in_progress
        && not s.a_attempt_observed
        && u.object == s.confirmation_object
        && bit_and (bit_or u.held_buttons u.down_buttons) a_button_mask != 0)
      (λ e.
        subst
          (λ (c : Control).
            Moves (control s) (record c { at_phase = finished; attempting = false }))
          (sym kept) (settles (ground arith)))
      (λ _. stays)

observe_layer-MovesTo :
    (around : Surroundings) (u : LayerUpdate) (enabled index : ℕ) (s : CutsceneState)
    → MovesTo s (observe_layer around u enabled index s)
unfolding observe_layer
observe_layer-MovesTo around u enabled index s =
    if-elim (MovesTo s) (not u.after_update) (before_layer-MovesTo around u enabled s) (
      after_move s (observe_a around u enabled s)
        (take_snapshot around u enabled index (observe_a around u enabled s))
        (observe_a-MovesTo around u enabled s)
        (take_snapshot-Keeps around u enabled index (observe_a around u enabled s)))

on_input_layer_update-MovesTo :
    (around : Surroundings) (u : LayerUpdate) (s : CutsceneState)
    → MovesTo s (on_input_layer_update around u s)
unfolding on_input_layer_update find_layer drop_layer
on_input_layer_update-MovesTo around u s =
    let enabled = layer_enabled_mask s.input u.input_layer in
    if-elim (MovesTo s)
      (u.input_layer == 0 || not (is_waiting_for_a s.phase) && not s.a_attempt_in_progress) stays
      (if-elim (MovesTo s) _ stays (
        option-cases (MovesTo s) (snapshot_for u.input_layer s.log.snapshots) (λ _. stays)
          (λ index _. observe_layer-MovesTo around u enabled index s)))

switch_skips-MovesTo :
    (enabled : Bool) (s : CutsceneState)
    → same_bool s.skips_enabled enabled ≡ false
    → MovesTo s (switch_skips enabled s)
unfolding switch_skips cancel_confirmation
switch_skips-MovesTo false s e = switches_off
switch_skips-MovesTo true s e =
    if-cases (MovesTo s) s.cutscene_active (λ a. turned_on true a) (λ a. turned_on false a)
  where
    turned_on :
        (b : Bool)
        → s.cutscene_active ≡ b
        → Moves (control s) (record (control s) {
          enabled = true;
          at_phase = if b then waiting_for_plus_acceptance else s.phase;
        })
    turned_on b a =
        subst
          (λ c. Moves (control s) (record (control s) {
            enabled = true;
            at_phase = if c then waiting_for_plus_acceptance else s.phase;
          }))
          a (switches_on (ground arith))

save_skip_settings-Keeps : (saved : Bool) (s : CutsceneState) → Keeps s (save_skip_settings saved s)
unfolding save_skip_settings
save_skip_settings-Keeps saved s =
    if-elim (Keeps s) (same_bool s.skips_enabled s.last_saved_enabled) refl
      (if-elim (Keeps s) saved refl refl)

set_skips_enabled-MovesTo :
    (saved enabled : Bool) (s : CutsceneState) → MovesTo s (set_skips_enabled saved enabled s)
unfolding set_skips_enabled
set_skips_enabled-MovesTo saved enabled s =
    if-cases (MovesTo s) (same_bool s.skips_enabled enabled) (λ _. stays)
      (λ e.
        after_move s (switch_skips enabled s) (save_skip_settings saved (switch_skips enabled s))
          (switch_skips-MovesTo enabled s e)
          (save_skip_settings-Keeps saved (switch_skips enabled s)))

set_capture-Keeps :
    (around : Surroundings) (enabled : Bool) (s : CutsceneState)
    → Keeps s (set_capture around enabled s)
unfolding set_capture
set_capture-Keeps around enabled s =
    finish_trace-Keeps around cutscene_cancelled (not enabled && s.log.running)
      (record s { profiler_capture_enabled = enabled })

-- Every step of the hooks and of the tools is one move of the control, whatever the game and the
-- input buffer do.
pub cutscene_step-MovesTo :
    (step : CutsceneStep) (s : CutsceneState) → MovesTo s (cutscene_step step s)
unfolding cutscene_step leave_scene end_scene begin_cutscene count_native_frame begin_event_update
    end_event_update finalize_event skip_open begin_confirmation note_sender restart_trace
    clear_trace clear_cutscene change_scene record_sample
cutscene_step-MovesTo (scene_leaves around) s = reset_after around scene_transition s.log.running s
cutscene_step-MovesTo (scene_starts around) s =
    after_move s (arm_cutscene s) (begin_cutscene around s) (arm_cutscene-MovesTo s)
      (start_if_stopped-Keeps around (arm_cutscene s))
cutscene_step-MovesTo (scene_ends around) s = reset_after around cutscene_completed s.log.running s
cutscene_step-MovesTo frame_counts s = stays
cutscene_step-MovesTo (pad_is_read around pad original) s =
    Keeps-MovesTo s (get_control_pad_data_hook around pad original s).0
      (get_control_pad_data_hook-Keeps around pad original s)
cutscene_step-MovesTo (skip_opens around first) s =
    Keeps-MovesTo s (trace_acceptance around first s) (trace_acceptance-Keeps around first s)
cutscene_step-MovesTo (skip_opened around first manager) s =
    accept_plus-MovesTo around first manager s
cutscene_step-MovesTo (event_begins around) s =
    after_move s (miss_a around (enter_event s)) (begin_event_update around s)
      (miss_a-MovesTo around s) (trace_blank-Keeps around (miss_a around (enter_event s)))
cutscene_step-MovesTo event_ends s = releases
cutscene_step-MovesTo (event_finalizes around) s =
    reset_after around cutscene_cancelled s.cutscene_active s
cutscene_step-MovesTo (menu_opens around context) s =
    Keeps-MovesTo s (start_if_capturing around s) (start_if_capturing-Keeps around s)
cutscene_step-MovesTo (menu_initializes around menu) s =
    Keeps-MovesTo s (start_if_capturing around s) (start_if_capturing-Keeps around s)
cutscene_step-MovesTo (takes_sample around sample) s = stays
cutscene_step-MovesTo (menu_finalizes around menu) s = skip_finalize-MovesTo around menu s
cutscene_step-MovesTo (sender_seen sender) s = stays
cutscene_step-MovesTo (listener_done around listener event action sender) s =
    note_listener-MovesTo around listener event action sender s
cutscene_step-MovesTo (layer_updates around u) s = on_input_layer_update-MovesTo around u s
cutscene_step-MovesTo (skips_set saved enabled) s = set_skips_enabled-MovesTo saved enabled s
cutscene_step-MovesTo (capture_set around enabled) s =
    Keeps-MovesTo s (set_capture around enabled s) (set_capture-Keeps around enabled s)
cutscene_step-MovesTo (trace_restarts around) s =
    if-elim (MovesTo s) s.cutscene_active
      (Keeps-MovesTo s (start_trace around s) (start_trace-Keeps around s)) stays
cutscene_step-MovesTo trace_clears s = stays
cutscene_step-MovesTo (state_clears around interrupted) s =
    reset_after around state_cleared (s.log.running && interrupted) s
cutscene_step-MovesTo (scene_changes around) s = reset_after around scene_transition s.log.running s
cutscene_step-MovesTo (input_changes f) s = stays
