-- ===== src/AutoCutsceneSkips/Layer.antt =====
-- The updates of the UI input layers: LayerEnabledMask and OnInputLayerUpdate of
-- src/xenomods/modules/AutoCutsceneSkips.cpp.
use xenomods.Base.{
  ℕ, ◌+◌, ◌%◌, ◌^◌, bit_and, bit_or, Bool, true, false, not, ◌&&◌, ◌||◌, ◌==◌, ◌!=◌, ltb, none,
  some, if◌then◌else◌, set_elem, get_or,
}
use xenomods.InputBuffer.State.{InputState, LayerUpdate}
use xenomods.InputBuffer.Api.{cancel_auto_ui_action, request_auto_ui_action}
use xenomods.InputBuffer.Layers.{enabled_from}
use xenomods.AutoCutsceneSkips.{
  a_queued, finished, a_queued_sample, a_offered, a_accepted, a_rejected, confirmation_input_layer,
  TraceSample, LayerSnapshot, no_snapshot, CutsceneState, Surroundings, a_button_mask,
  is_waiting_for_a,
}
use xenomods.AutoCutsceneSkips.Trace.{sample_of, record_sample, snapshot_for}
use xenomods.AutoCutsceneSkips.Hooks.{a_frame}

-- LayerEnabledMask. Its table and its loop are those of InputLayerEnabledButtonMask.
unfoldable pub layer_enabled_mask : InputState → (layer : ℕ) → ℕ
layer_enabled_mask i layer =
    if layer == 0
    then 0
    else if ltb 27 (i.layer_at layer).count
    then 0
    else enabled_from (i.layer_at layer).entry 0 (i.layer_at layer).count 0

-- What the samples of a layer have in common.
unfoldable pub layer_sample : LayerUpdate → (enabled : ℕ) → TraceSample → TraceSample
layer_sample u enabled sample = record sample {
  address = u.input_layer;
  object = u.object;
  layer = u.layer_handle;
  enabled = enabled;
}

unfoldable pub update_sample : LayerUpdate → (enabled : ℕ) → TraceSample → TraceSample
unfolding layer_sample
update_sample u enabled sample = record (layer_sample u enabled sample) {
  held = u.held_buttons;
  down = u.down_buttons;
  primary_event = u.emitted_event;
  secondary_event = u.secondary_event;
  action = u.secondary_action;
}

-- Whether A is to be queued in this update of the confirmation layer.
unfoldable pub is_a_frame : LayerUpdate → (enabled : ℕ) → CutsceneState → Bool
unfolding a_frame
is_a_frame u enabled s =
    s.skips_enabled
    && s.cutscene_active
    && is_waiting_for_a s.phase
    && u.object == s.confirmation_object
    && bit_and enabled a_button_mask != 0
    && s.native_frame == a_frame s

unfoldable pub queue_a : Surroundings → LayerUpdate → (enabled : ℕ) → CutsceneState → CutsceneState
unfolding record_sample layer_sample
queue_a around u enabled s =
    record_sample around (layer_sample u enabled (sample_of a_queued_sample)) (record s {
      a_attempt_in_progress = true;
      a_accepted_this_attempt = false;
      a_attempt_observed = false;
      phase = a_queued;
      input = request_auto_ui_action s.confirmation_object a_button_mask s.input;
    })

-- The layer before its update.
unfoldable pub before_layer :
    Surroundings → LayerUpdate → (enabled : ℕ) → CutsceneState → CutsceneState
unfolding is_a_frame queue_a
before_layer around u enabled s = if is_a_frame u enabled s then queue_a around u enabled s else s

-- Whether the layer accepted A.
unfoldable pub natively_accepted : LayerUpdate → Bool
natively_accepted u = u.accepted && u.secondary_event == 8 && u.secondary_action == 1

unfoldable pub note_result :
    Surroundings → LayerUpdate → (enabled : ℕ) → CutsceneState → CutsceneState
unfolding record_sample update_sample natively_accepted
note_result around u enabled s =
    if natively_accepted u
    then record_sample around
        (record (update_sample u enabled (sample_of a_accepted)) { accepted = true })
        (record s { a_accepted_this_attempt = true })
    else record (record_sample around
        (record (update_sample u enabled (sample_of a_rejected)) { rejected = true }) s) {
          input = cancel_auto_ui_action s.confirmation_object s.input;
        }

-- The update in which the layer was offered A.
unfoldable pub note_offer :
    Surroundings → LayerUpdate → (enabled : ℕ) → CutsceneState → CutsceneState
unfolding record_sample update_sample
note_offer around u enabled s =
    record_sample around (update_sample u enabled (sample_of a_offered))
      (record s { a_attempt_observed = true })

unfoldable pub observe_a :
    Surroundings → LayerUpdate → (enabled : ℕ) → CutsceneState → CutsceneState
unfolding note_offer note_result
observe_a around u enabled s =
    if s.a_attempt_in_progress
      && not s.a_attempt_observed
      && u.object == s.confirmation_object
      && bit_and (bit_or u.held_buttons u.down_buttons) a_button_mask != 0
    then record (note_result around u enabled (note_offer around u enabled s)) {
      a_attempt_in_progress = false;
      phase = finished;
    }
    else s

-- The snapshot of a layer after its update.
unfoldable pub snapshot_of : LayerUpdate → (enabled : ℕ) → LayerSnapshot
snapshot_of u enabled = record {
  layer = u.input_layer;
  handle = u.layer_handle;
  object = u.object;
  enabled = enabled;
  held = u.held_buttons;
  down = u.down_buttons;
  primary_event = u.emitted_event;
  secondary_event = u.secondary_event;
  action = u.secondary_action;
  accepted = u.accepted;
}

abbrev differs : Bool → Bool → Bool
differs true b = not b
differs false b = b

unfoldable pub is_changed : LayerSnapshot → LayerSnapshot → Bool
is_changed old new =
    old.layer == 0
    || old.handle != new.handle
    || old.object != new.object
    || old.enabled != new.enabled
    || old.held != new.held
    || old.down != new.down
    || old.primary_event != new.primary_event
    || old.secondary_event != new.secondary_event
    || old.action != new.action
    || differs old.accepted new.accepted

unfoldable pub store_snapshot : (index : ℕ) → LayerSnapshot → CutsceneState → CutsceneState
store_snapshot index new s = record s {
  log = record s.log { snapshots = set_elem s.log.snapshots index new };
}

unfoldable pub take_snapshot :
    Surroundings → LayerUpdate → (enabled index : ℕ) → CutsceneState → CutsceneState
unfolding snapshot_of store_snapshot is_changed record_sample update_sample
take_snapshot around u enabled index s =
    let new = snapshot_of u enabled in
    let old = get_or s.log.snapshots index no_snapshot in
    let s1 = store_snapshot index new s in
    if is_changed old new
    then record_sample around
        (record (update_sample u enabled (sample_of confirmation_input_layer)) {
          accepted = u.accepted;
        })
        s1
    else s1

-- The layer with its entry among the snapshots, before or after its update.
unfoldable pub observe_layer :
    Surroundings → LayerUpdate → (enabled index : ℕ) → CutsceneState → CutsceneState
unfolding before_layer observe_a take_snapshot
observe_layer around u enabled index s =
    if not u.after_update
    then before_layer around u enabled s
    else take_snapshot around u enabled index (observe_a around u enabled s)

unfoldable pub drop_layer : CutsceneState → CutsceneState
drop_layer s = record s { log = record s.log { dropped = (s.log.dropped + 1) % 2 ^ 64 } }

-- The layer, unless all snapshots are taken by others.
unfoldable pub find_layer :
    Surroundings → LayerUpdate → (enabled : ℕ) → CutsceneState → CutsceneState
unfolding observe_layer drop_layer
find_layer around u enabled s = elim (snapshot_for u.input_layer s.log.snapshots) [
  | none ↦ drop_layer s
  | some index ↦ observe_layer around u enabled index s
]

-- OnInputLayerUpdate
unfoldable pub on_input_layer_update : Surroundings → LayerUpdate → CutsceneState → CutsceneState
unfolding layer_enabled_mask find_layer
on_input_layer_update around u s =
    let enabled = layer_enabled_mask s.input u.input_layer in
    let observed = find_layer around u enabled s in
    if u.input_layer == 0 || not (is_waiting_for_a s.phase) && not s.a_attempt_in_progress
    then s
    else if bit_and enabled a_button_mask == 0 && u.object != s.confirmation_object
    then s
    else observed
