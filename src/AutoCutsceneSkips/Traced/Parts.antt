-- ===== src/AutoCutsceneSkips/Traced/Parts.antt =====
-- The parts of the hooks of src/xenomods/modules/AutoCutsceneSkips.cpp keep the trace within its array and
-- its frames.
use xenomods.Base.{
  ℕ, Bool, not, ◌&&◌, ◌||◌, ◌==◌, Option, none, some, if-elim, option-cases, arith, ◌!=◌,
}
use xenomods.InputBuffer.State.{LayerUpdate, PadData}
use xenomods.AutoCutsceneSkips.{LayerSnapshot, is_waiting_for_a, CutsceneState, Surroundings}
use xenomods.AutoCutsceneSkips.Hooks.{
  cancel_confirmation, trace_plus, trace_poll, trace_request, request_samples, mask_to_inject,
  get_control_pad_data_hook, trace_acceptance, note_skippable, note_acceptance, accept_plus,
  enter_event, miss_a, trace_blank, begin_event_update, skip_finalize,
}
use xenomods.AutoCutsceneSkips.Trace.{snapshot_for}
use xenomods.AutoCutsceneSkips.Layer.{
  queue_a, store_snapshot, layer_enabled_mask, snapshot_of, find_layer, note_offer, before_layer,
  note_result, observe_a, take_snapshot, observe_layer, drop_layer, on_input_layer_update,
}
use xenomods.AutoCutsceneSkips.Traced.{IsTraced, record_sample-IsTraced, start_trace-IsTraced}

module _ (n : ℕ) where
  abbrev pub T : CutsceneState → Type 0
  T = IsTraced n

  -- The pad, the acceptance of + and the event.
  trace_plus-IsTraced :
      (around : Surroundings) (p : PadData) {s : CutsceneState} → T s → T (trace_plus around p s)
  unfolding trace_plus
  trace_plus-IsTraced around p v = if-elim T _ (start_trace-IsTraced n around v) v

  trace_poll-IsTraced :
      (around : Surroundings) (address : ℕ) (p : PadData) {s : CutsceneState}
      → T s
      → T (trace_poll around address p s)
  unfolding trace_poll
  trace_poll-IsTraced around address p v = grind (arith, record_sample-IsTraced n)

  request_samples-IsTraced :
      (around : Surroundings) (address : ℕ) (p : PadData) {s : CutsceneState}
      → T s
      → T (request_samples around address p s)
  unfolding request_samples
  request_samples-IsTraced around address p v =
      record_sample-IsTraced n around _ (record_sample-IsTraced n around _ v)

  trace_request-IsTraced :
      (around : Surroundings) (address mask : ℕ) (p : PadData) {s : CutsceneState}
      → T s
      → T (trace_request around address mask p s)
  unfolding trace_request
  trace_request-IsTraced around address mask p v = grind (arith, request_samples-IsTraced)

  pub get_control_pad_data_hook-IsTraced :
      (around : Surroundings) (pad : ℕ) (original : Option (ℕ × PadData)) {s : CutsceneState}
      → T s
      → T (get_control_pad_data_hook around pad original s).0
  unfolding get_control_pad_data_hook
  get_control_pad_data_hook-IsTraced around pad none v = v
  get_control_pad_data_hook-IsTraced around pad (some (address, p)) {s} v =
      let w = trace_poll-IsTraced around address p (trace_plus-IsTraced around p v) in
      let mask = mask_to_inject (trace_poll around address p (trace_plus around p s)) in
      if-elim (λ (r : CutsceneState × Option PadData). T r.0) (pad != 0) v
        (if-elim (λ (r : CutsceneState × Option PadData). T r.0) (mask == 0) w
          (trace_request-IsTraced around address mask p w))

  pub trace_acceptance-IsTraced :
      (around : Surroundings) (first : Bool) {s : CutsceneState}
      → T s
      → T (trace_acceptance around first s)
  unfolding trace_acceptance
  trace_acceptance-IsTraced around first v = if-elim T _ (start_trace-IsTraced n around v) v

  note_acceptance-IsTraced :
      (around : Surroundings) (manager : ℕ) {s : CutsceneState}
      → T s
      → T (note_acceptance around manager s)
  unfolding note_acceptance note_skippable
  note_acceptance-IsTraced around manager v = record_sample-IsTraced n around _ (
      if-elim T _
        (record_sample-IsTraced n around _ (record { at_frame = v.at_frame; within = v.within })) v)

  pub accept_plus-IsTraced :
      (around : Surroundings) (first : Bool) (manager : ℕ) {s : CutsceneState}
      → T s
      → T (accept_plus around first manager s)
  unfolding accept_plus
  accept_plus-IsTraced around first manager v = grind (arith, note_acceptance-IsTraced)

  miss_a-IsTraced : (around : Surroundings) {s : CutsceneState} → T s → T (miss_a around s)
  unfolding miss_a
  miss_a-IsTraced around v = grind (arith, record_sample-IsTraced n)

  trace_blank-IsTraced :
      (around : Surroundings) {s : CutsceneState} → T s → T (trace_blank around s)
  unfolding trace_blank
  trace_blank-IsTraced around v = if-elim T _ (record_sample-IsTraced n around _ v) v

  enter_event-IsTraced : {s : CutsceneState} → T s → T (enter_event s)
  unfolding enter_event
  enter_event-IsTraced v = record { at_frame = v.at_frame; within = v.within }

  pub begin_event_update-IsTraced :
      (around : Surroundings) {s : CutsceneState} → T s → T (begin_event_update around s)
  unfolding begin_event_update
  begin_event_update-IsTraced around v =
      trace_blank-IsTraced around (miss_a-IsTraced around (enter_event-IsTraced v))

  pub skip_finalize-IsTraced :
      (around : Surroundings) (menu : ℕ) {s : CutsceneState} → T s → T (skip_finalize around menu s)
  unfolding skip_finalize cancel_confirmation
  skip_finalize-IsTraced around menu v = grind (arith, record_sample-IsTraced n)

  -- The layers.
  queue_a-IsTraced :
      (around : Surroundings) (u : LayerUpdate) (enabled : ℕ) {s : CutsceneState}
      → T s
      → T (queue_a around u enabled s)
  unfolding queue_a
  queue_a-IsTraced around u enabled v =
      record_sample-IsTraced n around _ (record { at_frame = v.at_frame; within = v.within })

  before_layer-IsTraced :
      (around : Surroundings) (u : LayerUpdate) (enabled : ℕ) {s : CutsceneState}
      → T s
      → T (before_layer around u enabled s)
  unfolding before_layer
  before_layer-IsTraced around u enabled v = if-elim T _ (queue_a-IsTraced around u enabled v) v

  note_result-IsTraced :
      (around : Surroundings) (u : LayerUpdate) (enabled : ℕ) {s : CutsceneState}
      → T s
      → T (note_result around u enabled s)
  unfolding note_result
  note_result-IsTraced around u enabled v = grind (arith, record_sample-IsTraced n)

  note_offer-IsTraced :
      (around : Surroundings) (u : LayerUpdate) (enabled : ℕ) {s : CutsceneState}
      → T s
      → T (note_offer around u enabled s)
  unfolding note_offer
  note_offer-IsTraced around u enabled v =
      record_sample-IsTraced n around _ (record { at_frame = v.at_frame; within = v.within })

  observe_a-IsTraced :
      (around : Surroundings) (u : LayerUpdate) (enabled : ℕ) {s : CutsceneState}
      → T s
      → T (observe_a around u enabled s)
  unfolding observe_a
  observe_a-IsTraced around u enabled v =
      let w = note_result-IsTraced around u enabled (note_offer-IsTraced around u enabled v) in
      ground (arith, w)

  store_snapshot-IsTraced :
      (index : ℕ) (new : LayerSnapshot) {s : CutsceneState} → T s → T (store_snapshot index new s)
  unfolding store_snapshot
  store_snapshot-IsTraced index new v = record {
    at_frame = v.at_frame;
    within = record {
      bounded = v.within.bounded;
      started = v.within.started;
      framed = v.within.framed;
    };
  }

  take_snapshot-IsTraced :
      (around : Surroundings) (u : LayerUpdate) (enabled index : ℕ) {s : CutsceneState}
      → T s
      → T (take_snapshot around u enabled index s)
  unfolding take_snapshot
  take_snapshot-IsTraced around u enabled index v =
      let w = store_snapshot-IsTraced index (snapshot_of u enabled) v in
      if-elim T _ (record_sample-IsTraced n around _ w) w

  observe_layer-IsTraced :
      (around : Surroundings) (u : LayerUpdate) (enabled index : ℕ) {s : CutsceneState}
      → T s
      → T (observe_layer around u enabled index s)
  unfolding observe_layer
  observe_layer-IsTraced around u enabled index v =
      if-elim T _ (before_layer-IsTraced around u enabled v)
        (take_snapshot-IsTraced around u enabled index (observe_a-IsTraced around u enabled v))

  drop_layer-IsTraced : {s : CutsceneState} → T s → T (drop_layer s)
  unfolding drop_layer
  drop_layer-IsTraced v = record {
    at_frame = v.at_frame;
    within = record {
      bounded = v.within.bounded;
      started = v.within.started;
      framed = v.within.framed;
    };
  }

  find_layer-IsTraced :
      (around : Surroundings) (u : LayerUpdate) (enabled : ℕ) {s : CutsceneState}
      → T s
      → T (find_layer around u enabled s)
  unfolding find_layer
  find_layer-IsTraced around u enabled {s} v =
      option-cases T (snapshot_for u.input_layer s.log.snapshots) (λ _. drop_layer-IsTraced v)
        (λ index _. observe_layer-IsTraced around u enabled index v)

  pub on_input_layer_update-IsTraced :
      (around : Surroundings) (u : LayerUpdate) {s : CutsceneState}
      → T s
      → T (on_input_layer_update around u s)
  unfolding on_input_layer_update
  on_input_layer_update-IsTraced around u {s} v =
      if-elim T
        (u.input_layer == 0 || not (is_waiting_for_a s.phase) && not s.a_attempt_in_progress) v
        (if-elim T _ v (find_layer-IsTraced around u (layer_enabled_mask s.input u.input_layer) v))
