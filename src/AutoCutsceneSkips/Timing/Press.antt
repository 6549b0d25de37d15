-- ===== src/AutoCutsceneSkips/Timing/Press.antt =====
-- The press of A in the sixth frame after the game has accepted +, in
-- src/xenomods/modules/AutoCutsceneSkips.cpp.
use xenomods.Base.{
  ℕ, zero, suc, ◌+◌, ◌^◌, ◌<◌, true, false, not, ◌&&◌, ◌||◌, ◌==◌, ◌!=◌, List, ◌≡◌, ◌≢◌, refl, sym,
  ◌∙◌, ap, bit_and, some, if-elim, if_true, if_false, option-cases, arith,
}
use mathlib.Core.Path.{subst}
use xenomods.InputBuffer.State.{InputState, LayerUpdate}
use xenomods.InputBuffer.Api.{request_auto_ui_action}
use xenomods.AutoCutsceneSkips.{
  a_queued, CutsceneState, LayerSnapshot, Surroundings, a_button_mask, is_waiting_for_a,
}
use xenomods.AutoCutsceneSkips.Trace.{record_sample, snapshot_for}
use xenomods.AutoCutsceneSkips.Hooks.{count_native_frame, begin_event_update, end_event_update}
use xenomods.AutoCutsceneSkips.Layer.{
  layer_enabled_mask, queue_a, before_layer, observe_layer, find_layer, on_input_layer_update,
}
use xenomods.AutoCutsceneSkips.Timing.{
  confirmation_frame, confirmation_frames, Awaits, event_updated-Awaits, drop_layer-Awaits,
  is_a_frame-Awaits, a_frame-Awaits,
}

-- The frames from the last one on.
confirmation_frames-suc :
    (m : ℕ) (around : Surroundings) (u : LayerUpdate) (s : CutsceneState)
    → confirmation_frames (suc m) around u s
      ≡ confirmation_frame around u (confirmation_frames m around u s)
unfolding confirmation_frames
confirmation_frames-suc zero around u s = refl
confirmation_frames-suc (suc m) around u s =
    confirmation_frames-suc m around u (confirmation_frame around u s)

module _ (n object : ℕ) (i : InputState) (snapshots : List LayerSnapshot)
    (counts : n + 8 < 2 ^ 64) where
  observe_layer-waits :
      (k : ℕ) (around : Surroundings) (u : LayerUpdate) (enabled index : ℕ) (s : CutsceneState)
      → u.after_update ≡ false
      → k < 6
      → Awaits n k object i snapshots s
      → observe_layer around u enabled index s ≡ s
  unfolding observe_layer before_layer
  observe_layer-waits k around u enabled index s b h v =
      if_true _ (ap not b)
      ∙ if_false _ (is_a_frame-Awaits n object i snapshots counts k u enabled s h v)

  find_layer-Awaits :
      (k : ℕ) (around : Surroundings) (u : LayerUpdate) (enabled : ℕ) (s : CutsceneState)
      → u.after_update ≡ false
      → k < 6
      → Awaits n k object i snapshots s
      → Awaits n k object i snapshots (find_layer around u enabled s)
  unfolding find_layer
  find_layer-Awaits k around u enabled s b h v =
      option-cases (Awaits n k object i snapshots) (snapshot_for u.input_layer s.log.snapshots)
        (λ _. drop_layer-Awaits n object i snapshots counts k s v)
        (λ index _.
          subst (Awaits n k object i snapshots)
            (sym (observe_layer-waits k around u enabled index s b h v)) v)

  layer-Awaits :
      (k : ℕ) (around : Surroundings) (u : LayerUpdate) (s : CutsceneState)
      → u.after_update ≡ false
      → k < 6
      → Awaits n k object i snapshots s
      → Awaits n k object i snapshots (on_input_layer_update around u s)
  unfolding on_input_layer_update
  layer-Awaits k around u s b h v =
      let found = find_layer-Awaits k around u (layer_enabled_mask s.input u.input_layer) s b h v in
      if-elim (Awaits n k object i snapshots)
        (u.input_layer == 0 || not (is_waiting_for_a s.phase) && not s.a_attempt_in_progress) v
        (if-elim (Awaits n k object i snapshots) _ v found)

  confirmation_frames-Awaits :
      (m : ℕ) (around : Surroundings) (u : LayerUpdate) (s : CutsceneState)
      → u.after_update ≡ false
      → m < 6
      → Awaits n 0 object i snapshots s
      → Awaits n m object i snapshots (confirmation_frames m around u s)
  unfolding confirmation_frame confirmation_frames
  confirmation_frames-Awaits zero around u s b h v = v
  confirmation_frames-Awaits (suc m) around u s b h v =
      subst (Awaits n (suc m) object i snapshots) (sym (confirmation_frames-suc m around u s)) (
        layer-Awaits (suc m) around u _ b h (
          event_updated-Awaits n object i snapshots counts m around _ (omega (arith, h))
            (confirmation_frames-Awaits m around u s b (omega (arith, h)) v)))

  find_layer-found :
      (around : Surroundings) (u : LayerUpdate) (enabled index : ℕ) (s : CutsceneState)
      → snapshot_for u.input_layer s.log.snapshots ≡ some index
      → find_layer around u enabled s ≡ observe_layer around u enabled index s
  unfolding find_layer
  find_layer-found around u enabled index s found = rw (found, find_layer) refl

  -- The update of the confirmation layer in the sixth frame.
  layer-queues :
      (around : Surroundings) (u : LayerUpdate) (index : ℕ) (s : CutsceneState)
      → u.after_update ≡ false
      → u.input_layer ≢ 0
      → u.object ≡ object
      → bit_and (layer_enabled_mask s.input u.input_layer) a_button_mask ≢ 0
      → snapshot_for u.input_layer s.log.snapshots ≡ some index
      → Awaits n 6 object i snapshots s
      → on_input_layer_update around u s
        ≡ queue_a around u (layer_enabled_mask s.input u.input_layer) s
  unfolding on_input_layer_update observe_layer before_layer
  layer-queues around u index s b l o m found v =
      let enabled = layer_enabled_mask s.input u.input_layer in
      if_false s (awaited (ground arith))
      ∙ if_false s (of_layer (ground arith))
      ∙ find_layer-found around u enabled index s found
      ∙ if_true _ (ap not b)
      ∙ if_true s (a_frame-Awaits n object i snapshots counts u enabled s o m v)
    where
      awaited :
          is_waiting_for_a s.phase ≡ true
          → (u.input_layer == 0 || not (is_waiting_for_a s.phase) && not s.a_attempt_in_progress)
            ≡ false
      awaited p = ground arith

      of_layer :
          u.object ≡ s.confirmation_object
          → (bit_and (layer_enabled_mask s.input u.input_layer) a_button_mask == 0
              && u.object != s.confirmation_object)
            ≡ false
      of_layer p = ground arith

  -- When the game has accepted + and the tool awaits the confirmation layer of an object, which shows
  -- A and has an entry among the snapshots, then in the five frames that follow the input buffer
  -- stays as it is and A is still awaited, and in the sixth A is queued and requested for that
  -- object.
  pub confirmation_frames-queues :
      (m : ℕ) (around : Surroundings) (u : LayerUpdate) (index : ℕ) (s : CutsceneState)
      → u.after_update ≡ false
      → u.input_layer ≢ 0
      → u.object ≡ object
      → bit_and (layer_enabled_mask i u.input_layer) a_button_mask ≢ 0
      → snapshot_for u.input_layer snapshots ≡ some index
      → m < 6
      → Awaits n 0 object i snapshots s
      → Awaits n m object i snapshots (confirmation_frames m around u s)
        × ((confirmation_frames 6 around u s).phase ≡ a_queued)
        × ((confirmation_frames 6 around u s).input ≡ request_auto_ui_action object a_button_mask i)
  unfolding confirmation_frame queue_a record_sample
  confirmation_frames-queues m around u index s b l o e found h v =
      let before = confirmation_frames-Awaits 5 around u s b (omega arith) v in
      let t : CutsceneState =
        end_event_update
          (begin_event_update around (count_native_frame (confirmation_frames 5 around u s))) in
      let w = event_updated-Awaits n object i snapshots counts 5 around _ (omega arith) before in
      let queued =
        confirmation_frames-suc 5 around u s
        ∙ layer-queues around u index t b l o
            (subst (λ j. bit_and (layer_enabled_mask j u.input_layer) a_button_mask ≢ 0)
              (sym w.same_input) e)
            (subst (λ l. snapshot_for u.input_layer l ≡ some index) (sym w.same_snapshots) found)
            w in
      (
        confirmation_frames-Awaits m around u s b h v,
        ap (λ (c : CutsceneState). c.phase) queued,
        ap (λ (c : CutsceneState). c.input) queued
            ∙ ap (λ j. request_auto_ui_action j a_button_mask t.input) w.of_object
            ∙ ap (request_auto_ui_action object a_button_mask) w.same_input,
      )
