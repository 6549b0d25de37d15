-- ===== src/AutoCutsceneSkips/Phases/Requests.antt =====
-- The updates of a layer that request A: OnInputLayerUpdate of
-- src/xenomods/modules/AutoCutsceneSkips.cpp.
use xenomods.Base.{
  ◌||◌, if-elim, option-cases, if-cases, bit_and, none, ℕ, Bool, true, false, not, ◌&&◌, ◌==◌, ◌!=◌,
  ◌≡◌, refl, ◌∙◌, bit_or, Option, some, arith,
}
use mathlib.Core.Path.{ap}
use xenomods.InputBuffer.State.{LayerUpdate}
use xenomods.InputBuffer.Api.{request_auto_ui_action, cancel_auto_ui_action}
use xenomods.AutoCutsceneSkips.{a_button_mask, CutsceneState, Surroundings, is_waiting_for_a}
use xenomods.AutoCutsceneSkips.Trace.{record_sample, snapshot_for}
use xenomods.AutoCutsceneSkips.Layer.{
  drop_layer, take_snapshot, store_snapshot, note_result, natively_accepted, observe_a, note_offer,
  layer_enabled_mask, queue_a, is_a_frame, before_layer, observe_layer, find_layer,
  on_input_layer_update,
}

abbrev has_entry : Option ℕ → Bool
has_entry none = false
has_entry (some index) = true

-- Whether OnInputLayerUpdate reaches the place where it requests A: a layer that is not null and
-- has its entry among the snapshots, before its update, in the frame of A.
unfoldable pub requests_a : LayerUpdate → CutsceneState → Bool
requests_a u s =
    not u.after_update
    && u.input_layer != 0
    && has_entry (snapshot_for u.input_layer s.log.snapshots)
    && is_a_frame u (layer_enabled_mask s.input u.input_layer) s

-- The input buffer is as in an earlier state, or the press of the confirmation object is taken back.
pub data OnlyCancels (s t : CutsceneState) : Type 0 where
  kept : t.input ≡ s.input → OnlyCancels s t
  taken_back : t.input ≡ cancel_auto_ui_action s.confirmation_object s.input → OnlyCancels s t

same_input-OnlyCancels :
    (s t t' : CutsceneState) → t'.input ≡ t.input → OnlyCancels s t → OnlyCancels s t'
same_input-OnlyCancels s t t' e (kept f) = kept (e ∙ f)
same_input-OnlyCancels s t t' e (taken_back f) = taken_back (e ∙ f)

-- An update that counts requests A for the confirmation object, and any other one does not.
abbrev pub LayerInput : CutsceneState → Bool → CutsceneState → Type 0
LayerInput s true t = t.input ≡ request_auto_ui_action s.confirmation_object a_button_mask s.input
LayerInput s false t = OnlyCancels s t

module _ (around : Surroundings) (u : LayerUpdate) (s : CutsceneState) where
  abbrev pub enabled_now : ℕ
  enabled_now = layer_enabled_mask s.input u.input_layer

  -- Where A is requested, the update is nothing but the request with its sample.
  pub requested-queue_a :
      requests_a u s ≡ true → on_input_layer_update around u s ≡ queue_a around u enabled_now s
  unfolding on_input_layer_update find_layer observe_layer before_layer requests_a is_a_frame
  requested-queue_a e = ground (arith, e)

  note_result-input :
      (enabled : ℕ) (v : CutsceneState)
      → v.confirmation_object ≡ s.confirmation_object
      → v.input ≡ s.input
      → OnlyCancels s (note_result around u enabled v)
  unfolding note_result record_sample
  note_result-input enabled v o i =
      if-cases (OnlyCancels s) (natively_accepted u) (λ _. kept i)
        (λ _. taken_back (rw (o, i) refl))

  observe_a-input : (enabled : ℕ) → OnlyCancels s (observe_a around u enabled s)
  unfolding observe_a note_offer record_sample
  observe_a-input enabled =
      let noted = note_result-input enabled (note_offer around u enabled s) refl refl in
      if-cases (OnlyCancels s)
        (s.a_attempt_in_progress
          && not s.a_attempt_observed
          && u.object == s.confirmation_object
          && bit_and (bit_or u.held_buttons u.down_buttons) a_button_mask != 0)
        (λ _. same_input-OnlyCancels s _ _ refl noted) (λ _. kept refl)

  take_snapshot-input :
      (enabled index : ℕ) (v : CutsceneState)
      → (take_snapshot around u enabled index v).input ≡ v.input
  unfolding take_snapshot store_snapshot record_sample
  take_snapshot-input enabled index v = ground arith

  before-input :
      requests_a u s ≡ false
      → u.after_update ≡ false
      → (on_input_layer_update around u s).input ≡ s.input
  unfolding on_input_layer_update find_layer observe_layer before_layer requests_a drop_layer
  before-input e b = ground (arith, e, b)

  after-input : u.after_update ≡ true → OnlyCancels s (on_input_layer_update around u s)
  unfolding on_input_layer_update find_layer observe_layer drop_layer
  after-input b =
      let enabled = layer_enabled_mask s.input u.input_layer in
      if-elim (OnlyCancels s)
        (u.input_layer == 0 || not (is_waiting_for_a s.phase) && not s.a_attempt_in_progress)
        (kept refl)
        (if-elim (OnlyCancels s)
          (bit_and enabled a_button_mask == 0 && u.object != s.confirmation_object) (kept refl)
          (option-cases (OnlyCancels s) (snapshot_for u.input_layer s.log.snapshots)
            (λ _. kept refl)
            (λ index _.
              if-cases (OnlyCancels s) (not u.after_update)
                (λ e. absurd (differ u.after_update b e))
                (λ _.
                  same_input-OnlyCancels s (observe_a around u enabled s)
                    (take_snapshot around u enabled index (observe_a around u enabled s))
                    (take_snapshot-input enabled index (observe_a around u enabled s))
                    (observe_a-input enabled)))))
    where
      differ : (x : Bool) → x ≡ true → not x ≡ true → ⊥
      differ x e f = ground (arith, e, f)

  -- What an update does to the input buffer, as it is counted.
  pub layer_input : LayerInput s (requests_a u s) (on_input_layer_update around u s)
  unfolding queue_a record_sample
  layer_input = found (requests_a u s) u.after_update refl refl
    where
      found :
          (pressed after : Bool)
          → requests_a u s ≡ pressed
          → u.after_update ≡ after
          → LayerInput s pressed (on_input_layer_update around u s)
      found true after e b = ap (λ (v : CutsceneState). v.input) (requested-queue_a e)
      found false true e b = after-input b
      found false false e b = kept (before-input e b)
