-- ===== src/InputBuffer/Update/Replay.antt =====
-- A recorded UI action, played back, shows a layer the very mask that was recorded.
use xenomods.Base.{ℕ, ◌^◌, ◌<◌, bit_and, bit_or, true, ◌≡◌, ◌≢◌, arith, ◌∙◌, ap, sym, Option}
use xenomods.Word.Fields.{bit_and_ones}
use xenomods.InputBuffer.State.{InputState, PadData, AcceptedAction}
use xenomods.InputBuffer.Action.{is_aux_core_amount_playback_action, is_ui_pad_action, ui_pad_mask}
use xenomods.InputBuffer.Action.Encoding.{ui_pad_flag-mask}
use xenomods.InputBuffer.Layers.{
  playback_layer_matches, input_layer_accepts_mask, input_layer_accepts_ui_pad_action,
  input_layer_handle, input_layer_entry_count,
}
use xenomods.InputBuffer.Api.{is_idle}
use xenomods.InputBuffer.Pad.{get_pad_data_hook, capture_pad, copied, offer_playback}
use xenomods.InputBuffer.Pad.Offers.{SamePlayback, capture_pad-SamePlayback, enters-playback, Shows}
use xenomods.InputBuffer.Update.{captured_action}

display-lt : (s : InputState) (layer : ℕ) → (captured_action s layer).display < 2 ^ 30
unfolding captured_action
display-lt s layer =
    omega (arith, bit_and_ones 30 (bit_or s.active_ui_pad_data.word1 s.active_ui_pad_data.word3))

-- What a captured action's input word says.
captured-word :
    (s : InputState) (layer : ℕ)
    → let a = captured_action s layer in
      (is_ui_pad_action a.input ≡ true) × (bit_and a.input ui_pad_mask ≡ a.display)
captured-word s layer =
    let (u, _, m) = ui_pad_flag-mask (captured_action s layer).display (display-lt s layer) in
    unfold captured_action in (u, m)

accepts-SamePlayback :
    (s t : InputState) (layer mask : ℕ)
    → SamePlayback s t
    → input_layer_accepts_mask t layer mask ≡ input_layer_accepts_mask s layer mask
unfolding input_layer_accepts_mask input_layer_entry_count
accepts-SamePlayback s t layer mask v = rw v.memory

handle-SamePlayback :
    (s t : InputState) (layer : ℕ)
    → SamePlayback s t
    → input_layer_handle t layer ≡ input_layer_handle s layer
unfolding input_layer_handle
handle-SamePlayback s t layer v = rw v.registrations

module _ (a : AcceptedAction) (mask : ℕ) (t : InputState) (original : Option PadData) where
  offer_playback-accepts :
      t.playback_action ≡ a
      → is_ui_pad_action a.input ≡ true
      → bit_and a.input ui_pad_mask ≡ mask
      → a.layer ≢ 0
      → t.updating_input_layer ≢ 0
      → input_layer_handle t t.updating_input_layer ≡ a.layer
      → input_layer_accepts_mask t t.updating_input_layer mask ≡ true
      → Shows original mask (offer_playback (copied original) t).1
  unfolding offer_playback input_layer_accepts_ui_pad_action playback_layer_matches
      input_layer_entry_count is_aux_core_amount_playback_action
  offer_playback-accepts e u m h l r acc = rw (e, u, m, acc) (ground (arith, r, h, l))

-- An action captured from one layer whose handle is not 0: when it is the playback action, the
-- playback override is active, no automatic UI action is under way, and the layer that updates is
-- not null, has the same handle and accepts the captured mask, then that layer is shown exactly the
-- pressed bits that were captured.
pub captured_action-replay :
    (s : InputState) (source : ℕ) (t : InputState) (original : Option PadData)
    → (captured_action s source).layer ≢ 0
    → t.playback_action ≡ captured_action s source
    → t.playback_override_active ≡ true
    → is_idle t.auto_ui_action_phase ≡ true
    → t.updating_input_layer ≢ 0
    → input_layer_handle t t.updating_input_layer ≡ (captured_action s source).layer
    → input_layer_accepts_mask t t.updating_input_layer (captured_action s source).display ≡ true
    → Shows original (captured_action s source).display (get_pad_data_hook original t).1
captured_action-replay s source t original nonzero e p i l h acc =
    let v = capture_pad-SamePlayback original t in
    let (u, m) = captured-word s source in
    let q = capture_pad original t in
    rw (enters-playback original t p i) (
      offer_playback-accepts (captured_action s source) _ q original (v.action ∙ e) u m nonzero
        (λ z. l (sym v.layer ∙ z))
        (ap (input_layer_handle q) v.layer ∙ handle-SamePlayback t q t.updating_input_layer v ∙ h)
        (ap (λ (x : ℕ). input_layer_accepts_mask q x (captured_action s source).display) v.layer
          ∙ accepts-SamePlayback t q t.updating_input_layer _ v
          ∙ acc))
