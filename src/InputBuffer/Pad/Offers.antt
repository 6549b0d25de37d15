-- ===== src/InputBuffer/Pad/Offers.antt =====
-- What a UI input layer is shown while a recording is played back.
use xenomods.Base.{
  false, sym, ap, ◌∙◌, if-elim, ap, inr, ◌∙◌, inl, ℕ, bit_and, true, ◌≡◌, ◌⊎◌, arith, Option, none,
  some,
}
use xenomods.InputBuffer.State.{AcceptedAction, InputState, PadData}
use xenomods.InputBuffer.Action.{ui_pad_mask}
use xenomods.InputBuffer.Layers.{playback_layer_matches}
use xenomods.InputBuffer.Api.{is_idle}
use xenomods.InputBuffer.Pad.{
  offer_scripted, capture_for_callback, await_neutral, capture_for_action, snapshot,
  get_pad_data_hook, capture_pad, copied, replace_words, offer_auto, offer_rest, offer_playback,
}

-- The captures change only the snapshot and the wait for a neutral pad.
pub record SamePlayback (s t : InputState) : Type 0 where
  pub calls : t.calls ≡ s.calls
  pub action : t.playback_action ≡ s.playback_action
  pub override : t.playback_override_active ≡ s.playback_override_active
  pub phase : t.auto_ui_action_phase ≡ s.auto_ui_action_phase
  pub layer : t.updating_input_layer ≡ s.updating_input_layer
  pub registrations : t.layer_registrations ≡ s.layer_registrations
  pub memory : t.layer_at ≡ s.layer_at
  pub aux_active : t.aux_core_amount_menu_active ≡ s.aux_core_amount_menu_active
  pub aux_object : t.aux_core_amount_menu_object ≡ s.aux_core_amount_menu_object

SamePlayback-refl : (s : InputState) → SamePlayback s s
SamePlayback-refl s = ground arith

SamePlayback-trans : {s t u : InputState} → SamePlayback s t → SamePlayback t u → SamePlayback s u
SamePlayback-trans v w = record {
  calls = w.calls ∙ v.calls;
  action = w.action ∙ v.action;
  override = w.override ∙ v.override;
  phase = w.phase ∙ v.phase;
  layer = w.layer ∙ v.layer;
  registrations = w.registrations ∙ v.registrations;
  memory = w.memory ∙ v.memory;
  aux_active = w.aux_active ∙ v.aux_active;
  aux_object = w.aux_object ∙ v.aux_object;
}

snapshot-SamePlayback : (d : PadData) (s : InputState) → SamePlayback s (snapshot d s)
snapshot-SamePlayback d s = ground arith

waited :
    (s : InputState)
    → SamePlayback s (record s { accepted_action_capture_waiting_for_neutral = false })
waited s = ground arith

pub capture_pad-SamePlayback :
    (original : Option PadData) (s : InputState) → SamePlayback s (capture_pad original s)
unfolding capture_pad
capture_pad-SamePlayback none s = SamePlayback-refl s
capture_pad-SamePlayback (some d) s =
    SamePlayback-trans (SamePlayback-trans (callback s) (neutral (capture_for_callback d s)))
      (action (await_neutral d (capture_for_callback d s)))
  where
    callback : (t : InputState) → SamePlayback t (capture_for_callback d t)
    callback t = if-elim (SamePlayback t) _ (snapshot-SamePlayback d t) (SamePlayback-refl t)

    neutral : (t : InputState) → SamePlayback t (await_neutral d t)
    neutral t = if-elim (SamePlayback t) _ (waited t) (SamePlayback-refl t)

    action : (t : InputState) → SamePlayback t (capture_for_action d t)
    action t = if-elim (SamePlayback t) _ (snapshot-SamePlayback d t) (SamePlayback-refl t)

pub matches-SamePlayback :
    (s t : InputState) (layer : ℕ)
    → SamePlayback s t
    → playback_layer_matches t layer ≡ playback_layer_matches s layer
unfolding playback_layer_matches
matches-SamePlayback s t layer v =
    rw (v.registrations, v.action, v.memory, v.aux_active, v.aux_object)

-- The pad words are all the same mask, over a copy of what the game would have read.
abbrev pub Shows : Option PadData → ℕ → Option PadData → Type 0
Shows original m r = r ≡ some (replace_words m (copied original))

offer_playback-Shows :
    (original : Option PadData) (s : InputState)
    → Shows original 0 (offer_playback (copied original) s).1
      ⊎ (Shows original
            (bit_and s.playback_action.input ui_pad_mask)
            (offer_playback (copied original) s).1
          × (playback_layer_matches s s.updating_input_layer ≡ true))
unfolding offer_playback
offer_playback-Shows original s = ground arith

pub enters-playback :
    (original : Option PadData) (s : InputState)
    → s.playback_override_active ≡ true
    → is_idle s.auto_ui_action_phase ≡ true
    → get_pad_data_hook original s ≡ offer_playback (copied original) (capture_pad original s)
unfolding get_pad_data_hook offer_auto offer_rest
enters-playback original s p i =
    let v = capture_pad-SamePlayback original s in rw (v.override, v.phase, p, i)

-- While a recording plays and no automatic UI action is under way, a UI input layer never sees the
-- controller: its three pad words are empty, or are the recorded mask, and the latter only for a
-- layer that matches the recorded one.
pub get_pad_data_hook-playback :
    (original : Option PadData) (s : InputState)
    → s.playback_override_active ≡ true
    → is_idle s.auto_ui_action_phase ≡ true
    → Shows original 0 (get_pad_data_hook original s).1
      ⊎ (Shows original
            (bit_and s.playback_action.input ui_pad_mask)
            (get_pad_data_hook original s).1
          × (playback_layer_matches s s.updating_input_layer ≡ true))
get_pad_data_hook-playback original s p i =
    rw (enters-playback original s p i) (elim (offer_playback-Shows original t) [
      | inl e ↦ inl e
      | inr (e, m) ↦ inr (
        e
            ∙ ap
                (λ (a : AcceptedAction).
                  some (replace_words (bit_and a.input ui_pad_mask) (copied original)))
                v.action,
        sym (matches-SamePlayback s t s.updating_input_layer v)
            ∙ ap (playback_layer_matches t) (sym v.layer)
            ∙ m,
      )
    ])
  where
    t : InputState
    t = capture_pad original s

    v : SamePlayback s t
    v = capture_pad-SamePlayback original s

offer_playback-calls : (d : PadData) (s : InputState) → (offer_playback d s).0.calls ≡ s.calls
unfolding offer_playback
offer_playback-calls d s = ground arith

offer_scripted-calls :
    (original : Option PadData) (s : InputState) → (offer_scripted original s).0.calls ≡ s.calls
unfolding offer_scripted
offer_scripted-calls original s = ground arith

-- Reading the pad data makes no call.
pub get_pad_data_hook-calls :
    (original : Option PadData) (s : InputState) → (get_pad_data_hook original s).0.calls ≡ s.calls
unfolding get_pad_data_hook offer_auto offer_rest
get_pad_data_hook-calls original s = ground (
  arith,
  (capture_pad-SamePlayback original s).calls,
  offer_playback-calls (copied original) (capture_pad original s),
  offer_scripted-calls original (capture_pad original s),
)
