-- ===== src/MenuHelper/Session/Frames.antt =====
-- A playback from frame to frame.
use mathlib.Core.Bool.{false≢true}
use mathlib.Core.List.{append_assoc}
use xenomods.Base.{
  ℕ, Bool, true, false, not, ◌==◌, ◌!=◌, List, [], ◌++◌, ◌≡◌, refl, ◌∙◌, sym, ap, if-elim, if-cases,
  option-cases, ◌⊎◌, inl, inr, none, get_elem?, drop, bit_and,
}
use xenomods.InputBuffer.State.{AcceptedAction, InputState}
use xenomods.InputBuffer.Api.{set_playback_action, set_frame_index}
use xenomods.MenuHelper.{
  HelperState, playing, waiting_for_shop_close, is_playback_active, HelperData,
}
use xenomods.MenuHelper.Playback.{cannot_queue, queue_next_playback_action}
use xenomods.MenuHelper.Control.{begin_frame, count_playback_frame, helper_update, abort_mask}
use xenomods.MenuHelper.Session.Agreement.{IsConsistent}
use xenomods.MenuHelper.Session.Transitions.{update-IsConsistent}

-- A playback that is under way, or has sent its last action; the input buffer reports to the helper.
pub record InPlay (h : HelperData) : Type 0 where
  pub agrees : IsConsistent h
  pub phase :
      (h.state ≡ playing)
      ⊎ ((h.state ≡ waiting_for_shop_close)
          × (get_elem? h.playback_actions h.playback_index ≡ none))
  pub told : h.input.accepted_action_callback ≡ true

-- A step of a playback that gives the game these actions, the next ones of the recording.
pub record Sends (h h' : HelperData) (sent : List AcceptedAction) : Type 0 where
  pub same_actions : h'.playback_actions ≡ h.playback_actions
  pub in_order :
      sent ++ drop h'.playback_index h.playback_actions ≡ drop h.playback_index h.playback_actions
  pub still : InPlay h'

-- Two steps send the actions of both.
pub join :
    {h h' h'' : HelperData} {xs ys : List AcceptedAction}
    → Sends h h' xs
    → Sends h' h'' ys
    → Sends h h'' (xs ++ ys)
join {h} {h'} {h''} {xs} {ys} u v = record {
  same_actions = v.same_actions ∙ u.same_actions;
  in_order =
      append_assoc xs ys (drop h''.playback_index h.playback_actions)
      ∙ ap (λ zs. xs ++ zs)
          (ap (λ acts. ys ++ drop h''.playback_index acts) (sym u.same_actions)
            ∙ v.in_order
            ∙ ap (drop h'.playback_index) u.same_actions)
      ∙ u.in_order;
  still = v.still;
}

-- Phase of a playback.
abbrev pub Phase : HelperData → Type 0
Phase h =
    (h.state ≡ playing)
    ⊎ ((h.state ≡ waiting_for_shop_close) × (get_elem? h.playback_actions h.playback_index ≡ none))

-- A step that sends nothing.
pub record Silent (h h' : HelperData) : Type 0 where
  pub kept_actions : h'.playback_actions ≡ h.playback_actions
  pub kept_index : h'.playback_index ≡ h.playback_index
  pub kept_phase : Phase h'
  pub kept_told : h'.input.accepted_action_callback ≡ true

silent : {h h' : HelperData} → Silent h h' → IsConsistent h' → Sends h h' []
silent {h} q c = record {
  same_actions = q.kept_actions;
  in_order = ap (λ n. drop n h.playback_actions) q.kept_index;
  still = record { agrees = c; phase = q.kept_phase; told = q.kept_told };
}

pub queue-Silent :
    (h : HelperData)
    → Phase h
    → h.input.accepted_action_callback ≡ true
    → Silent h (queue_next_playback_action h)
unfolding queue_next_playback_action set_playback_action
queue-Silent h p t =
    let same : Silent h h = record {
      kept_actions = refl;
      kept_index = refl;
      kept_phase = p;
      kept_told = t;
    } in
    if-elim (Silent h) (cannot_queue h) same (
      option-cases (Silent h) (get_elem? h.playback_actions h.playback_index)
        (λ e. record {
          kept_actions = refl;
          kept_index = refl;
          kept_phase = inr (refl, e);
          kept_told = t;
        })
        (λ a e.
          if-elim (λ (i : InputState). Silent h (record h { input = i }))
            h.input.playback_override_active
            (record { kept_actions = refl; kept_index = refl; kept_phase = p; kept_told = t })
            (record { kept_actions = refl; kept_index = refl; kept_phase = p; kept_told = t })))

pub active : (h : HelperData) → Phase h → is_playback_active h.state ≡ true
active h (inl e) = ap (λ (s : HelperState). is_playback_active s) e
active h (inr e) = ap (λ (s : HelperState). is_playback_active s) e.0

-- The abort buttons are all held.
abbrev pub aborts : ℕ → Bool
aborts pressed = bit_and pressed abort_mask == abort_mask

update-Silent :
    (pressed : ℕ) (h : HelperData)
    → aborts pressed ≡ false
    → InPlay h
    → Silent h (helper_update pressed h)
unfolding helper_update begin_frame count_playback_frame set_frame_index
update-Silent pressed h calm p =
    let running : not (is_playback_active h.state) ≡ false = ap not (active h p.phase) in
    let h2 = count_playback_frame (begin_frame h) in
    let q = queue-Silent h2 p.phase p.told in
    if-cases (Silent h) (not (is_playback_active h.state))
      (λ e. absurd (false≢true (sym running ∙ e)))
      (λ _.
        if-cases (Silent h) (aborts pressed) (λ e. absurd (false≢true (sym calm ∙ e)))
          (λ _.
            if-elim (Silent h) (h.playback_neutral_frames != 0)
              (record {
                kept_actions = refl;
                kept_index = refl;
                kept_phase = p.phase;
                kept_told = p.told;
              })
              (record {
                kept_actions = q.kept_actions;
                kept_index = q.kept_index;
                kept_phase = q.kept_phase;
                kept_told = q.kept_told;
              })))

-- A frame sends nothing.
pub update-Sends :
    (pressed : ℕ) (h : HelperData)
    → aborts pressed ≡ false
    → InPlay h
    → Sends h (helper_update pressed h) []
update-Sends pressed h calm p =
    silent (update-Silent pressed h calm p) (update-IsConsistent pressed h p.agrees)
