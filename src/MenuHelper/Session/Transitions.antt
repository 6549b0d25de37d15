-- ===== src/MenuHelper/Session/Transitions.antt =====
-- The calls of the tools, the frames and the scene changes keep the agreement.
use xenomods.Base.{
  ℕ, Bool, true, false, not, ◌&&◌, ◌||◌, ◌==◌, ◌!=◌, ◌≡◌, refl, arith, ◌∙◌, sym, if-elim, if-cases,
  option-cases, inl, some, get_elem?, length, bit_and, Text,
}
use xenomods.InputBuffer.Api.{set_accepted_action_capture, set_playback_override, set_frame_index}
use xenomods.MenuHelper.{
  RecordingKind, shop, menu, travel, same_kind, HelperState, idle, armed_record, recording,
  armed_playback, cancelled, same_state, is_playback_active, Recording, HelperData,
}
use xenomods.MenuHelper.Playback.{find_recording}
use xenomods.MenuHelper.Control.{
  arm_record, arm_recording, load_playback, join_session, arm_playback, arm_named_playback,
  is_playback_pending_or_active, cancel_active_playback, begin_frame, count_playback_frame,
  helper_update, abort_mask, close_menus, drop_playback, drop_session, stop_capture,
  on_scene_transition,
}
use xenomods.MenuHelper.Session.Agreement.{
  IsConsistent, stop_playback-IsConsistent, queue-IsConsistent,
}
use xenomods.MenuHelper.Session.Menus.{
  on_shop_opened-IsConsistent, on_menu_input_enabled-IsConsistent, on_travel_opened-IsConsistent,
  end_aux_core_shop-IsConsistent,
}

pub arm_recording-IsConsistent : (h : HelperData) → IsConsistent h → IsConsistent (arm_recording h)
unfolding arm_recording arm_record
arm_recording-IsConsistent h c =
    if-cases (λ (u : HelperData). IsConsistent (arm_record u)) (is_playback_active h.state)
      (λ _.
        let s = stop_playback-IsConsistent idle h refl in
        record { override = s.override; offer = s.offer })
      (λ off. record { override = c.override ∙ off; offer = c.offer })

join_session-IsConsistent : (h : HelperData) → IsConsistent h → IsConsistent (join_session h)
unfolding join_session
join_session-IsConsistent h c =
    if-elim IsConsistent (same_kind h.active_kind shop && h.shop_open)
      (on_shop_opened-IsConsistent h c)
      (if-elim IsConsistent
        (same_kind h.active_kind menu && h.main_menu_open && h.main_menu_input_ready)
        (on_menu_input_enabled-IsConsistent h c)
        (if-elim IsConsistent (same_kind h.active_kind travel && h.travel_menu_open)
          (on_travel_opened-IsConsistent h c) c))

load_playback-IsConsistent :
    (i : ℕ) (r : Recording) (h : HelperData) → IsConsistent (load_playback i r h)
unfolding load_playback set_playback_override
load_playback-IsConsistent i r h = record { override = refl; offer = inl refl }

arm_playback-IsConsistent : (h : HelperData) → IsConsistent h → IsConsistent (arm_playback h)
unfolding arm_playback
arm_playback-IsConsistent h c =
    option-cases IsConsistent h.selected_recording (λ _. c)
      (λ i _.
        option-cases IsConsistent (get_elem? h.recordings i) (λ _. c)
          (λ r _.
            join_session-IsConsistent (load_playback i r h) (load_playback-IsConsistent i r h)))

pub arm_named_playback-IsConsistent :
    (kind : RecordingKind) (name : Text) (h : HelperData)
    → IsConsistent h
    → IsConsistent (arm_named_playback kind name h).0
unfolding arm_named_playback
arm_named_playback-IsConsistent kind name h c =
    option-cases (λ (r : HelperData × Bool). IsConsistent r.0)
      (find_recording kind name 0 h.recordings) (λ _. c)
      (λ i _.
        arm_playback-IsConsistent (record h { selected_recording = some i })
          (record { override = c.override; offer = c.offer }))

pub cancel-IsConsistent :
    (h : HelperData) → IsConsistent h → IsConsistent (cancel_active_playback h)
unfolding cancel_active_playback
cancel-IsConsistent h c =
    if-elim IsConsistent (is_playback_pending_or_active h)
      (stop_playback-IsConsistent cancelled h refl) c

pub update-IsConsistent :
    (pressed : ℕ) (h : HelperData) → IsConsistent h → IsConsistent (helper_update pressed h)
unfolding helper_update begin_frame count_playback_frame set_frame_index
update-IsConsistent pressed h c =
    if-elim IsConsistent (not (is_playback_active h.state))
      (record { override = c.override; offer = c.offer })
      (if-elim IsConsistent (bit_and pressed abort_mask == abort_mask)
        (stop_playback-IsConsistent cancelled (begin_frame h) refl)
        (if-elim IsConsistent (h.playback_neutral_frames != 0)
          (record { override = c.override; offer = c.offer })
          (queue-IsConsistent (count_playback_frame (begin_frame h))
            (record { override = c.override; offer = c.offer }))))

drop_playback-IsConsistent :
    (preserve : Bool) (h : HelperData) → IsConsistent h → IsConsistent (drop_playback preserve h)
unfolding drop_playback
drop_playback-IsConsistent preserve h c =
    if-elim IsConsistent
      ((is_playback_active h.state || same_state h.state armed_playback) && not preserve)
      (stop_playback-IsConsistent cancelled h refl) c

drop_session-IsConsistent :
    (preserve : Bool) (h : HelperData) → IsConsistent h → IsConsistent (drop_session preserve h)
unfolding drop_session
drop_session-IsConsistent preserve h c =
    let u = drop_playback preserve h in
    let d : IsConsistent u = drop_playback-IsConsistent preserve h c in
    if-cases IsConsistent
      ((same_state u.state recording || same_state u.state armed_record) && not preserve)
      (λ e. record {
        override =
            d.override
            ∙ recordings-inactive u.state preserve e
            ∙ sym (
                if-elim (λ (s : HelperState). is_playback_active s ≡ false)
                  (length u.draft_actions == 0) refl refl);
        offer = d.offer;
      })
      (λ _. d)
  where
    recordings-inactive :
        (s : HelperState) (keep : Bool)
        → ((same_state s recording || same_state s armed_record) && not keep) ≡ true
        → is_playback_active s ≡ false
    recordings-inactive s keep e = ground arith

stop_capture-IsConsistent :
    (keep : Bool) (h : HelperData) → IsConsistent h → IsConsistent (stop_capture keep h)
unfolding stop_capture set_accepted_action_capture
stop_capture-IsConsistent keep h c =
    if-elim IsConsistent keep c (record { override = c.override; offer = c.offer })

close_menus-IsConsistent :
    (keep : Bool) (h : HelperData) → IsConsistent h → IsConsistent (close_menus keep h)
unfolding close_menus
close_menus-IsConsistent keep h c = record { override = c.override; offer = c.offer }

pub scene-IsConsistent : (h : HelperData) → IsConsistent h → IsConsistent (on_scene_transition h)
unfolding on_scene_transition
scene-IsConsistent h c = drop_session-IsConsistent _ _ (
    stop_capture-IsConsistent _ _
      (close_menus-IsConsistent _ _ (end_aux_core_shop-IsConsistent h c)))
