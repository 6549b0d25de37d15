-- ===== src/MenuHelper/Session/Invariant.antt =====
-- Every event keeps the helper and the input buffer in agreement.
use xenomods.Base.{
  Bool, true, false, not, ◌&&◌, ◌||◌, ◌!=◌, List, [], ◌∷◌, ◌≡◌, refl, arith, ◌∙◌, if-elim, if-cases,
  inl,
}
use xenomods.InputBuffer.State.{AcceptedAction, InputState, physical, playback}
use xenomods.InputBuffer.Api.{
  playback_action_pending, finish_playback_action, complete_playback_action, invoke,
}
use xenomods.MenuHelper.{shop, menu, travel, recording, playing, same_state, Recording, HelperData}
use xenomods.MenuHelper.Playback.{
  record_action, advance_playback, has_input, on_accepted_action, session_open, same_action,
}
use xenomods.MenuHelper.Events.{
  end_aux_core_shop, nothing_to_close, close_shop, close_main_menu, close_travel_menu,
  on_shop_closed, on_menu_closed, on_travel_closed,
}
use xenomods.MenuHelper.Session.{
  helper_client, complete_action, Event, shop_opened, shop_input_disabled, shop_input_enabled,
  aux_core_shop_opening, aux_core_shop_input_ready, shop_closed, menu_opening, menu_opened,
  menu_input_enabled, menu_closed, blade_bond_requested, travel_opening, travel_button_finished,
  travel_opened, travel_closed, scene_changed, recording_armed, playback_cancelled,
  action_completed, aux_core_list_input_enabled, playback_armed, frame, physical_action, step, run,
}
use xenomods.MenuHelper.Session.Agreement.{IsConsistent, end-IsConsistent}
use xenomods.MenuHelper.Session.Menus.{
  on_shop_opened-IsConsistent, shop_input-IsConsistent, aux_core_opening-IsConsistent,
  aux_core_ready-IsConsistent, list_input-IsConsistent, on_menu_opened-IsConsistent,
  on_menu_input_enabled-IsConsistent, on_travel_opened-IsConsistent, end_aux_core_shop-IsConsistent,
  menus-IsConsistent,
}
use xenomods.MenuHelper.Session.Transitions.{
  arm_recording-IsConsistent, arm_named_playback-IsConsistent, cancel-IsConsistent,
  update-IsConsistent, scene-IsConsistent,
}

record_action-IsConsistent :
    (a : AcceptedAction) (h : HelperData) → IsConsistent h → IsConsistent (record_action a h)
unfolding record_action
record_action-IsConsistent a h c =
    if-elim IsConsistent
      (h.last_recorded_frame != h.update_frame || not (same_action h.last_recorded_action a))
      (record { override = c.override; offer = c.offer }) c

advance-IsConsistent :
    (a : AcceptedAction) (h : HelperData)
    → IsConsistent h
    → h.input.playback_action.input ≡ 0
    → IsConsistent (advance_playback a h)
unfolding advance_playback
advance-IsConsistent a h c empty = record { override = c.override; offer = inl empty }

physical-IsConsistent :
    (a : AcceptedAction) (h : HelperData)
    → IsConsistent h
    → IsConsistent (on_accepted_action a physical h)
unfolding on_accepted_action
physical-IsConsistent a h c =
    if-elim IsConsistent (same_state h.state recording && session_open h && true)
      (record_action-IsConsistent a h c)
      (if-cases IsConsistent
        (same_state h.state playing
          && false
          && has_input h.playback_actions h.playback_index a.input)
        (λ e. absurd (never (same_state h.state playing) _ e)) (λ _. c))
  where
    never : (x y : Bool) → (x && false && y) ≡ true → ⊥
    never x y e = ground arith

pub played-IsConsistent :
    (a : AcceptedAction) (h : HelperData)
    → IsConsistent h
    → h.input.playback_action.input ≡ 0
    → IsConsistent (on_accepted_action a playback h)
unfolding on_accepted_action
played-IsConsistent a h c empty =
    if-elim IsConsistent (same_state h.state recording && session_open h && false)
      (record_action-IsConsistent a h c)
      (if-elim IsConsistent
        (same_state h.state playing
          && true
          && has_input h.playback_actions h.playback_index a.input)
        (advance-IsConsistent a h c empty) c)

-- After the input buffer has completed its action it offers none, and the override is as before.
pub record Emptied (i : InputState) (active : Bool) : Type 0 where
  pub still : i.playback_override_active ≡ active
  pub empty : i.playback_action.input ≡ 0

pub finish-Emptied :
    (i : InputState) → Emptied (finish_playback_action helper_client i) i.playback_override_active
unfolding finish_playback_action complete_playback_action invoke
finish-Emptied i =
    if-elim (λ (j : InputState). Emptied j i.playback_override_active) i.accepted_action_callback
      (record { still = refl; empty = refl }) (record { still = refl; empty = refl })

pub complete-IsConsistent : (h : HelperData) → IsConsistent h → IsConsistent (complete_action h)
unfolding complete_action
complete-IsConsistent h c =
    let h1 = record h { input = finish_playback_action helper_client h.input } in
    let f = finish-Emptied h.input in
    let c1 : IsConsistent h1 = record { override = f.still ∙ c.override; offer = inl f.empty } in
    if-elim IsConsistent (playback_action_pending h.input)
      (if-elim IsConsistent h.input.accepted_action_callback
        (played-IsConsistent h.input.playback_action h1 c1 f.empty) c1)
      c

module _ (saves : List Recording → Bool) where
  closed-IsConsistent :
      (h : HelperData)
      → IsConsistent h
      → IsConsistent (on_shop_closed saves h)
        × IsConsistent (on_menu_closed saves h)
        × IsConsistent (on_travel_closed saves h)
  unfolding on_shop_closed on_menu_closed on_travel_closed
  closed-IsConsistent h c =
      let h1 = end_aux_core_shop h in
      let c1 : IsConsistent h1 = end_aux_core_shop-IsConsistent h c in
      let m = menus-IsConsistent h c in
      let m1 = menus-IsConsistent h1 c1 in
      (
        if-elim IsConsistent (nothing_to_close shop h1.shop_open h1) c1
            (end-IsConsistent saves shop (close_shop h1) m1.4),
        if-elim IsConsistent (nothing_to_close menu h.main_menu_open h) c
            (end-IsConsistent saves menu (close_main_menu h) m.5),
        if-elim IsConsistent (nothing_to_close travel h.travel_menu_open h) c
            (end-IsConsistent saves travel (close_travel_menu h) m.6),
      )

  step-IsConsistent : (e : Event) (h : HelperData) → IsConsistent h → IsConsistent (step saves e h)
  unfolding step
  step-IsConsistent shop_opened h c = on_shop_opened-IsConsistent h c
  step-IsConsistent shop_input_disabled h c = (shop_input-IsConsistent h c).0
  step-IsConsistent shop_input_enabled h c = (shop_input-IsConsistent h c).1
  step-IsConsistent aux_core_shop_opening h c = aux_core_opening-IsConsistent h c
  step-IsConsistent aux_core_shop_input_ready h c = aux_core_ready-IsConsistent h c
  step-IsConsistent shop_closed h c = (closed-IsConsistent h c).0
  step-IsConsistent menu_opening h c = (menus-IsConsistent h c).0
  step-IsConsistent menu_opened h c = on_menu_opened-IsConsistent h c
  step-IsConsistent menu_input_enabled h c = on_menu_input_enabled-IsConsistent h c
  step-IsConsistent menu_closed h c = (closed-IsConsistent h c).1
  step-IsConsistent blade_bond_requested h c = (menus-IsConsistent h c).1
  step-IsConsistent travel_opening h c = (menus-IsConsistent h c).2
  step-IsConsistent travel_button_finished h c = (menus-IsConsistent h c).3
  step-IsConsistent travel_opened h c = on_travel_opened-IsConsistent h c
  step-IsConsistent travel_closed h c = (closed-IsConsistent h c).2
  step-IsConsistent scene_changed h c = scene-IsConsistent h c
  step-IsConsistent recording_armed h c = arm_recording-IsConsistent h c
  step-IsConsistent playback_cancelled h c = cancel-IsConsistent h c
  step-IsConsistent action_completed h c = complete-IsConsistent h c
  step-IsConsistent (aux_core_list_input_enabled handle) h c = list_input-IsConsistent handle h c
  step-IsConsistent (playback_armed kind name) h c = arm_named_playback-IsConsistent kind name h c
  step-IsConsistent (frame pressed) h c = update-IsConsistent pressed h c
  step-IsConsistent (physical_action a) h c = physical-IsConsistent a h c

  -- Events in any order keep this: the playback override of the input buffer is on exactly while
  -- the helper plays a recording back, and the buffer offers nothing or the very action at the
  -- helper's playback index.
  pub run-IsConsistent :
      (es : List Event) (h : HelperData) → IsConsistent h → IsConsistent (run saves es h)
  unfolding run
  run-IsConsistent [] h c = c
  run-IsConsistent (e ∷ es) h c = run-IsConsistent es (step saves e h) (step-IsConsistent e h c)
