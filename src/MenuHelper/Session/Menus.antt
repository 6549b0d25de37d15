-- ===== src/MenuHelper/Session/Menus.antt =====
-- The events of the menus keep the helper and the input buffer in agreement.
use xenomods.Base.{
  ℕ, true, false, not, ◌&&◌, ◌||◌, ◌==◌, if◌then◌else◌, refl, ◌∙◌, if-elim, if-cases, inl,
}
use xenomods.InputBuffer.Api.{
  set_accepted_action_capture, set_playback_override, set_aux_core_amount_menu,
  reset_aux_core_amount_input,
}
use xenomods.MenuHelper.{
  shop, menu, travel, same_kind, recording, same_state, is_playback_active, HelperData,
}
use xenomods.MenuHelper.Sandbox.{on_sandbox_menu_opened, on_sandbox_menu_closed}
use xenomods.MenuHelper.Events.{
  not_armed, open_shop, on_shop_opened, no_shop_playback, on_shop_input_disabled,
  on_shop_input_enabled, begin_aux_core_shop, rearm_playback, rearm_recording,
  on_aux_core_shop_opening, on_aux_core_list_input_enabled, open_aux_core_shop,
  on_aux_core_shop_input_ready, end_aux_core_shop, on_menu_opening, open_main_menu, on_menu_opened,
  ready_main_menu, on_menu_input_enabled, on_tutorial_blade_bond_requested, on_travel_opening,
  on_travel_button_finished, open_travel_menu, on_travel_opened, close_shop, close_main_menu,
  close_travel_menu,
}
use xenomods.MenuHelper.Session.Agreement.{IsConsistent, begin-IsConsistent, recording-inactive}

pub sandbox-IsConsistent :
    (h : HelperData) → IsConsistent h → IsConsistent (on_sandbox_menu_opened h)
unfolding on_sandbox_menu_opened
sandbox-IsConsistent h c =
    if-elim IsConsistent (not h.sandbox_mode || h.sandbox.sandbox_data_active) c
      (record { override = c.override; offer = c.offer })

open_shop-IsConsistent : (h : HelperData) → IsConsistent h → IsConsistent (open_shop h)
unfolding open_shop
open_shop-IsConsistent h c =
    sandbox-IsConsistent
      (record h {
        shop_open = true;
        shop_transition_blocked = if h.shop_open then h.shop_transition_blocked else false;
      })
      (record { override = c.override; offer = c.offer })

pub on_shop_opened-IsConsistent :
    (h : HelperData) → IsConsistent h → IsConsistent (on_shop_opened h)
unfolding on_shop_opened
on_shop_opened-IsConsistent h c = if-elim IsConsistent (h.shop_open && not_armed h.state) c (
    if-elim IsConsistent (open_shop h).aux_core_shop_session (open_shop-IsConsistent h c)
      (begin-IsConsistent shop (open_shop h) (open_shop-IsConsistent h c)))

pub shop_input-IsConsistent :
    (h : HelperData)
    → IsConsistent h
    → IsConsistent (on_shop_input_disabled h) × IsConsistent (on_shop_input_enabled h)
unfolding on_shop_input_disabled on_shop_input_enabled
shop_input-IsConsistent h c = (
  if-elim IsConsistent (no_shop_playback h) c (record { override = c.override; offer = c.offer }),
  if-elim IsConsistent (no_shop_playback h) c (record { override = c.override; offer = c.offer }),
)

pub aux_core_opening-IsConsistent :
    (h : HelperData) → IsConsistent h → IsConsistent (on_aux_core_shop_opening h)
unfolding on_aux_core_shop_opening begin_aux_core_shop rearm_playback rearm_recording
    set_playback_override set_accepted_action_capture
aux_core_opening-IsConsistent h c =
    if-elim IsConsistent (not (same_kind h.active_kind shop))
      (record { override = c.override; offer = c.offer })
      (if-elim IsConsistent (is_playback_active h.state)
        (record { override = refl; offer = inl refl })
        (if-cases IsConsistent (same_state h.state recording)
          (λ e. record { override = c.override ∙ recording-inactive h.state e; offer = c.offer })
          (λ _. record { override = c.override; offer = c.offer })))

pub aux_core_ready-IsConsistent :
    (h : HelperData) → IsConsistent h → IsConsistent (on_aux_core_shop_input_ready h)
unfolding on_aux_core_shop_input_ready open_aux_core_shop
aux_core_ready-IsConsistent h c = if-elim IsConsistent (not h.aux_core_shop_waiting_for_input) c (
    begin-IsConsistent shop (open_aux_core_shop h)
      (record { override = c.override; offer = c.offer }))

pub list_input-IsConsistent :
    (handle : ℕ) (h : HelperData)
    → IsConsistent h
    → IsConsistent (on_aux_core_list_input_enabled handle h)
unfolding on_aux_core_list_input_enabled
list_input-IsConsistent handle h c =
    if-elim IsConsistent (not h.aux_core_shop_waiting_for_input || handle == 0) c
      (record { override = c.override; offer = c.offer })

open_main_menu-IsConsistent : (h : HelperData) → IsConsistent h → IsConsistent (open_main_menu h)
unfolding open_main_menu
open_main_menu-IsConsistent h c =
    sandbox-IsConsistent (record h { main_menu_open = true; main_menu_opening = false })
      (record { override = c.override; offer = c.offer })

pub on_menu_opened-IsConsistent :
    (h : HelperData) → IsConsistent h → IsConsistent (on_menu_opened h)
unfolding on_menu_opened
on_menu_opened-IsConsistent h c = if-elim IsConsistent (h.main_menu_open && not_armed h.state) c (
    if-elim IsConsistent (open_main_menu h).main_menu_input_ready
      (begin-IsConsistent menu (open_main_menu h) (open_main_menu-IsConsistent h c))
      (open_main_menu-IsConsistent h c))

pub on_menu_input_enabled-IsConsistent :
    (h : HelperData) → IsConsistent h → IsConsistent (on_menu_input_enabled h)
unfolding on_menu_input_enabled ready_main_menu
on_menu_input_enabled-IsConsistent h c =
    if-elim IsConsistent (not h.main_menu_open && not h.main_menu_opening) c (
      if-elim IsConsistent h.main_menu_open
        (begin-IsConsistent menu (ready_main_menu h)
          (record { override = c.override; offer = c.offer }))
        (record { override = c.override; offer = c.offer }))

open_travel_menu-IsConsistent :
    (h : HelperData) → IsConsistent h → IsConsistent (open_travel_menu h)
unfolding open_travel_menu
open_travel_menu-IsConsistent h c =
    sandbox-IsConsistent (record h { travel_menu_open = true; travel_menu_opening = false })
      (record { override = c.override; offer = c.offer })

pub on_travel_opened-IsConsistent :
    (h : HelperData) → IsConsistent h → IsConsistent (on_travel_opened h)
unfolding on_travel_opened
on_travel_opened-IsConsistent h c =
    if-elim IsConsistent (h.travel_menu_open && not_armed h.state) c
      (begin-IsConsistent travel (open_travel_menu h) (open_travel_menu-IsConsistent h c))

pub end_aux_core_shop-IsConsistent :
    (h : HelperData) → IsConsistent h → IsConsistent (end_aux_core_shop h)
unfolding end_aux_core_shop set_aux_core_amount_menu reset_aux_core_amount_input
end_aux_core_shop-IsConsistent h c = record { override = c.override; offer = c.offer }

-- The menus that open and close without a session.
pub menus-IsConsistent :
    (h : HelperData)
    → IsConsistent h
    → IsConsistent (on_menu_opening h)
      × IsConsistent (on_tutorial_blade_bond_requested h)
      × IsConsistent (on_travel_opening h)
      × IsConsistent (on_travel_button_finished h)
      × IsConsistent (close_shop h)
      × IsConsistent (close_main_menu h)
      × IsConsistent (close_travel_menu h)
unfolding on_menu_opening on_tutorial_blade_bond_requested on_travel_opening
    on_travel_button_finished close_shop close_main_menu close_travel_menu on_sandbox_menu_closed
menus-IsConsistent h c = (
  record { override = c.override; offer = c.offer },
  record { override = c.override; offer = c.offer },
  record { override = c.override; offer = c.offer },
  if-elim IsConsistent (not h.travel_menu_open) (record { override = c.override; offer = c.offer })
      c,
  record { override = c.override; offer = c.offer },
  record { override = c.override; offer = c.offer },
  record { override = c.override; offer = c.offer },
)
