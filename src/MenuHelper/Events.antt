-- ===== src/MenuHelper/Events.antt =====
-- What the hooks on the game's menus tell the helper.
use xenomods.Base.{ℕ, Bool, true, false, not, ◌&&◌, ◌||◌, ◌==◌, List, [], if◌then◌else◌}
use xenomods.InputBuffer.State.{no_action, no_frame, standard_menu}
use xenomods.InputBuffer.Api.{
  set_accepted_action_capture, set_playback_override, set_aux_core_amount_menu,
  reset_aux_core_amount_input,
}
use xenomods.MenuHelper.{
  RecordingKind, shop, menu, travel, same_kind, HelperState, armed_record, recording,
  armed_playback, same_state, is_playback_active, Recording, HelperData,
}
use xenomods.MenuHelper.Sandbox.{on_sandbox_menu_opened, on_sandbox_menu_closed}
use xenomods.MenuHelper.Playback.{begin_active_session, end_active_session}

-- state != ArmedRecord && state != ArmedPlayback
unfoldable pub not_armed : HelperState → Bool
not_armed s = not (same_state s armed_record) && not (same_state s armed_playback)

-- The shop is open.
unfoldable pub open_shop : HelperData → HelperData
open_shop h = on_sandbox_menu_opened (record h {
  shop_open = true;
  shop_transition_blocked = if h.shop_open then h.shop_transition_blocked else false;
})

-- MenuHelper::OnShopOpened
unfoldable pub on_shop_opened : HelperData → HelperData
unfolding not_armed open_shop
on_shop_opened h =
    if h.shop_open && not_armed h.state
    then h
    else if (open_shop h).aux_core_shop_session
    then open_shop h
    else begin_active_session shop (open_shop h)

-- The early return of OnShopInputDisabled and OnShopInputEnabled.
unfoldable pub no_shop_playback : HelperData → Bool
no_shop_playback h =
    not h.shop_open
    || h.aux_core_shop_session
    || not (same_kind h.active_kind shop)
    || not (is_playback_active h.state)

-- MenuHelper::OnShopInputDisabled
unfoldable pub on_shop_input_disabled : HelperData → HelperData
unfolding no_shop_playback
on_shop_input_disabled h =
    if no_shop_playback h then h else record h { shop_transition_blocked = true }

-- MenuHelper::OnShopInputEnabled
unfoldable pub on_shop_input_enabled : HelperData → HelperData
unfolding no_shop_playback
on_shop_input_enabled h =
    if no_shop_playback h then h else record h { shop_transition_blocked = false }

-- The resets of OnAuxCoreShopOpening that come first.
unfoldable pub begin_aux_core_shop : HelperData → HelperData
begin_aux_core_shop h = record h {
  aux_core_shop_waiting_for_input = true;
  aux_core_shop_session = true;
  aux_core_list_input_handle = 0;
  aux_core_recipe_input_handle = 0;
  shop_transition_blocked = false;
}

-- A playback that the Aux core shop puts back to its start.
unfoldable pub rearm_playback : HelperData → HelperData
unfolding set_playback_override
rearm_playback h = record h {
  input = set_playback_override false standard_menu h.input;
  playback_index = 0;
  playback_neutral_frames = 0;
  playback_frames = 0;
  state = armed_playback;
}

-- A recording that it puts back to its start.
unfoldable pub rearm_recording : HelperData → HelperData
unfolding set_accepted_action_capture
rearm_recording h = record h {
  input = set_accepted_action_capture false h.input;
  draft_actions = [];
  last_recorded_frame = no_frame;
  last_recorded_action = no_action;
  state = armed_record;
}

-- MenuHelper::OnAuxCoreShopOpening
unfoldable pub on_aux_core_shop_opening : HelperData → HelperData
unfolding begin_aux_core_shop rearm_playback rearm_recording
on_aux_core_shop_opening h =
    let h1 = begin_aux_core_shop h in
    if not (same_kind h1.active_kind shop)
    then h1
    else if is_playback_active h1.state
    then rearm_playback h1
    else if same_state h1.state recording
    then rearm_recording h1
    else h1

-- MenuHelper::OnAuxCoreListInputEnabled
unfoldable pub on_aux_core_list_input_enabled : ℕ → HelperData → HelperData
on_aux_core_list_input_enabled handle h =
    if not h.aux_core_shop_waiting_for_input || handle == 0
    then h
    else record h { aux_core_list_input_handle = handle }

-- The Aux core shop is open.
unfoldable pub open_aux_core_shop : HelperData → HelperData
open_aux_core_shop h = record h {
  aux_core_shop_waiting_for_input = false;
  aux_core_list_input_handle = 0;
  shop_open = true;
}

-- MenuHelper::OnAuxCoreShopInputReady
unfoldable pub on_aux_core_shop_input_ready : HelperData → HelperData
unfolding open_aux_core_shop
on_aux_core_shop_input_ready h =
    if not h.aux_core_shop_waiting_for_input
    then h
    else begin_active_session shop (open_aux_core_shop h)

-- The resets of the Aux core shop, in OnShopClosed and OnSceneTransition.
unfoldable pub end_aux_core_shop : HelperData → HelperData
unfolding set_aux_core_amount_menu reset_aux_core_amount_input
end_aux_core_shop h = record h {
  aux_core_recipe_open = false;
  aux_core_shop_waiting_for_input = false;
  aux_core_shop_session = false;
  aux_core_list_input_handle = 0;
  aux_core_recipe_input_handle = 0;
  shop_transition_blocked = false;
  input = reset_aux_core_amount_input (set_aux_core_amount_menu false 0 h.input);
}

-- The two early returns of a handler for a closed menu.
unfoldable pub nothing_to_close : RecordingKind → (is_open : Bool) → HelperData → Bool
nothing_to_close kind is_open h =
    (not (same_kind h.active_kind kind) && not is_open)
    || (not is_open && not (same_state h.state recording) && not (is_playback_active h.state))

-- MenuHelper::OnMenuOpening
unfoldable pub on_menu_opening : HelperData → HelperData
on_menu_opening h = record h {
  main_menu_opening = true;
  main_menu_open = false;
  main_menu_input_ready = false;
}

-- The main menu is open.
unfoldable pub open_main_menu : HelperData → HelperData
open_main_menu h =
    on_sandbox_menu_opened (record h { main_menu_open = true; main_menu_opening = false })

-- MenuHelper::OnMenuOpened
unfoldable pub on_menu_opened : HelperData → HelperData
unfolding not_armed open_main_menu
on_menu_opened h =
    if h.main_menu_open && not_armed h.state
    then h
    else if (open_main_menu h).main_menu_input_ready
    then begin_active_session menu (open_main_menu h)
    else open_main_menu h

-- The main menu takes input.
unfoldable pub ready_main_menu : HelperData → HelperData
ready_main_menu h = record h { main_menu_input_ready = true }

-- MenuHelper::OnMenuInputEnabled
unfoldable pub on_menu_input_enabled : HelperData → HelperData
unfolding ready_main_menu
on_menu_input_enabled h =
    if not h.main_menu_open && not h.main_menu_opening
    then h
    else if (ready_main_menu h).main_menu_open
    then begin_active_session menu (ready_main_menu h)
    else ready_main_menu h

-- MenuHelper::OnTutorialBladeBondRequested
unfoldable pub on_tutorial_blade_bond_requested : HelperData → HelperData
unfolding on_menu_opening
on_tutorial_blade_bond_requested h =
    on_menu_opening (record h { tutorial_blade_bond_pending = true })

-- MenuHelper::OnTravelOpening, and OnTravelButtonPressed, which only calls it.
unfoldable pub on_travel_opening : HelperData → HelperData
on_travel_opening h = record h { travel_menu_opening = true; travel_menu_open = false }

-- MenuHelper::OnTravelButtonFinished
unfoldable pub on_travel_button_finished : HelperData → HelperData
on_travel_button_finished h =
    if not h.travel_menu_open then record h { travel_menu_opening = false } else h

-- The skip-travel menu is open.
unfoldable pub open_travel_menu : HelperData → HelperData
open_travel_menu h =
    on_sandbox_menu_opened (record h { travel_menu_open = true; travel_menu_opening = false })

-- MenuHelper::OnTravelOpened
unfoldable pub on_travel_opened : HelperData → HelperData
unfolding not_armed open_travel_menu
on_travel_opened h =
    if h.travel_menu_open && not_armed h.state
    then h
    else begin_active_session travel (open_travel_menu h)

-- The menus are closed.
unfoldable pub close_shop : HelperData → HelperData
close_shop h = on_sandbox_menu_closed (record h { shop_open = false })

unfoldable pub close_main_menu : HelperData → HelperData
close_main_menu h =
    on_sandbox_menu_closed (record h {
      main_menu_open = false;
      main_menu_opening = false;
      main_menu_input_ready = false;
    })

unfoldable pub close_travel_menu : HelperData → HelperData
close_travel_menu h =
    on_sandbox_menu_closed (record h { travel_menu_open = false; travel_menu_opening = false })

module _ (saves : List Recording → Bool) where
  -- MenuHelper::OnShopClosed
  unfoldable pub on_shop_closed : HelperData → HelperData
  unfolding nothing_to_close end_aux_core_shop close_shop
  on_shop_closed h =
      let h1 = end_aux_core_shop h in
      if nothing_to_close shop h1.shop_open h1
      then h1
      else end_active_session saves shop (close_shop h1)

  -- MenuHelper::OnMenuClosed
  unfoldable pub on_menu_closed : HelperData → HelperData
  unfolding nothing_to_close close_main_menu
  on_menu_closed h =
      if nothing_to_close menu h.main_menu_open h
      then h
      else end_active_session saves menu (close_main_menu h)

  -- MenuHelper::OnTravelClosed
  unfoldable pub on_travel_closed : HelperData → HelperData
  unfolding nothing_to_close close_travel_menu
  on_travel_closed h =
      if nothing_to_close travel h.travel_menu_open h
      then h
      else end_active_session saves travel (close_travel_menu h)
