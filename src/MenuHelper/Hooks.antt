-- ===== src/MenuHelper/Hooks.antt =====
-- The hooks of MenuHelper.cpp on the game's menus. What the game's own function (Orig) does to the
-- state, through the hooks it runs, and what it returns are arguments.
pub mod Agreement
pub mod Saves
use xenomods.Base.{ℕ, ◌-◌, ◌^◌, Bool, true, false, not, ◌&&◌, ◌||◌, ◌==◌, ◌!=◌, List, if◌then◌else◌}
use xenomods.InputBuffer.State.{InputState, playback}
use xenomods.InputBuffer.Api.{
  set_aux_core_amount_menu, reset_aux_core_amount_input, accept_aux_core_amount_input,
  accept_aux_core_amount_playback,
}
use xenomods.MenuHelper.{Recording, HelperData}
use xenomods.MenuHelper.Sandbox.{
  on_sandbox_menu_opened, on_sandbox_menu_closed, is_sandbox_data_active,
}
use xenomods.MenuHelper.Playback.{on_accepted_action}
use xenomods.MenuHelper.Events.{
  on_shop_opened, on_shop_input_disabled, on_shop_input_enabled, on_aux_core_shop_opening,
  on_aux_core_shop_input_ready, on_shop_closed, on_menu_opening, on_menu_opened,
  on_menu_input_enabled, on_menu_closed, on_tutorial_blade_bond_requested, on_travel_opening,
  on_travel_button_finished, on_travel_opened, on_travel_closed,
}
use xenomods.MenuHelper.Session.{helper_client}

-- enum class MAINMENU
pub data MainMenu : Type 0 where
  main_menu system_menu skip_travel : MainMenu

abbrev pub is_skip_travel : MainMenu → Bool
is_skip_travel main_menu = false
is_skip_travel system_menu = false
is_skip_travel skip_travel = true

-- The last part of OnInputLayerUpdating.
unfoldable pub on_input_layer_updating :
    (after_update : Bool) (layer_handle : ℕ) → HelperData → HelperData
on_input_layer_updating after_update layer_handle h =
    if not after_update
      && h.aux_core_shop_waiting_for_input
      && h.aux_core_list_input_handle != 0
      && layer_handle == h.aux_core_list_input_handle
    then on_aux_core_shop_input_ready h
    else h

-- ResetAuxCoreAmountInput, called from a hook.
unfoldable pub reset_amount : HelperData → HelperData
unfolding reset_aux_core_amount_input
reset_amount h = record h { input = reset_aux_core_amount_input h.input }

-- AcceptAuxCoreAmountPlayback, which tells OnAcceptedAction of the action it completes.
unfoldable pub accept_amount_playback : HelperData → HelperData
unfolding accept_aux_core_amount_playback
accept_amount_playback h =
    let accepted = accept_aux_core_amount_playback helper_client h.input in
    let h1 = record h { input = accepted.0 } in
    if accepted.1 && h.input.accepted_action_callback
    then on_accepted_action h.input.playback_action playback h1
    else h1

-- The handle of the recipe's input layer.
unfoldable pub note_recipe_layer : (event object : ℕ) → HelperData → HelperData
unfolding set_aux_core_amount_menu
note_recipe_layer event object h =
    if event != 1 && object != 0
    then record h {
      aux_core_recipe_input_handle = object;
      input = set_aux_core_amount_menu true object h.input;
    }
    else h

-- The recipe closes, or its amount starts over.
unfoldable pub close_recipe : (event : ℕ) → HelperData → HelperData
unfolding reset_amount set_aux_core_amount_menu
close_recipe event h =
    if event == 0x40 || event == 0x42
    then reset_amount h
    else if event == 1
    then reset_amount (record h {
      aux_core_recipe_open = false;
      input = set_aux_core_amount_menu false 0 h.input;
      aux_core_recipe_input_handle = 0;
    })
    else h

-- acceptingAuxCoreAmountPlayback around AcceptAuxCoreAmountPlayback.
unfoldable pub play_amount : HelperData → HelperData
unfolding accept_amount_playback
play_amount h =
    let h1 = accept_amount_playback (record h { accepting_aux_core_amount_playback = true }) in
    record h1 { accepting_aux_core_amount_playback = false }

module _ (saves : List Recording → Bool) (orig : HelperData → HelperData × Bool) where
  -- AuxCoreShopOpenHandlerHook
  unfoldable pub aux_core_shop_open_handler_hook : (event requested : ℕ) → HelperData → HelperData
  aux_core_shop_open_handler_hook event requested h =
      (orig (if event == 0x21 && requested == 212 then on_aux_core_shop_opening h else h)).0

  -- ShopInitializeHook
  unfoldable pub shop_initialize_hook : HelperData → HelperData
  unfolding reset_amount
  shop_initialize_hook h =
      let h1 = reset_amount (record h { aux_core_recipe_open = false }) in
      on_shop_opened (orig (on_sandbox_menu_opened h1)).0

  -- AuxCoreRecipeListenerHook; without event data the event and the action are 0.
  unfoldable pub aux_core_recipe_listener_hook : (event action object : ℕ) → HelperData → HelperData
  unfolding note_recipe_layer close_recipe play_amount accept_aux_core_amount_input
  aux_core_recipe_listener_hook event action object h =
      let h2 = close_recipe event (note_recipe_layer event object h) in
      let amount = event == 8 && (action == 9 || action == 10) in
      let accepted = accept_aux_core_amount_input h2.input in
      let h3 = record h2 { aux_core_recipe_open = true; input = accepted.0 } in
      if amount then (if accepted.1 then play_amount (orig h3).0 else h3) else (orig h2).0

  -- ShopSetDisplayHook
  unfoldable pub shop_set_display_hook : (visible : Bool) → HelperData → HelperData
  shop_set_display_hook visible h =
      if visible then on_shop_opened (orig (on_sandbox_menu_opened h)).0 else (orig h).0

  -- ShopOpenHook
  unfoldable pub shop_open_hook : HelperData → HelperData
  shop_open_hook h = on_shop_opened (orig (on_sandbox_menu_opened h)).0

  -- MainMenuCreateHook
  unfoldable pub main_menu_create_hook : MainMenu → HelperData → HelperData × Bool
  main_menu_create_hook kind h =
      let created = orig (if is_skip_travel kind then on_travel_opening h else on_menu_opening h) in
      (
        if created.1 && not (is_skip_travel kind)
            then on_menu_opened (on_sandbox_menu_opened created.0)
            else if created.1 && is_skip_travel kind
            then on_travel_opened (on_sandbox_menu_opened created.0)
            else if not created.1 && is_skip_travel kind
            then on_travel_closed saves created.0
            else created.0,
        created.1,
      )

  -- MenuInputEnableHook
  unfoldable pub menu_input_enable_hook : HelperData → HelperData
  menu_input_enable_hook h = on_menu_input_enabled (on_shop_input_enabled (orig h).0)

  -- MenuInputDisableHook
  unfoldable pub menu_input_disable_hook : HelperData → HelperData
  menu_input_disable_hook h = (orig (on_shop_input_disabled h)).0

  -- TutorialBladeBondRequestHook
  unfoldable pub tutorial_blade_bond_request_hook : HelperData → HelperData
  tutorial_blade_bond_request_hook h = (orig (on_tutorial_blade_bond_requested h)).0

  -- TutorialBladeBondInitializeHook
  unfoldable pub tutorial_blade_bond_initialize_hook : (from_event : Bool) → HelperData → HelperData
  tutorial_blade_bond_initialize_hook from_event h =
      let h1 = (orig h).0 in
      let h2 = if h1.tutorial_blade_bond_pending then h1 else on_tutorial_blade_bond_requested h1 in
      if not from_event
      then h1
      else on_menu_opened
          (record h2 { tutorial_blade_bond_open = true; tutorial_blade_bond_pending = false })

  -- TutorialBladeBondInputReadyHook
  unfoldable pub tutorial_blade_bond_input_ready_hook : HelperData → HelperData × Bool
  tutorial_blade_bond_input_ready_hook h =
      let ready = orig h in
      (
        if ready.1 && ready.0.tutorial_blade_bond_open
            then on_menu_input_enabled ready.0
            else ready.0,
        ready.1,
      )

  -- TutorialBladeBondFinalizeHook
  unfoldable pub tutorial_blade_bond_finalize_hook : HelperData → HelperData
  tutorial_blade_bond_finalize_hook h =
      let closed = on_menu_closed saves h in
      (orig (
        if h.tutorial_blade_bond_open
        then record closed { tutorial_blade_bond_open = false }
        else h)).0

  -- MainMenuSequenceEndHook
  unfoldable pub main_menu_sequence_end_hook : HelperData → HelperData × Bool
  main_menu_sequence_end_hook h =
      let finished = orig h in
      (
        if finished.1
            then on_sandbox_menu_closed (on_travel_closed saves (on_menu_closed saves finished.0))
            else finished.0,
        finished.1,
      )

  -- TravelButtonOpenHook
  unfoldable pub travel_button_open_hook : HelperData → HelperData
  travel_button_open_hook h = on_travel_button_finished (orig (on_travel_opening h)).0

  -- PlayerControlEventHook
  unfoldable pub player_control_event_hook : (event : ℕ) → HelperData → HelperData
  player_control_event_hook event h = (orig (if event == 0x0e then on_shop_closed saves h else h)).0

  -- SandboxDataStoreBuildHook and SandboxDataStoreDestroyHook
  unfoldable pub sandbox_data_store_hook : HelperData → HelperData
  sandbox_data_store_hook h = (orig (on_sandbox_menu_closed h)).0

-- SandboxSaveOptionHook, SandboxSaveGameHook and SandboxAutoSaveHook
unfoldable pub sandbox_save_hook :
    (orig : HelperData → HelperData × ℕ) → HelperData → HelperData × ℕ
sandbox_save_hook orig h = if is_sandbox_data_active h then (h, 2 ^ 32 - 1) else orig h
