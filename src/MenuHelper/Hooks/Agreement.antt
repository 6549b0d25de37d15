-- ===== src/MenuHelper/Hooks/Agreement.antt =====
-- The hooks keep the helper and the input buffer in agreement.
use xenomods.Base.{
  ltb, ◌+◌, ◌-◌, ◌%◌, ◌^◌, bit_and, ℕ, Bool, true, false, not, ◌&&◌, ◌||◌, ◌==◌, ◌!=◌, List, [],
  ◌∷◌, if◌then◌else◌, ◌∙◌, if-elim, inl,
}
use xenomods.InputBuffer.State.{InputState, playback, no_frame}
use xenomods.InputBuffer.Api.{
  set_aux_core_amount_menu, reset_aux_core_amount_input, accept_aux_core_amount_input,
  accept_aux_core_amount_playback, aux_core_amount_repeat_frames, finish_playback_action,
}
use xenomods.InputBuffer.Action.{is_ui_pad_action, ui_pad_mask, lr_button_mask}
use xenomods.MenuHelper.{Recording, HelperData}
use xenomods.MenuHelper.Sandbox.{on_sandbox_menu_opened, on_sandbox_menu_closed}
use xenomods.MenuHelper.Playback.{on_accepted_action}
use xenomods.MenuHelper.Events.{
  on_travel_opening, on_menu_opening, on_tutorial_blade_bond_requested,
}
use xenomods.MenuHelper.Session.{
  helper_client, Event, shop_opened, shop_input_disabled, shop_input_enabled, aux_core_shop_opening,
  aux_core_shop_input_ready, shop_closed, menu_opening, menu_opened, menu_input_enabled,
  menu_closed, blade_bond_requested, travel_opening, travel_button_finished, travel_opened,
  travel_closed, step, run,
}
use xenomods.MenuHelper.Session.Agreement.{IsConsistent}
use xenomods.MenuHelper.Session.Menus.{sandbox-IsConsistent}
use xenomods.MenuHelper.Session.Invariant.{run-IsConsistent, played-IsConsistent, finish-Emptied}
use xenomods.MenuHelper.Hooks.{
  MainMenu, is_skip_travel, reset_amount, accept_amount_playback, note_recipe_layer, close_recipe,
  play_amount, on_input_layer_updating, aux_core_shop_open_handler_hook, shop_initialize_hook,
  aux_core_recipe_listener_hook, shop_set_display_hook, shop_open_hook, main_menu_create_hook,
  menu_input_enable_hook, menu_input_disable_hook, tutorial_blade_bond_request_hook,
  tutorial_blade_bond_initialize_hook, tutorial_blade_bond_input_ready_hook,
  tutorial_blade_bond_finalize_hook, main_menu_sequence_end_hook, travel_button_open_hook,
  player_control_event_hook, sandbox_data_store_hook,
}

-- A call of the game that a hook is on, and the update of an input layer.
pub data HookCall : Type 0 where
  input_layer_updating : Bool → ℕ → HookCall
  aux_core_shop_open_handler : ℕ → ℕ → HookCall
  aux_core_recipe_listener : ℕ → ℕ → ℕ → HookCall
  shop_initialize shop_open menu_input_enable menu_input_disable : HookCall
  shop_set_display blade_bond_initialize : Bool → HookCall
  main_menu_create : MainMenu → HookCall
  blade_bond_request blade_bond_input_ready blade_bond_finalize : HookCall
  main_menu_sequence_end travel_button_open data_store_change : HookCall
  player_control_event : ℕ → HookCall

closed_sandbox-IsConsistent :
    (h : HelperData) → IsConsistent h → IsConsistent (on_sandbox_menu_closed h)
unfolding on_sandbox_menu_closed
closed_sandbox-IsConsistent h c = record { override = c.override; offer = c.offer }

note_recipe_layer-IsConsistent :
    (event object : ℕ) (h : HelperData)
    → IsConsistent h
    → IsConsistent (note_recipe_layer event object h)
unfolding note_recipe_layer set_aux_core_amount_menu
note_recipe_layer-IsConsistent event object h c =
    if-elim IsConsistent (event != 1 && object != 0)
      (record { override = c.override; offer = c.offer }) c

close_recipe-IsConsistent :
    (event : ℕ) (h : HelperData) → IsConsistent h → IsConsistent (close_recipe event h)
unfolding close_recipe reset_amount set_aux_core_amount_menu reset_aux_core_amount_input
close_recipe-IsConsistent event h c =
    if-elim IsConsistent (event == 0x40 || event == 0x42)
      (record { override = c.override; offer = c.offer })
      (if-elim IsConsistent (event == 1) (record { override = c.override; offer = c.offer }) c)

accept_input-IsConsistent :
    (h : HelperData)
    → IsConsistent h
    → IsConsistent
        (record h { aux_core_recipe_open = true; input = (accept_aux_core_amount_input h.input).0 })
unfolding accept_aux_core_amount_input
accept_input-IsConsistent h c =
    let P : InputState × Bool → Type 0 =
      λ r. IsConsistent (record h { aux_core_recipe_open = true; input = r.0 }) in
    if-elim P (not h.input.enabled && not h.input.playback_override_active)
      (record { override = c.override; offer = c.offer })
      (if-elim P
        (h.input.last_aux_core_amount_input_frame != no_frame
          && ltb
              ((h.input.current_frame_index + 2 ^ 64 - h.input.last_aux_core_amount_input_frame)
                % 2 ^ 64)
              aux_core_amount_repeat_frames)
        (record { override = c.override; offer = c.offer })
        (record { override = c.override; offer = c.offer }))

accept_amount_playback-IsConsistent :
    (h : HelperData) → IsConsistent h → IsConsistent (accept_amount_playback h)
unfolding accept_amount_playback accept_aux_core_amount_playback
accept_amount_playback-IsConsistent h c =
    let P : InputState × Bool → Type 0 = λ r. IsConsistent (
      if r.1 && h.input.accepted_action_callback
      then on_accepted_action h.input.playback_action playback (record h { input = r.0 })
      else record h { input = r.0 }) in
    let i : InputState = record h.input { aux_core_native_acceptance_active = true } in
    let f = finish-Emptied i in
    let h1 : HelperData = record h { input = finish_playback_action helper_client i } in
    let c1 : IsConsistent h1 = record { override = f.still ∙ c.override; offer = inl f.empty } in
    if-elim P
      (not h.input.aux_core_amount_menu_active
        || not h.input.playback_override_active
        || not (is_ui_pad_action h.input.playback_action.input)
        || bit_and (bit_and h.input.playback_action.input ui_pad_mask) lr_button_mask == 0)
      (record { override = c.override; offer = c.offer })
      (if-elim IsConsistent h.input.accepted_action_callback
        (played-IsConsistent h.input.playback_action h1 c1 f.empty) c1)

play_amount-IsConsistent : (h : HelperData) → IsConsistent h → IsConsistent (play_amount h)
unfolding play_amount
play_amount-IsConsistent h c =
    let h1 : HelperData = record h { accepting_aux_core_amount_playback = true } in
    let c1 : IsConsistent h1 = record { override = c.override; offer = c.offer } in
    let c2 = accept_amount_playback-IsConsistent h1 c1 in
    record { override = c2.override; offer = c2.offer }

module _ (saves : List Recording → Bool) (orig : HelperData → HelperData × Bool) where
  unfoldable pub hook_call : HookCall → HelperData → HelperData
  hook_call (input_layer_updating after handle) h = on_input_layer_updating after handle h
  hook_call (aux_core_shop_open_handler event requested) h =
      aux_core_shop_open_handler_hook saves orig event requested h
  hook_call (aux_core_recipe_listener event action object) h =
      aux_core_recipe_listener_hook saves orig event action object h
  hook_call shop_initialize h = shop_initialize_hook saves orig h
  hook_call shop_open h = shop_open_hook saves orig h
  hook_call menu_input_enable h = menu_input_enable_hook saves orig h
  hook_call menu_input_disable h = menu_input_disable_hook saves orig h
  hook_call (shop_set_display visible) h = shop_set_display_hook saves orig visible h
  hook_call (blade_bond_initialize from_event) h =
      tutorial_blade_bond_initialize_hook saves orig from_event h
  hook_call (main_menu_create kind) h = (main_menu_create_hook saves orig kind h).0
  hook_call blade_bond_request h = tutorial_blade_bond_request_hook saves orig h
  hook_call blade_bond_input_ready h = (tutorial_blade_bond_input_ready_hook saves orig h).0
  hook_call blade_bond_finalize h = tutorial_blade_bond_finalize_hook saves orig h
  hook_call main_menu_sequence_end h = (main_menu_sequence_end_hook saves orig h).0
  hook_call travel_button_open h = travel_button_open_hook saves orig h
  hook_call data_store_change h = sandbox_data_store_hook saves orig h
  hook_call (player_control_event event) h = player_control_event_hook saves orig event h

module _ (saves : List Recording → Bool) (orig : HelperData → HelperData × Bool)
    (orig-keeps : (h : HelperData) → IsConsistent h → IsConsistent (orig h).0) where
  event-IsConsistent : (e : Event) (h : HelperData) → IsConsistent h → IsConsistent (step saves e h)
  unfolding run
  event-IsConsistent e h c = run-IsConsistent saves (e ∷ []) h c

  opens : (h : HelperData) → IsConsistent h → IsConsistent (orig (on_sandbox_menu_opened h)).0
  opens h c = orig-keeps (on_sandbox_menu_opened h) (sandbox-IsConsistent h c)

  main_menu_create-IsConsistent :
      (kind : MainMenu) (h : HelperData)
      → IsConsistent h
      → IsConsistent (main_menu_create_hook saves orig kind h).0
  unfolding main_menu_create_hook step
  main_menu_create-IsConsistent kind h c =
      let skip = is_skip_travel kind in
      let h0 : HelperData = if skip then on_travel_opening h else on_menu_opening h in
      let c0 : IsConsistent h0 =
        if-elim IsConsistent skip (event-IsConsistent travel_opening h c)
          (event-IsConsistent menu_opening h c) in
      let r = orig h0 in
      let cr = orig-keeps h0 c0 in
      let cs = sandbox-IsConsistent r.0 cr in
      if-elim IsConsistent (r.1 && not skip)
        (event-IsConsistent menu_opened (on_sandbox_menu_opened r.0) cs)
        (if-elim IsConsistent (r.1 && skip)
          (event-IsConsistent travel_opened (on_sandbox_menu_opened r.0) cs)
          (if-elim IsConsistent (not r.1 && skip) (event-IsConsistent travel_closed r.0 cr) cr))

  blade_bond_initialize-IsConsistent :
      (from_event : Bool) (h : HelperData)
      → IsConsistent h
      → IsConsistent (tutorial_blade_bond_initialize_hook saves orig from_event h)
  unfolding tutorial_blade_bond_initialize_hook step
  blade_bond_initialize-IsConsistent from_event h c =
      let h1 = (orig h).0 in
      let c1 = orig-keeps h c in
      let h2 : HelperData =
        if h1.tutorial_blade_bond_pending then h1 else on_tutorial_blade_bond_requested h1 in
      let c2 : IsConsistent h2 =
        if-elim IsConsistent h1.tutorial_blade_bond_pending c1
          (event-IsConsistent blade_bond_requested h1 c1) in
      let h3 : HelperData = record h2 {
        tutorial_blade_bond_open = true;
        tutorial_blade_bond_pending = false;
      } in
      let c3 : IsConsistent h3 = record { override = c2.override; offer = c2.offer } in
      if-elim IsConsistent (not from_event) c1 (event-IsConsistent menu_opened h3 c3)

  recipe_listener-IsConsistent :
      (event action object : ℕ) (h : HelperData)
      → IsConsistent h
      → IsConsistent (aux_core_recipe_listener_hook saves orig event action object h)
  unfolding aux_core_recipe_listener_hook
  recipe_listener-IsConsistent event action object h c =
      let h1 = note_recipe_layer event object h in
      let h2 = close_recipe event h1 in
      let c2 : IsConsistent h2 =
        close_recipe-IsConsistent event h1 (note_recipe_layer-IsConsistent event object h c) in
      let accepted = accept_aux_core_amount_input h2.input in
      let h3 : HelperData = record h2 { aux_core_recipe_open = true; input = accepted.0 } in
      let c3 : IsConsistent h3 = accept_input-IsConsistent h2 c2 in
      if-elim IsConsistent (event == 8 && (action == 9 || action == 10))
        (if-elim IsConsistent accepted.1 (play_amount-IsConsistent (orig h3).0 (orig-keeps h3 c3))
          c3)
        (orig-keeps h2 c2)

  -- Every hook keeps the agreement of run-IsConsistent, when the game's own function and the hooks
  -- that it runs keep it: the override of the input buffer is on exactly while the helper plays a
  -- recording back, and the buffer offers nothing or the action at the playback index.
  pub hook_call-IsConsistent :
      (call : HookCall) (h : HelperData)
      → IsConsistent h
      → IsConsistent (hook_call saves orig call h)
  unfolding hook_call step on_input_layer_updating aux_core_shop_open_handler_hook
      shop_initialize_hook reset_amount reset_aux_core_amount_input shop_set_display_hook
      shop_open_hook menu_input_enable_hook menu_input_disable_hook tutorial_blade_bond_request_hook
      tutorial_blade_bond_input_ready_hook tutorial_blade_bond_finalize_hook
      main_menu_sequence_end_hook travel_button_open_hook player_control_event_hook
      sandbox_data_store_hook
  hook_call-IsConsistent (input_layer_updating after handle) h c =
      if-elim IsConsistent
        (not after
          && h.aux_core_shop_waiting_for_input
          && h.aux_core_list_input_handle != 0
          && handle == h.aux_core_list_input_handle)
        (event-IsConsistent aux_core_shop_input_ready h c) c
  hook_call-IsConsistent (aux_core_shop_open_handler event requested) h c = orig-keeps _ (
      if-elim IsConsistent (event == 0x21 && requested == 212)
        (event-IsConsistent aux_core_shop_opening h c) c)
  hook_call-IsConsistent (aux_core_recipe_listener event action object) h c =
      recipe_listener-IsConsistent event action object h c
  hook_call-IsConsistent shop_initialize h c =
      event-IsConsistent shop_opened _ (opens _ (record { override = c.override; offer = c.offer }))
  hook_call-IsConsistent shop_open h c = event-IsConsistent shop_opened _ (opens h c)
  hook_call-IsConsistent menu_input_enable h c =
      event-IsConsistent menu_input_enabled _
        (event-IsConsistent shop_input_enabled (orig h).0 (orig-keeps h c))
  hook_call-IsConsistent menu_input_disable h c =
      orig-keeps _ (event-IsConsistent shop_input_disabled h c)
  hook_call-IsConsistent (shop_set_display visible) h c =
      if-elim IsConsistent visible
        (event-IsConsistent shop_opened (orig (on_sandbox_menu_opened h)).0 (opens h c))
        (orig-keeps h c)
  hook_call-IsConsistent (blade_bond_initialize from_event) h c =
      blade_bond_initialize-IsConsistent from_event h c
  hook_call-IsConsistent (main_menu_create kind) h c = main_menu_create-IsConsistent kind h c
  hook_call-IsConsistent blade_bond_request h c =
      orig-keeps _ (event-IsConsistent blade_bond_requested h c)
  hook_call-IsConsistent blade_bond_input_ready h c =
      if-elim IsConsistent ((orig h).1 && (orig h).0.tutorial_blade_bond_open)
        (event-IsConsistent menu_input_enabled (orig h).0 (orig-keeps h c)) (orig-keeps h c)
  hook_call-IsConsistent blade_bond_finalize h c =
      let m = event-IsConsistent menu_closed h c in
      orig-keeps _ (
        if-elim IsConsistent h.tutorial_blade_bond_open
          (record { override = m.override; offer = m.offer }) c)
  hook_call-IsConsistent main_menu_sequence_end h c =
      let h1 = (orig h).0 in
      let h2 = step saves menu_closed h1 in
      let c2 : IsConsistent h2 = event-IsConsistent menu_closed h1 (orig-keeps h c) in
      if-elim IsConsistent (orig h).1
        (closed_sandbox-IsConsistent (step saves travel_closed h2)
          (event-IsConsistent travel_closed h2 c2))
        (orig-keeps h c)
  hook_call-IsConsistent travel_button_open h c =
      event-IsConsistent travel_button_finished _
        (orig-keeps _ (event-IsConsistent travel_opening h c))
  hook_call-IsConsistent data_store_change h c = orig-keeps _ (closed_sandbox-IsConsistent h c)
  hook_call-IsConsistent (player_control_event event) h c =
      orig-keeps _ (if-elim IsConsistent (event == 0x0e) (event-IsConsistent shop_closed h c) c)
