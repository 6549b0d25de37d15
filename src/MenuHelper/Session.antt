-- ===== src/MenuHelper/Session.antt =====
-- The life of the helper as a sequence of events: what the game's hooks, the tools and the frames
-- call, one at a time.
pub mod Agreement
pub mod Menus
pub mod Transitions
pub mod Invariant
pub mod Frames
pub mod Order
pub mod Rounds
pub mod Progress
use xenomods.Base.{ℕ, Bool, ◌&&◌, List, [], ◌∷◌, if◌then◌else◌, Text}
use xenomods.InputBuffer.State.{AcceptedAction, physical, playback}
use xenomods.InputBuffer.Api.{Client, finish_playback_action, playback_action_pending}
use xenomods.MenuHelper.{RecordingKind, Recording, HelperData}
use xenomods.MenuHelper.Playback.{on_accepted_action}
use xenomods.MenuHelper.Events.{
  on_shop_opened, on_shop_input_disabled, on_shop_input_enabled, on_aux_core_shop_opening,
  on_aux_core_list_input_enabled, on_aux_core_shop_input_ready, on_shop_closed, on_menu_opening,
  on_menu_opened, on_menu_input_enabled, on_menu_closed, on_tutorial_blade_bond_requested,
  on_travel_opening, on_travel_button_finished, on_travel_opened, on_travel_closed,
}
use xenomods.MenuHelper.Control.{
  arm_recording, arm_named_playback, cancel_active_playback, helper_update, on_scene_transition,
}

-- OnAcceptedAction calls no setter of the input buffer.
abbrev pub helper_client : Client
helper_client call i = i

-- The input buffer completes the action that it offers, and tells the helper.
unfoldable pub complete_action : HelperData → HelperData
unfolding playback_action_pending
complete_action h =
    let a = h.input.playback_action in
    let h1 = record h { input = finish_playback_action helper_client h.input } in
    if playback_action_pending h.input
    then (if h.input.accepted_action_callback then on_accepted_action a playback h1 else h1)
    else h

pub data Event : Type 0 where
  shop_opened shop_input_disabled shop_input_enabled aux_core_shop_opening : Event
  aux_core_shop_input_ready shop_closed menu_opening menu_opened menu_input_enabled : Event
  menu_closed blade_bond_requested travel_opening travel_button_finished travel_opened : Event
  travel_closed scene_changed recording_armed playback_cancelled action_completed : Event
  aux_core_list_input_enabled : ℕ → Event
  playback_armed : RecordingKind → Text → Event
  frame : ℕ → Event
  physical_action : AcceptedAction → Event

module _ (saves : List Recording → Bool) where
  unfoldable pub step : Event → HelperData → HelperData
  step shop_opened h = on_shop_opened h
  step shop_input_disabled h = on_shop_input_disabled h
  step shop_input_enabled h = on_shop_input_enabled h
  step aux_core_shop_opening h = on_aux_core_shop_opening h
  step aux_core_shop_input_ready h = on_aux_core_shop_input_ready h
  step shop_closed h = on_shop_closed saves h
  step menu_opening h = on_menu_opening h
  step menu_opened h = on_menu_opened h
  step menu_input_enabled h = on_menu_input_enabled h
  step menu_closed h = on_menu_closed saves h
  step blade_bond_requested h = on_tutorial_blade_bond_requested h
  step travel_opening h = on_travel_opening h
  step travel_button_finished h = on_travel_button_finished h
  step travel_opened h = on_travel_opened h
  step travel_closed h = on_travel_closed saves h
  step scene_changed h = on_scene_transition h
  step recording_armed h = arm_recording h
  step playback_cancelled h = cancel_active_playback h
  step action_completed h = complete_action h
  step (aux_core_list_input_enabled handle) h = on_aux_core_list_input_enabled handle h
  step (playback_armed kind name) h = (arm_named_playback kind name h).0
  step (frame pressed) h = helper_update pressed h
  step (physical_action a) h = on_accepted_action a physical h

  unfoldable pub run : List Event → HelperData → HelperData
  run [] h = h
  run (e ∷ es) h = run es (step e h)
