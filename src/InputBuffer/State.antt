-- ===== src/InputBuffer/State.antt =====
-- The globals of src/xenomods/InputBuffer.cpp as one record, and the data that the hooks handle.
-- A pointer is a number, nullptr is 0; a float is its bit pattern.
use xenomods.Base.{ℕ, Bool, false, List, [], replicate}

-- struct AcceptedAction
pub record AcceptedAction : Type 0 where
  pub input : ℕ
  pub layer : ℕ
  pub display : ℕ

-- AcceptedAction {}
abbrev pub no_action : AcceptedAction
no_action = record { input = 0; layer = 0; display = 0 }

pub data ActionSource : Type 0 where
  physical playback : ActionSource

pub data PlaybackMode : Type 0 where
  standard_menu shop_menu_layered travel_ui_buffered : PlaybackMode

pub data AutoUiActionPhase : Type 0 where
  idle pending neutral : AutoUiActionPhase

-- struct LayerRegistration
pub record LayerRegistration : Type 0 where
  pub layer : ℕ
  pub handle : ℕ

abbrev pub no_registration : LayerRegistration
no_registration = record { layer = 0; handle = 0 }

-- fw::PadData. The hooks read and write words 0, 1 and 3; the others are copied along.
pub record PadData : Type 0 where
  pub word0 : ℕ
  pub word1 : ℕ
  pub word3 : ℕ
  pub others : List ℕ

-- PadData {}
abbrev pub no_pad_data : PadData
no_pad_data = record { word0 = 0; word1 = 0; word3 = 0; others = replicate 15 0 }

-- struct StickState
pub record StickState : Type 0 where
  pub x : ℕ
  pub y : ℕ
  pub pending_x : ℕ
  pub pending_y : ℕ
  pub frames : ℕ

abbrev pub no_stick : StickState
no_stick = record { x = 0; y = 0; pending_x = 0; pending_y = 0; frames = 0 }

-- One entry of a UIInputLayer's table, at 0x50 + index * 0x10: the UI pad number and the byte 0xf.
pub record LayerEntry : Type 0 where
  pub ui_pad : ℕ
  pub enabled : ℕ

-- What the hooks read of the game's UIInputLayer object behind a pointer.
pub record InputLayer : Type 0 where
  pub emitted_event : ℕ
  pub secondary_event : ℕ
  pub secondary_action : ℕ
  pub object : ℕ
  pub entry : ℕ → LayerEntry
  pub count : ℕ

-- The arguments of an InputLayerUpdateCallback.
pub record LayerUpdate : Type 0 where
  pub object : ℕ
  pub input_layer : ℕ
  pub layer_handle : ℕ
  pub after_update : Bool
  pub accepted : Bool
  pub emitted_event : ℕ
  pub secondary_event : ℕ
  pub secondary_action : ℕ
  pub held_buttons : ℕ
  pub down_buttons : ℕ

-- A call of one of the three registered callbacks.
pub data Call : Type 0 where
  accepted_action : AcceptedAction → ActionSource → Call
  layer_update : LayerUpdate → Call
  auto_ui_accepted : (object layer_handle : ℕ) → Call

pub record InputState : Type 0 where
  pub enabled : Bool
  pub buffer_left_stick : Bool
  pub buffer_right_stick : Bool
  pub stick_buffer_frames : ℕ
  pub button_frames : List ℕ
  pub physical_held : ℕ
  pub physical_needs_release_mask : ℕ
  pub accepted_action_callback : Bool
  pub input_layer_update_callback : Bool
  pub input_layer_pad_capture_active : Bool
  pub auto_ui_action_accepted_callback : Bool
  pub accepted_action_capture_active : Bool
  pub accepted_action_capture_waiting_for_neutral : Bool
  pub playback_override_active : Bool
  pub playback_mode : PlaybackMode
  pub playback_action : AcceptedAction
  pub playback_ui_action_offered : Bool
  pub playback_ui_direct_action_offered : Bool
  pub scripted_buffered_mask : ℕ
  pub scripted_ui_offered_mask : ℕ
  pub strict_relay_mask : ℕ
  pub current_frame_index : ℕ
  pub last_aux_core_amount_input_frame : ℕ
  pub aux_core_amount_menu_active : Bool
  pub aux_core_amount_menu_object : ℕ
  pub aux_core_native_acceptance_active : Bool
  pub layer_registrations : List LayerRegistration
  pub auto_ui_action_phase : AutoUiActionPhase
  pub auto_ui_action_object : ℕ
  pub auto_ui_action_mask : ℕ
  pub auto_ui_action_offered : Bool
  pub updating_input_layer : ℕ
  pub active_ui_pad_data : PadData
  pub active_ui_pad_data_valid : Bool
  pub left_stick : StickState
  pub right_stick : StickState
  pub left_stick_override_active : Bool
  pub left_stick_override_x : ℕ
  pub left_stick_override_y : ℕ
  pub action_left_stick_override_active : Bool
  pub action_right_stick_override_active : Bool
  pub action_left_stick_override_x : ℕ
  pub action_left_stick_override_y : ℕ
  pub action_right_stick_override_x : ℕ
  pub action_right_stick_override_y : ℕ
  pub raw_button_override_active : Bool
  pub raw_button_held : ℕ
  pub raw_button_down : ℕ
  -- The game's memory behind a layer pointer, and the calls made so far, newest first.
  pub layer_at : ℕ → InputLayer
  pub calls : List Call

-- The UIntMax that marks that no Aux core input has been accepted.
abbrev pub no_frame : ℕ
no_frame = 0xffff_ffff_ffff_ffff

-- The initial values of the globals, over a game memory.
abbrev pub init : (ℕ → InputLayer) → InputState
init memory = record {
  enabled = false;
  buffer_left_stick = false;
  buffer_right_stick = false;
  stick_buffer_frames = 3;
  button_frames = replicate 32 0;
  physical_held = 0;
  physical_needs_release_mask = 0;
  accepted_action_callback = false;
  input_layer_update_callback = false;
  input_layer_pad_capture_active = false;
  auto_ui_action_accepted_callback = false;
  accepted_action_capture_active = false;
  accepted_action_capture_waiting_for_neutral = false;
  playback_override_active = false;
  playback_mode = standard_menu;
  playback_action = no_action;
  playback_ui_action_offered = false;
  playback_ui_direct_action_offered = false;
  scripted_buffered_mask = 0;
  scripted_ui_offered_mask = 0;
  strict_relay_mask = 0;
  current_frame_index = 0;
  last_aux_core_amount_input_frame = no_frame;
  aux_core_amount_menu_active = false;
  aux_core_amount_menu_object = 0;
  aux_core_native_acceptance_active = false;
  layer_registrations = replicate 256 no_registration;
  auto_ui_action_phase = idle;
  auto_ui_action_object = 0;
  auto_ui_action_mask = 0;
  auto_ui_action_offered = false;
  updating_input_layer = 0;
  active_ui_pad_data = no_pad_data;
  active_ui_pad_data_valid = false;
  left_stick = no_stick;
  right_stick = no_stick;
  left_stick_override_active = false;
  left_stick_override_x = 0;
  left_stick_override_y = 0;
  action_left_stick_override_active = false;
  action_right_stick_override_active = false;
  action_left_stick_override_x = 0;
  action_left_stick_override_y = 0;
  action_right_stick_override_x = 0;
  action_right_stick_override_y = 0;
  raw_button_override_active = false;
  raw_button_held = 0;
  raw_button_down = 0;
  layer_at = memory;
  calls = [];
}

-- A game memory without layers.
abbrev pub no_layers : ℕ → InputLayer
no_layers address = record {
  emitted_event = 0;
  secondary_event = 0;
  secondary_action = 0;
  object = 0;
  entry = λ _. record { ui_pad = 0; enabled = 0 };
  count = 0;
}
