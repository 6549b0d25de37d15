-- ===== src/MenuHelper.antt =====
-- Recording and playback of menu inputs: the state of src/xenomods/modules/MenuHelper.cpp. A string is
-- the list of its bytes; an index that may be negative is none when it is. The messages for the
-- player are left out.
pub mod Sandbox
pub mod Playback
pub mod Events
pub mod Control
pub mod Session
pub mod Repair
pub mod Files
pub mod Hooks
mod Examples
use xenomods.Base.{ℕ, Bool, false, ◌==◌, ◌||◌, List, [], ◌∷◌, Option, none, Text}
use xenomods.InputBuffer.State.{AcceptedAction, no_action, InputState, no_frame}

pub data RecordingKind : Type 0 where
  shop menu travel : RecordingKind

-- The value of the enumerator.
abbrev pub kind_value : RecordingKind → ℕ
kind_value shop = 0
kind_value menu = 1
kind_value travel = 2

abbrev pub same_kind : RecordingKind → RecordingKind → Bool
same_kind k l = kind_value k == kind_value l

pub data HelperState : Type 0 where
  idle armed_record recording draft_ready armed_playback playing : HelperState
  waiting_for_shop_close complete cancelled : HelperState

-- The value of the enumerator.
abbrev pub state_value : HelperState → ℕ
state_value idle = 0
state_value armed_record = 1
state_value recording = 2
state_value draft_ready = 3
state_value armed_playback = 4
state_value playing = 5
state_value waiting_for_shop_close = 6
state_value complete = 7
state_value cancelled = 8

abbrev pub same_state : HelperState → HelperState → Bool
same_state s t = state_value s == state_value t

-- IsPlaybackActive
abbrev pub is_playback_active : HelperState → Bool
is_playback_active s = same_state s playing || same_state s waiting_for_shop_close

-- struct Recording
pub record Recording : Type 0 where
  pub name : Text
  pub actions : List AcceptedAction
  pub last_playback_frames : ℕ
  pub kind : RecordingKind

abbrev pub max_recordings : ℕ
max_recordings = 64

abbrev pub max_actions : ℕ
max_actions = 65536

-- A pointer to a GfDataStore: an address of the game, 0 for nullptr, or sandboxDataStore.data().
pub data StorePointer : Type 0 where
  game_store : ℕ → StorePointer
  sandbox_store : StorePointer

-- The sandbox of the save data. The game's stores are memory by address.
pub record SandboxState : Type 0 where
  pub singleton_found : Bool
  pub singleton : StorePointer
  pub game_stores : ℕ → List ℕ
  pub sandbox_data_store : List ℕ
  pub real_data_store : StorePointer
  pub sandbox_data_active : Bool

-- The globals, with the state of the input buffer.
pub record HelperData : Type 0 where
  pub sandbox_mode : Bool
  pub sandbox : SandboxState
  pub recordings : List Recording
  pub draft_actions : List AcceptedAction
  pub playback_actions : List AcceptedAction
  pub draft_name : Text
  pub draft_kind : RecordingKind
  pub active_kind : RecordingKind
  pub state : HelperState
  pub selected_recording : Option ℕ
  pub playback_recording : Option ℕ
  pub playback_index : ℕ
  pub update_frame : ℕ
  pub playback_frames : ℕ
  pub last_recorded_frame : ℕ
  pub last_recorded_action : AcceptedAction
  pub playback_neutral_frames : ℕ
  pub shop_open : Bool
  pub shop_transition_blocked : Bool
  pub main_menu_open : Bool
  pub main_menu_opening : Bool
  pub main_menu_input_ready : Bool
  pub travel_menu_open : Bool
  pub travel_menu_opening : Bool
  pub tutorial_blade_bond_pending : Bool
  pub tutorial_blade_bond_open : Bool
  pub aux_core_recipe_open : Bool
  pub aux_core_shop_waiting_for_input : Bool
  pub aux_core_shop_session : Bool
  pub aux_core_list_input_handle : ℕ
  pub aux_core_recipe_input_handle : ℕ
  pub accepting_aux_core_amount_playback : Bool
  pub input : InputState

-- Their initial values. The draft's name is "Shop route".
abbrev pub start_helper : SandboxState → InputState → HelperData
start_helper sandbox input = record {
  sandbox_mode = false;
  sandbox = sandbox;
  recordings = [];
  draft_actions = [];
  playback_actions = [];
  draft_name = 83 ∷ 104 ∷ 111 ∷ 112 ∷ 32 ∷ 114 ∷ 111 ∷ 117 ∷ 116 ∷ 101 ∷ [];
  draft_kind = shop;
  active_kind = shop;
  state = idle;
  selected_recording = none;
  playback_recording = none;
  playback_index = 0;
  update_frame = 0;
  playback_frames = 0;
  last_recorded_frame = no_frame;
  last_recorded_action = no_action;
  playback_neutral_frames = 0;
  shop_open = false;
  shop_transition_blocked = false;
  main_menu_open = false;
  main_menu_opening = false;
  main_menu_input_ready = false;
  travel_menu_open = false;
  travel_menu_opening = false;
  tutorial_blade_bond_pending = false;
  tutorial_blade_bond_open = false;
  aux_core_recipe_open = false;
  aux_core_shop_waiting_for_input = false;
  aux_core_shop_session = false;
  aux_core_list_input_handle = 0;
  aux_core_recipe_input_handle = 0;
  accepting_aux_core_amount_playback = false;
  input = input;
}
