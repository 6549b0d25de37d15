-- ===== src/Targeting.antt =====
-- The entries of a Targeting route: src/xenomods/modules/Targeting.hpp. A std::string is the list of
-- its bytes, a float its IEEE bit pattern; an index that may be negative is none when it is.
pub mod Names
pub mod Entries
pub mod Route
pub mod Actions
pub mod Delays
pub mod RouteFiles
pub mod Splits
mod Examples
use xenomods.Base.{ℕ, zero, suc, Bool, true, false, not, ◌&&◌, ◌||◌, ◌==◌, List, [], Text}

-- An int.
pub data ℤ : Type 0 where
  pos : ℕ → ℤ
  negsuc : ℕ → ℤ

-- std::max(0, n)
abbrev pub max_zero : ℤ → ℕ
max_zero (pos n) = n
max_zero (negsuc n) = 0

-- std::max(1, n)
abbrev pub max_one : ℤ → ℕ
max_one (pos zero) = 1
max_one (pos (suc n)) = suc n
max_one (negsuc n) = 1

pub data TargetType : Type 0 where
  position_target : TargetType
  delay_step : TargetType
  action_step : TargetType
  toggle_step : TargetType
  shop_tas : TargetType
  menu_tas : TargetType
  travel_tas : TargetType

pub data ToggleSetting : Type 0 where
  auto_cutscene_skips : ToggleSetting

pub data ActionInputType : Type 0 where
  buttons : ActionInputType
  left_stick : ActionInputType
  right_stick : ActionInputType

pub record Vec3 : Type 0 where
  pub x : ℕ
  pub y : ℕ
  pub z : ℕ

pub record TargetData : Type 0 where
  pub type : TargetType
  pub name : Text
  pub map_name : Text
  pub map_id : ℕ
  pub position : Vec3
  pub delay_frames : ℤ
  pub button_mask : ℕ
  pub action_input_type : ActionInputType
  pub stick_x : ℕ
  pub stick_y : ℕ
  pub last_frames : ℕ
  pub best_frames : ℕ
  pub hold_frames : ℤ
  pub buffered : Bool
  pub toggle_setting : ToggleSetting
  pub toggle_enabled : Bool
  pub intermediate : Bool

-- A TargetData that is initialised by its defaults.
abbrev pub new_target_data : TargetData
new_target_data = record {
  type = position_target;
  name = [];
  map_name = [];
  map_id = 0;
  position = record { x = 0; y = 0; z = 0 };
  delay_frames = pos 60;
  button_mask = 0;
  action_input_type = buttons;
  stick_x = 0;
  stick_y = 0;
  last_frames = 0;
  best_frames = 0;
  hold_frames = pos 1;
  buffered = false;
  toggle_setting = auto_cutscene_skips;
  toggle_enabled = false;
  intermediate = false;
}

-- type == TargetType::Position
unfoldable pub is_position : TargetType → Bool
is_position position_target = true
is_position delay_step = false
is_position action_step = false
is_position toggle_step = false
is_position shop_tas = false
is_position menu_tas = false
is_position travel_tas = false

-- IsMenuTasStep
unfoldable pub is_menu_tas_step : TargetType → Bool
is_menu_tas_step position_target = false
is_menu_tas_step delay_step = false
is_menu_tas_step action_step = false
is_menu_tas_step toggle_step = false
is_menu_tas_step shop_tas = false
is_menu_tas_step menu_tas = true
is_menu_tas_step travel_tas = true

-- IsMovementTarget
unfoldable pub is_movement_target : TargetData → Bool
unfolding is_position is_menu_tas_step
is_movement_target t = is_position t.type || (is_menu_tas_step t.type && not t.intermediate)
