-- ===== src/Targeting/Splits.antt =====
-- The frames between the targets of a route: CompleteTargetSplit and the split timer of Update. The
-- file that SaveTargetsIfChanged writes is left out; it names the targets anew.
pub mod Naming
pub mod Best
pub mod Timing
mod Examples
use xenomods.Base.{
  ℕ, suc, ◌%◌, ◌^◌, Bool, true, false, not, ◌&&◌, ◌||◌, ◌==◌, ◌!=◌, ltb, List, [], ◌∷◌,
  if◌then◌else◌, Option, none, some, get_elem?, set_elem, length, Text,
}
use xenomods.Targeting.{TargetData}
use xenomods.Targeting.Names.{normalize_target_names}
use xenomods.Targeting.Entries.{find_next_movement_target_for_map}

-- The targets and the globals of the split timer.
pub record SplitState : Type 0 where
  pub targets : List TargetData
  pub target_to_target_origin_index : Option ℕ
  pub target_to_target_frame_count : ℕ
  pub target_to_target_timer_running : Bool
  pub most_recent_target_to_target_origin_index : Option ℕ
  pub inspect_selected_split : Bool

-- The split timer of Update.
unfoldable pub count_split_frame : SplitState → SplitState
count_split_frame s =
    if s.target_to_target_timer_running
    then record s { target_to_target_frame_count = suc s.target_to_target_frame_count % 2 ^ 64 }
    else s

-- lastFrames and bestFrames of a section that took some frames.
unfoldable pub time_section : ℕ → TargetData → TargetData
time_section frames t = record t {
  last_frames = frames;
  best_frames =
      if frames != 0 && (t.best_frames == 0 || ltb frames t.best_frames)
      then frames
      else t.best_frames;
}

-- The next section starts.
unfoldable pub start_section : ℕ → Bool → SplitState → SplitState
start_section i has_next s = record s {
  target_to_target_origin_index = some i;
  target_to_target_frame_count = 0;
  target_to_target_timer_running = has_next;
}

abbrev pub is_found : Option ℕ → Bool
is_found none = false
is_found (some i) = true

-- fmt::format of NormalizeTargetNames is the argument `format`.
module _ (format : Text → ℕ → Text) where
  -- The section that starts at an index is over.
  unfoldable pub finish_section : ℕ → TargetData → SplitState → SplitState
  unfolding time_section
  finish_section o section s = record s {
    targets =
        (normalize_target_names format
          (set_elem s.targets o (time_section s.target_to_target_frame_count section))).0;
    most_recent_target_to_target_origin_index = some o;
    inspect_selected_split = false;
  }

  -- CompleteTargetSplit
  unfoldable pub complete_target_split : (target_index map_id : ℕ) → SplitState → SplitState
  unfolding start_section finish_section
  complete_target_split i m s =
      let has_next = is_found (find_next_movement_target_for_map (some i) m s.targets) in
      if not (ltb i (length s.targets)) then s else elim s.target_to_target_origin_index [
        | none ↦ start_section i has_next s
        | some o ↦
            if not s.target_to_target_timer_running then s else elim (get_elem? s.targets o) [
              | none ↦ s
              | some section ↦ start_section i has_next (finish_section o section s)
            ]
      ]
