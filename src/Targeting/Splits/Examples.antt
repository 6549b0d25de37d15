-- ===== src/Targeting/Splits/Examples.antt =====
-- A section that takes two frames where ten were its best.
use xenomods.Base.{true, some, ℕ, ◌+◌, false, [], ◌∷◌, ◌++◌, refl, arith, none, Text, replicate}
use xenomods.Targeting.{TargetData, new_target_data, is_movement_target}
use xenomods.Targeting.Entries.{find_next_movement_target_for_map, find_from, after, on_map}
use xenomods.Targeting.Splits.{SplitState}
use xenomods.Targeting.Splits.Naming.{value_at}
use xenomods.Targeting.Splits.Best.{
  Improves, best_at, frame_passed, target_reached, split_run, split_run-Improves,
}
use xenomods.Targeting.Splits.Timing.{later, Timed, section-frames}

abbrev timed_target : TargetData
timed_target = record new_target_data { map_id = 1; best_frames = 10 }

abbrev split_start : SplitState
split_start = record {
  targets = timed_target ∷ record new_target_data { map_id = 1 } ∷ [];
  target_to_target_origin_index = none;
  target_to_target_frame_count = 0;
  target_to_target_timer_running = false;
  most_recent_target_to_target_origin_index = none;
  inspect_selected_split = false;
}

-- A stand-in for fmt::format.
abbrev numbered_name : Text → ℕ → Text
numbered_name name n = name ++ ((48 + n) ∷ [])

split_run-Improves_example : Improves 10 (
    best_at
      (split_run numbered_name
        (target_reached 0 1 ∷ frame_passed ∷ target_reached 1 1 ∷ [])
        split_start).targets
      0)
unfolding value_at
split_run-Improves_example =
    split_run-Improves numbered_name (target_reached 0 1 ∷ frame_passed ∷ target_reached 1 1 ∷ [])
      split_start 0

-- The timer in the section of the first target, which has run for four frames.
abbrev split_running : SplitState
split_running = record split_start {
  targets = timed_target ∷ timed_target ∷ timed_target ∷ [];
  target_to_target_origin_index = some 0;
  target_to_target_frame_count = 4;
  target_to_target_timer_running = true;
}

section-frames_example :
    Timed 1 2
      (split_run numbered_name (target_reached 1 1 ∷ []) split_running).targets
      (split_run numbered_name
        (target_reached 1 1 ∷ (replicate 2 frame_passed ++ (target_reached 2 1 ∷ [])))
        split_running).targets
unfolding find_next_movement_target_for_map find_from after on_map is_movement_target
section-frames_example =
    section-frames numbered_name 1 1 2 1 2 split_running (omega arith) (omega arith)
      (later 0 timed_target refl refl refl) refl (omega arith)
