-- ===== src/AutoTutorials/Examples.antt =====
-- The theorems on the automatic tutorials at concrete inputs.
use xenomods.Base.{ℕ, true, false, refl, List, [], ◌∷◌, some, arith, if◌then◌else◌, ◌==◌, ◌≢◌}
use xenomods.InputBuffer.State.{init, no_layers}
use xenomods.AutoTutorials.{
  TutorialState, TutorialMemory, no_runtime, standard_family, battle_family, toggle_tutorials,
  sequence_count, count_of,
}
use xenomods.AutoTutorials.Hooks.{
  TutorialStep, begins, registers, advances, accepts, run_tutorials, listener_hook,
  tutorial_update_hook,
}
use xenomods.AutoTutorials.Runtimes.{Every, IsSound, run_tutorials-AllSound}
use xenomods.AutoTutorials.Rearm.{advance_frames, advance_frames-again, IsRequested}
use xenomods.AutoTutorials.Disabled.{IsOff, toggle_tutorials-IsOff}
use xenomods.AutoTutorials.Closing.{listener_hook-closes}

-- A game with the listener 7 of the menu 70, whose pages are busy as long as the number says.
abbrev busy_by : ℕ → TutorialMemory
busy_by n = record {
  parent = λ l. if l == 7 then 70 else 0;
  count_at_128 = λ _. n;
  count_at_1f0 = λ _. n;
}

-- The tool is on, and nothing has happened yet.
abbrev fresh : TutorialState
fresh = record {
  tutorials_enabled = true;
  standard_runtime = no_runtime;
  dummy_runtime = no_runtime;
  battle_runtime = no_runtime;
  tips_runtime = no_runtime;
  input = init no_layers;
}

-- A battle tutorial opens, its listener 7 registers with object 5, and its first page is pressed.
abbrev opening : List TutorialStep
opening =
    begins battle_family 70
    ∷ registers (busy_by 0) 7 5
    ∷ tutorial_update_hook (busy_by 0) battle_family 70 (accepts 5 ∷ [])

run_tutorials-AllSound_example : Every IsSound (run_tutorials opening fresh)
run_tutorials-AllSound_example = run_tutorials-AllSound opening {s = fresh} (record {
  of_standard = ground arith;
  of_dummy = ground arith;
  of_battle = ground arith;
  of_tips = ground arith;
})

toggle_tutorials-IsOff_example : IsOff (
    run_tutorials
      (begins battle_family 70
        ∷ registers (busy_by 0) 7 5
        ∷ advances (busy_by 0) battle_family 70
        ∷ [])
      (toggle_tutorials false fresh))
toggle_tutorials-IsOff_example =
    toggle_tutorials-IsOff fresh
      (begins battle_family 70
        ∷ registers (busy_by 0) 7 5
        ∷ advances (busy_by 0) battle_family 70
        ∷ [])
      (tt, (tt, (tt, tt)))

-- The page of the battle tutorial after its press.
abbrev pressed_page : TutorialState
pressed_page = record fresh {
  battle_runtime = record { menu = 70; sender = 5; advance_armed = false; observed_busy = false };
}

advance_frames-again_example :
    IsRequested 5
      (advance_frames battle_family 70 (busy_by 0 ∷ busy_by 3 ∷ busy_by 0 ∷ []) pressed_page).input
unfolding sequence_count count_of
advance_frames-again_example =
    (advance_frames-again battle_family 70 5 refl (ground arith)
        (busy_by 0 ∷ busy_by 3 ∷ busy_by 0 ∷ []) pressed_page refl refl refl).0
      refl

-- A standard tutorial with a press under way gets its close event.
abbrev standard_page : TutorialState
standard_page = record fresh {
  standard_runtime = record { menu = 70; sender = 5; advance_armed = true; observed_busy = false };
}

listener_hook-closes_example :
    (run_tutorials
      (listener_hook standard_family 7
        (some 0x22)
        5
        (busy_by 0)
        (busy_by 0)
        (advances (busy_by 0) standard_family 70 ∷ []))
      standard_page).standard_runtime.menu
    ≢ 70
listener_hook-closes_example =
    (listener_hook-closes (busy_by 0) (busy_by 0) (busy_by 0) 7 5
      (advances (busy_by 0) standard_family 70 ∷ []) standard_page (ground arith)
      (ground arith)).0.0
