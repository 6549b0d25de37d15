-- ===== src/AutoTutorials/Hooks.antt =====
-- The hooks of src/xenomods/modules/AutoTutorials.cpp as sequences of steps: what a hook does before
-- and after the game's own function, around the steps of the hooks that this function runs.
use xenomods.Base.{ℕ, Bool, true, false, Option, List, [], ◌∷◌, ◌++◌, ◌≡◌, refl}
use xenomods.InputBuffer.State.{InputState}
use xenomods.AutoTutorials.{
  TutorialFamily, TutorialMemory, TutorialState, begin_tutorial, end_tutorial, observe_listener,
  observe_registered_listener, advance_if_ready, on_auto_ui_action_accepted, clear_tutorials,
  toggle_tutorials,
}

-- One step; the last one is a change of the input buffer by another part of the program.
pub data TutorialStep : Type 0 where
  begins ends : TutorialFamily → (menu : ℕ) → TutorialStep
  observes :
      TutorialMemory
      → TutorialFamily
      → (listener : ℕ) → (event_data : Option ℕ) → (sender : ℕ) → (after : Bool) → TutorialStep
  registers : TutorialMemory → (listener sender : ℕ) → TutorialStep
  advances : TutorialMemory → TutorialFamily → (menu : ℕ) → TutorialStep
  accepts : (object : ℕ) → TutorialStep
  toggles : (enabled : Bool) → TutorialStep
  scene_changes : TutorialStep
  elsewhere : (InputState → InputState) → TutorialStep

unfoldable pub tutorial_step : TutorialStep → TutorialState → TutorialState
tutorial_step (begins family menu) s = begin_tutorial family menu s
tutorial_step (ends family menu) s = end_tutorial family menu s
tutorial_step (observes memory family listener event_data sender after) s =
    observe_listener memory family listener event_data sender after s
tutorial_step (registers memory listener sender) s =
    observe_registered_listener memory listener sender s
tutorial_step (advances memory family menu) s = advance_if_ready memory family menu s
tutorial_step (accepts object) s = on_auto_ui_action_accepted object s
tutorial_step (toggles enabled) s = toggle_tutorials enabled s
tutorial_step scene_changes s = clear_tutorials s
tutorial_step (elsewhere f) s = record s { input = f s.input }

unfoldable pub run_tutorials : List TutorialStep → TutorialState → TutorialState
unfolding tutorial_step
run_tutorials [] s = s
run_tutorials (step ∷ rest) s = run_tutorials rest (tutorial_step step s)

-- The four listener hooks. The memory may have changed when Orig returns.
abbrev pub listener_hook :
    TutorialFamily
    → (listener : ℕ) → (event_data : Option ℕ) → (sender : ℕ) → (before after : TutorialMemory)
    → (orig : List TutorialStep) → List TutorialStep
listener_hook family listener event_data sender before after orig =
    observes before family listener event_data sender false ∷ orig
    ++ observes after family listener event_data sender true ∷ []

-- RegisterObjectListenerHook
abbrev pub register_object_listener_hook :
    TutorialMemory → (sender listener : ℕ) → (orig : List TutorialStep) → List TutorialStep
register_object_listener_hook memory sender listener orig = registers memory listener sender ∷ orig

-- AUTO_TUTORIAL_LIFECYCLE_HOOKS
abbrev pub initialize_hook :
    TutorialFamily → (menu : ℕ) → (orig : List TutorialStep) → List TutorialStep
initialize_hook family menu orig = begins family menu ∷ orig

abbrev pub finalize_hook :
    TutorialFamily → (menu : ℕ) → (orig : List TutorialStep) → List TutorialStep
finalize_hook family menu orig = ends family menu ∷ orig

abbrev pub tutorial_update_hook :
    TutorialMemory → TutorialFamily → (menu : ℕ) → (orig : List TutorialStep) → List TutorialStep
tutorial_update_hook memory family menu orig = orig ++ advances memory family menu ∷ []

-- The steps of two sequences follow each other.
pub run_tutorials-++ :
    (xs ys : List TutorialStep) (s : TutorialState)
    → run_tutorials (xs ++ ys) s ≡ run_tutorials ys (run_tutorials xs s)
unfolding run_tutorials
run_tutorials-++ [] ys s = refl
run_tutorials-++ (x ∷ xs) ys s = run_tutorials-++ xs ys (tutorial_step x s)
