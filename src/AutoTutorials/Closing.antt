-- ===== src/AutoTutorials/Closing.antt =====
-- The close event of a standard tutorial: src/xenomods/modules/AutoTutorials.cpp, ObserveListener.
use xenomods.Base.{
  ℕ, true, false, not, ◌||◌, ◌==◌, ◌!=◌, ◌≡◌, ◌≢◌, ◌⊎◌, inl, inr, List, [], ◌∷◌, if-cases, if_true,
  if_false, refl, arith, some, sym, ◌∙◌, Bool-cases,
}
use mathlib.Core.Path.{subst}
use xenomods.InputBuffer.State.{InputState}
use xenomods.InputBuffer.Api.{is_idle, cancel_auto_ui_action}
use xenomods.AutoTutorials.{
  standard_family, TutorialRuntime, no_runtime, TutorialMemory, TutorialState, cancel, start_popup,
  close_popup, observe_listener, adopt_sender, arm_page, advance_if_ready,
}
use xenomods.AutoTutorials.Hooks.{
  TutorialStep, observes, tutorial_step, run_tutorials, listener_hook, run_tutorials-++,
}

-- No automatic UI action is under way for an object.
abbrev pub IsReleased : ℕ → InputState → Type 0
IsReleased object i = (is_idle i.auto_ui_action_phase ≡ true) ⊎ (i.auto_ui_action_object ≢ object)

cancel_auto_ui_action-IsReleased :
    (object : ℕ) (i : InputState) → object ≢ 0 → IsReleased object (cancel_auto_ui_action object i)
unfolding cancel_auto_ui_action
cancel_auto_ui_action-IsReleased object i h = ground arith

-- A standard runtime that has a menu and awaits the close event of its listener.
close_observed :
    (memory : TutorialMemory) (listener sender : ℕ) (s : TutorialState)
    → listener ≢ 0
    → s.standard_runtime.menu ≡ memory.parent listener
    → memory.parent listener ≢ 0
    → observe_listener memory standard_family listener (some 0x22) sender true s ≡ record s {
      standard_runtime = no_runtime;
      input = cancel_auto_ui_action (adopt_sender sender s.standard_runtime).sender s.input;
    }
unfolding observe_listener start_popup close_popup cancel arm_page adopt_sender
close_observed memory listener sender s l m p =
    if_false {b = listener == 0} s (ground arith) ∙ if_false _ (waits (ground arith))
  where
    waits :
        s.standard_runtime.menu ≢ 0
        → (s.standard_runtime.menu == 0 || s.standard_runtime.menu != memory.parent listener)
          ≡ false
    waits h = ground arith

-- If the standard runtime belongs to another menu, the event is not for it.
close_ignored :
    (memory : TutorialMemory) (listener sender : ℕ) (s : TutorialState)
    → s.standard_runtime.menu ≢ memory.parent listener
    → observe_listener memory standard_family listener (some 0x22) sender true s ≡ s
unfolding observe_listener start_popup
close_ignored memory listener sender s m =
    if-cases (λ t. t ≡ s) (listener == 0) (λ _. refl) (λ _. if_true _ (other m))
  where
    other :
        s.standard_runtime.menu ≢ memory.parent listener
        → (s.standard_runtime.menu == 0 || s.standard_runtime.menu != memory.parent listener) ≡ true
    other h = ground arith

-- A standard runtime of another menu asks for nothing.
advance_ignored :
    (memory : TutorialMemory) (menu : ℕ) (s : TutorialState)
    → s.standard_runtime.menu ≢ menu
    → advance_if_ready memory standard_family menu s ≡ s
unfolding advance_if_ready
advance_ignored memory menu s m =
    if-cases (λ t. t ≡ s) (not s.tutorials_enabled) (λ _. refl) (λ _. if_true _ (other m))
  where
    other :
        s.standard_runtime.menu ≢ menu
        → (s.standard_runtime.menu != menu || s.standard_runtime.sender == 0) ≡ true
    other h = ground arith

-- The close event leaves the runtime without its menu, and without an action for its object.
abbrev Closed : (menu : ℕ) (r : TutorialRuntime) (t : TutorialState) → Type 0
Closed menu r t =
    (t.standard_runtime.menu ≢ menu) × (r.menu ≡ menu → r.sender ≢ 0 → IsReleased r.sender t.input)

adopt_sender-kept :
    (sender : ℕ) (r : TutorialRuntime) → r.sender ≢ 0 → (adopt_sender sender r).sender ≡ r.sender
unfolding adopt_sender
adopt_sender-kept sender r h = ground arith

closes :
    (memory : TutorialMemory) (listener sender : ℕ) (s : TutorialState)
    → listener ≢ 0
    → memory.parent listener ≢ 0
    → Closed
        (memory.parent listener)
        s.standard_runtime
        (observe_listener memory standard_family listener (some 0x22) sender true s)
closes memory listener sender s l p =
    elim (Bool-cases (s.standard_runtime.menu == memory.parent listener)) [
      | inl e ↦
          let observed = close_observed memory listener sender s l (ground arith) p in
          subst (Closed (memory.parent listener) s.standard_runtime) (sym observed) (
            ground arith,
            λ _ h.
                subst
                  (λ object.
                    IsReleased s.standard_runtime.sender (cancel_auto_ui_action object s.input))
                  (sym (adopt_sender-kept sender s.standard_runtime h))
                  (cancel_auto_ui_action-IsReleased s.standard_runtime.sender s.input h),
          )
      | inr e ↦
          let observed = close_ignored memory listener sender s (ground arith) in
          subst (Closed (memory.parent listener) s.standard_runtime) (sym observed)
            (ground arith, λ m. absurd (ground arith))
    ]

-- When a standard tutorial gets its close event, and whatever the game does with it, the listener
-- hook leaves the runtime without the tutorial's menu. So no automatic UI action is under way for
-- the object that the runtime had when the game had handled the event, and a later update of the
-- closed menu requests nothing.
pub listener_hook-closes :
    (before after now : TutorialMemory) (listener sender : ℕ) (orig : List TutorialStep)
    (s : TutorialState)
    → listener ≢ 0
    → after.parent listener ≢ 0
    → Closed
        (after.parent listener)
        (run_tutorials
          (observes before standard_family listener (some 0x22) sender false ∷ orig)
          s).standard_runtime
        (run_tutorials
          (listener_hook standard_family listener (some 0x22) sender before after orig)
          s)
      × (advance_if_ready now standard_family (after.parent listener) (
            run_tutorials
              (listener_hook standard_family listener (some 0x22) sender before after orig)
              s)
          ≡ run_tutorials
              (listener_hook standard_family listener (some 0x22) sender before after orig)
              s)
unfolding run_tutorials tutorial_step
listener_hook-closes before after now listener sender orig s l p =
    let u =
      run_tutorials orig
        (observe_listener before standard_family listener (some 0x22) sender false s) in
    let split =
      run_tutorials-++ orig (observes after standard_family listener (some 0x22) sender true ∷ [])
        (observe_listener before standard_family listener (some 0x22) sender false s) in
    let closed =
      subst (Closed (after.parent listener) u.standard_runtime) (sym split)
        (closes after listener sender u l p) in
    (closed, advance_ignored now (after.parent listener) _ closed.0)
