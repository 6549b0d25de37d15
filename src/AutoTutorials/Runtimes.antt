-- ===== src/AutoTutorials/Runtimes.antt =====
-- The four runtimes of src/xenomods/modules/AutoTutorials.cpp in every run of the hooks.
use xenomods.Base.{
  ℕ, Bool, true, false, ◌≡◌, List, [], ◌∷◌, if-elim, if-cases, arith, Option, not, ◌!=◌, ◌==◌, ◌&&◌,
}
use xenomods.InputBuffer.State.{InputState}
use xenomods.AutoTutorials.{
  is_standard, event_of, sequence_count, TutorialFamily, standard_family, dummy_family,
  battle_family, tips_family, TutorialRuntime, no_runtime, TutorialMemory, TutorialState,
  runtime_for, set_runtime, cancel, request, begin_tutorial, end_tutorial, start_popup,
  adopt_sender, arm_page, close_popup, observe_listener, register_sender,
  observe_registered_listener, all_families, rearm, advance_page, advance_if_ready, disarm_sender,
  on_auto_ui_action_accepted, clear_tutorials, toggle_tutorials,
}
use xenomods.AutoTutorials.Hooks.{
  TutorialStep, begins, ends, observes, registers, advances, accepts, toggles, scene_changes,
  elsewhere, tutorial_step, run_tutorials,
}

-- What holds of each of the four runtimes.
pub record Every {ℓ} (P : TutorialRuntime → Type ℓ) (s : TutorialState) : Type ℓ where
  pub of_standard : P s.standard_runtime
  pub of_dummy : P s.dummy_runtime
  pub of_battle : P s.battle_runtime
  pub of_tips : P s.tips_runtime

module _ {ℓ} {P : TutorialRuntime → Type ℓ} where
  pub Every-runtime_for :
      (family : TutorialFamily) {s : TutorialState} → Every P s → P (runtime_for family s)
  Every-runtime_for standard_family e = e.of_standard
  Every-runtime_for dummy_family e = e.of_dummy
  Every-runtime_for battle_family e = e.of_battle
  Every-runtime_for tips_family e = e.of_tips

  pub Every-set_runtime :
      (family : TutorialFamily) (r : TutorialRuntime) {s : TutorialState}
      → P r
      → Every P s
      → Every P (set_runtime family r s)
  Every-set_runtime standard_family r p e = record {
    of_standard = p;
    of_dummy = e.of_dummy;
    of_battle = e.of_battle;
    of_tips = e.of_tips;
  }
  Every-set_runtime dummy_family r p e = record {
    of_standard = e.of_standard;
    of_dummy = p;
    of_battle = e.of_battle;
    of_tips = e.of_tips;
  }
  Every-set_runtime battle_family r p e = record {
    of_standard = e.of_standard;
    of_dummy = e.of_dummy;
    of_battle = p;
    of_tips = e.of_tips;
  }
  Every-set_runtime tips_family r p e = record {
    of_standard = e.of_standard;
    of_dummy = e.of_dummy;
    of_battle = e.of_battle;
    of_tips = p;
  }

  -- A change of the input buffer is none of the runtimes.
  pub Every-input :
      (input : InputState) {s : TutorialState} → Every P s → Every P (record s { input = input })
  Every-input input e = record {
    of_standard = e.of_standard;
    of_dummy = e.of_dummy;
    of_battle = e.of_battle;
    of_tips = e.of_tips;
  }

  pub cancel-Every : (sender : ℕ) {s : TutorialState} → Every P s → Every P (cancel sender s)
  unfolding cancel
  cancel-Every sender e = Every-input _ e

  pub request-Every : (sender : ℕ) {s : TutorialState} → Every P s → Every P (request sender s)
  unfolding request
  request-Every sender e = Every-input _ e

-- The menu was seen busy only since the last press, and a runtime without a menu awaits none.
pub record IsSound (r : TutorialRuntime) : Type 0 where
  pub seen_busy : r.observed_busy ≡ true → r.advance_armed ≡ false
  pub without_menu : r.menu ≡ 0 → r.advance_armed ≡ true

no_runtime-IsSound : IsSound no_runtime
no_runtime-IsSound = ground arith

adopt_sender-IsSound :
    (sender : ℕ) {r : TutorialRuntime} → IsSound r → IsSound (adopt_sender sender r)
unfolding adopt_sender
adopt_sender-IsSound sender v = ground arith

arm_page-IsSound :
    (event count : ℕ) {r : TutorialRuntime} → IsSound r → IsSound (arm_page event count r)
unfolding arm_page
arm_page-IsSound event count v = ground arith

rearm-IsSound : (busy : Bool) {r : TutorialRuntime} → IsSound r → IsSound (rearm busy r)
unfolding rearm
rearm-IsSound busy v = ground arith

-- The runtime of a press that the game accepted.
disarmed-IsSound :
    (r : TutorialRuntime) (object : ℕ)
    → (r.menu != 0 && r.sender == object) ≡ true
    → IsSound (record r { advance_armed = false; observed_busy = false })
disarmed-IsSound r object e = ground arith

-- All four are sound.
abbrev AllSound : TutorialState → Type 0
AllSound = Every IsSound

start_popup-AllSound :
    (family : TutorialFamily) (parent event sender : ℕ) (after : Bool) {s : TutorialState}
    → AllSound s
    → AllSound (start_popup family parent event sender after s)
unfolding start_popup
start_popup-AllSound family parent event sender after v =
    if-elim AllSound _ (Every-set_runtime family _ (ground arith) (cancel-Every _ v)) v

close_popup-AllSound :
    (family : TutorialFamily) (event : ℕ) (after : Bool) {s : TutorialState}
    → AllSound s
    → AllSound (close_popup family event after s)
unfolding close_popup
close_popup-AllSound family event after v =
    if-elim AllSound _ (Every-set_runtime family _ no_runtime-IsSound (cancel-Every _ v)) v

observe_listener-AllSound :
    (memory : TutorialMemory) (family : TutorialFamily) (listener : ℕ) (event_data : Option ℕ)
    (sender : ℕ) (after : Bool) {s : TutorialState}
    → AllSound s
    → AllSound (observe_listener memory family listener event_data sender after s)
unfolding observe_listener
observe_listener-AllSound memory family listener event_data sender after v =
    let v1 = start_popup-AllSound family _ _ sender after v in
    if-elim AllSound _ v (
      if-elim AllSound _ v1 (
        close_popup-AllSound family _ after (
          Every-set_runtime family _
            (arm_page-IsSound (event_of event_data)
              (sequence_count memory family (memory.parent listener))
              (adopt_sender-IsSound sender (Every-runtime_for family v1)))
            v1)))

register_sender-AllSound :
    (families : List TutorialFamily) (parent sender : ℕ) {s : TutorialState}
    → AllSound s
    → AllSound (register_sender families parent sender s)
unfolding register_sender
register_sender-AllSound [] parent sender v = v
register_sender-AllSound (family ∷ rest) parent sender v =
    let r = Every-runtime_for family v in
    if-elim AllSound _
      (Every-set_runtime family _
        (record { seen_busy = r.seen_busy; without_menu = r.without_menu }) v)
      (register_sender-AllSound rest parent sender v)

advance_page-AllSound :
    (family : TutorialFamily) (busy : Bool) {s : TutorialState}
    → AllSound s
    → AllSound (advance_page family busy s)
unfolding advance_page
advance_page-AllSound family busy v =
    let v1 = Every-set_runtime family _ (rearm-IsSound busy (Every-runtime_for family v)) v in
    if-elim AllSound _ v1 (request-Every _ v1)

advance_if_ready-AllSound :
    (memory : TutorialMemory) (family : TutorialFamily) (menu : ℕ) {s : TutorialState}
    → AllSound s
    → AllSound (advance_if_ready memory family menu s)
unfolding advance_if_ready
advance_if_ready-AllSound memory family menu {s} v =
    let page = advance_page-AllSound family (sequence_count memory family menu != 0) v in
    if-elim AllSound (not s.tutorials_enabled) v (
      if-elim AllSound _ v (
        if-elim AllSound (is_standard family) (request-Every (runtime_for family s).sender v) page))

disarm_sender-AllSound :
    (families : List TutorialFamily) (object : ℕ) {s : TutorialState}
    → AllSound s
    → AllSound (disarm_sender families object s)
unfolding disarm_sender
disarm_sender-AllSound [] object v = v
disarm_sender-AllSound (family ∷ rest) object {s} v =
    if-cases AllSound _
      (λ e. Every-set_runtime family _ (disarmed-IsSound (runtime_for family s) object e) v)
      (λ _. disarm_sender-AllSound rest object v)

tutorial_step-AllSound :
    (step : TutorialStep) {s : TutorialState} → AllSound s → AllSound (tutorial_step step s)
unfolding tutorial_step begin_tutorial end_tutorial observe_registered_listener
    on_auto_ui_action_accepted clear_tutorials toggle_tutorials
tutorial_step-AllSound (begins family menu) v = Every-set_runtime family _ (ground arith) v
tutorial_step-AllSound (ends family menu) v =
    if-elim AllSound _ (Every-set_runtime family _ no_runtime-IsSound (cancel-Every _ v)) v
tutorial_step-AllSound (observes memory family listener event_data sender after) v =
    observe_listener-AllSound memory family listener event_data sender after v
tutorial_step-AllSound (registers memory listener sender) v =
    if-elim AllSound _ v (register_sender-AllSound all_families _ sender v)
tutorial_step-AllSound (advances memory family menu) v =
    advance_if_ready-AllSound memory family menu v
tutorial_step-AllSound (accepts object) v = disarm_sender-AllSound all_families object v
tutorial_step-AllSound (toggles enabled) v = record {
  of_standard = no_runtime-IsSound;
  of_dummy = no_runtime-IsSound;
  of_battle = no_runtime-IsSound;
  of_tips = no_runtime-IsSound;
}
tutorial_step-AllSound scene_changes v = record {
  of_standard = no_runtime-IsSound;
  of_dummy = no_runtime-IsSound;
  of_battle = no_runtime-IsSound;
  of_tips = no_runtime-IsSound;
}
tutorial_step-AllSound (elsewhere f) v = Every-input _ v

-- In every run of the hooks, whatever else happens to the input buffer, all four runtimes stay
-- sound: the menu was seen busy only while the runtime awaits the end of a page, and a runtime
-- without a menu awaits none.
pub run_tutorials-AllSound :
    (steps : List TutorialStep) {s : TutorialState}
    → Every IsSound s
    → Every IsSound (run_tutorials steps s)
unfolding run_tutorials
run_tutorials-AllSound [] v = v
run_tutorials-AllSound (step ∷ rest) v = run_tutorials-AllSound rest (tutorial_step-AllSound step v)
