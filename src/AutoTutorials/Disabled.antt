-- ===== src/AutoTutorials/Disabled.antt =====
-- What the hooks of src/xenomods/modules/AutoTutorials.cpp leave of the automatic UI action once the
-- tool is switched off, and once a tutorial is closed.
use xenomods.Base.{
  ap, ℕ, Bool, true, false, not, ◌==◌, ◌≡◌, List, [], ◌∷◌, if-elim, if_true, refl, arith, Option,
}
use xenomods.InputBuffer.State.{InputState}
use xenomods.InputBuffer.Api.{is_idle, cancel_auto_ui_action}
use xenomods.AutoTutorials.{
  TutorialFamily, standard_family, dummy_family, battle_family, tips_family, TutorialRuntime,
  no_runtime, TutorialMemory, TutorialState, event_of, set_runtime, cancel, begin_tutorial,
  end_tutorial, start_popup, close_popup, observe_listener, register_sender,
  observe_registered_listener, all_families, advance_if_ready, disarm_sender,
  on_auto_ui_action_accepted, clear_tutorials, toggle_tutorials,
}
use xenomods.AutoTutorials.Hooks.{
  TutorialStep, begins, ends, observes, registers, advances, accepts, toggles, scene_changes,
  elsewhere, tutorial_step, run_tutorials,
}

-- The tool is off and no automatic UI action is under way.
pub record IsOff (s : TutorialState) : Type 0 where
  pub switched_off : s.tutorials_enabled ≡ false
  pub resting : is_idle s.input.auto_ui_action_phase ≡ true

-- The tool is not switched on, and the other parts of the program start no automatic action.
abbrev pub StaysOff : TutorialStep → Type 0
StaysOff (toggles enabled) = enabled ≡ false
StaysOff (elsewhere f) =
    (i : InputState)
    → is_idle i.auto_ui_action_phase ≡ true
    → is_idle (f i).auto_ui_action_phase ≡ true
StaysOff _ = Unit {0}

abbrev pub AllStayOff : List TutorialStep → Type 0
AllStayOff [] = Unit {0}
AllStayOff (step ∷ rest) = StaysOff step × AllStayOff rest

set_runtime-IsOff :
    (family : TutorialFamily) (r : TutorialRuntime) {s : TutorialState}
    → IsOff s
    → IsOff (set_runtime family r s)
set_runtime-IsOff standard_family r v = record {
  switched_off = v.switched_off;
  resting = v.resting;
}
set_runtime-IsOff dummy_family r v = record { switched_off = v.switched_off; resting = v.resting }
set_runtime-IsOff battle_family r v = record { switched_off = v.switched_off; resting = v.resting }
set_runtime-IsOff tips_family r v = record { switched_off = v.switched_off; resting = v.resting }

cancel_auto_ui_action-rests :
    (object : ℕ) (i : InputState)
    → is_idle i.auto_ui_action_phase ≡ true
    → is_idle (cancel_auto_ui_action object i).auto_ui_action_phase ≡ true
unfolding cancel_auto_ui_action
cancel_auto_ui_action-rests object i e = ground arith

cancel-IsOff : (sender : ℕ) {s : TutorialState} → IsOff s → IsOff (cancel sender s)
unfolding cancel
cancel-IsOff sender v = record {
  switched_off = v.switched_off;
  resting = cancel_auto_ui_action-rests sender _ v.resting;
}

-- A runtime is given up together with its action.
given_up-IsOff :
    (family : TutorialFamily) (r : TutorialRuntime) (sender : ℕ) {s : TutorialState}
    → IsOff s
    → IsOff (set_runtime family r (cancel sender s))
given_up-IsOff family r sender v = set_runtime-IsOff family r (cancel-IsOff sender v)

start_popup-IsOff :
    (family : TutorialFamily) (parent event sender : ℕ) (after : Bool) {s : TutorialState}
    → IsOff s
    → IsOff (start_popup family parent event sender after s)
unfolding start_popup
start_popup-IsOff family parent event sender after v =
    if-elim IsOff _ (given_up-IsOff family _ _ v) v

close_popup-IsOff :
    (family : TutorialFamily) (event : ℕ) (after : Bool) {s : TutorialState}
    → IsOff s
    → IsOff (close_popup family event after s)
unfolding close_popup
close_popup-IsOff family event after v = if-elim IsOff _ (given_up-IsOff family no_runtime _ v) v

observe_listener-IsOff :
    (memory : TutorialMemory) (family : TutorialFamily) (listener : ℕ) (event_data : Option ℕ)
    (sender : ℕ) (after : Bool) {s : TutorialState}
    → IsOff s
    → IsOff (observe_listener memory family listener event_data sender after s)
unfolding observe_listener
observe_listener-IsOff memory family listener event_data sender after v =
    let v1 =
      start_popup-IsOff family (memory.parent listener) (event_of event_data) sender after v in
    if-elim IsOff (listener == 0) v
      (if-elim IsOff _ v1 (close_popup-IsOff family _ after (set_runtime-IsOff family _ v1)))

register_sender-IsOff :
    (families : List TutorialFamily) (parent sender : ℕ) {s : TutorialState}
    → IsOff s
    → IsOff (register_sender families parent sender s)
unfolding register_sender
register_sender-IsOff [] parent sender v = v
register_sender-IsOff (family ∷ rest) parent sender v =
    if-elim IsOff _ (set_runtime-IsOff family _ v) (register_sender-IsOff rest parent sender v)

disarm_sender-IsOff :
    (families : List TutorialFamily) (object : ℕ) {s : TutorialState}
    → IsOff s
    → IsOff (disarm_sender families object s)
unfolding disarm_sender
disarm_sender-IsOff [] object v = v
disarm_sender-IsOff (family ∷ rest) object v =
    if-elim IsOff _ (set_runtime-IsOff family _ v) (disarm_sender-IsOff rest object v)

advance_if_ready-IsOff :
    (memory : TutorialMemory) (family : TutorialFamily) (menu : ℕ) {s : TutorialState}
    → IsOff s
    → IsOff (advance_if_ready memory family menu s)
unfolding advance_if_ready
advance_if_ready-IsOff memory family menu {s} v = rw (if_true _ (ap not v.switched_off)) v

-- Whatever was under way, all is given up.
clear_tutorials-rests :
    (s : TutorialState) → is_idle (clear_tutorials s).input.auto_ui_action_phase ≡ true
unfolding clear_tutorials cancel cancel_auto_ui_action
clear_tutorials-rests s = refl

tutorial_step-IsOff :
    (step : TutorialStep) {s : TutorialState}
    → StaysOff step
    → IsOff s
    → IsOff (tutorial_step step s)
unfolding tutorial_step begin_tutorial end_tutorial observe_registered_listener
    on_auto_ui_action_accepted toggle_tutorials clear_tutorials cancel
tutorial_step-IsOff (begins family menu) h v = set_runtime-IsOff family _ v
tutorial_step-IsOff (ends family menu) h v =
    if-elim IsOff _ (given_up-IsOff family no_runtime _ v) v
tutorial_step-IsOff (observes memory family listener event_data sender after) h v =
    observe_listener-IsOff memory family listener event_data sender after v
tutorial_step-IsOff (registers memory listener sender) h v =
    if-elim IsOff _ v (register_sender-IsOff all_families _ sender v)
tutorial_step-IsOff (advances memory family menu) h v = advance_if_ready-IsOff memory family menu v
tutorial_step-IsOff (accepts object) h v = disarm_sender-IsOff all_families object v
tutorial_step-IsOff (toggles enabled) {s} h v = record {
  switched_off = h;
  resting = clear_tutorials-rests s;
}
tutorial_step-IsOff scene_changes {s} h v = record {
  switched_off = v.switched_off;
  resting = clear_tutorials-rests s;
}
tutorial_step-IsOff (elsewhere f) h v = record {
  switched_off = v.switched_off;
  resting = h _ v.resting;
}

run_tutorials-IsOff :
    (steps : List TutorialStep) {s : TutorialState}
    → AllStayOff steps
    → IsOff s
    → IsOff (run_tutorials steps s)
unfolding run_tutorials
run_tutorials-IsOff [] h v = v
run_tutorials-IsOff (step ∷ rest) h v =
    run_tutorials-IsOff rest h.1 (tutorial_step-IsOff step h.0 v)

-- From the moment the tool is switched off, whatever was under way, no automatic UI action is
-- under way in any run of the hooks in which the tool is not switched on again and the other
-- parts of the program start none.
pub toggle_tutorials-IsOff :
    (s : TutorialState) (steps : List TutorialStep)
    → AllStayOff steps
    → IsOff (run_tutorials steps (toggle_tutorials false s))
unfolding toggle_tutorials
toggle_tutorials-IsOff s steps h =
    run_tutorials-IsOff steps h (record { switched_off = refl; resting = clear_tutorials-rests s })
