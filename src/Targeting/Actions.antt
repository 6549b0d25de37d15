-- ===== src/Targeting/Actions.antt =====
-- The actions that a route presses: QueueAction and UpdateActiveAction.
pub mod Requests
pub mod Frames
pub mod Timing
use xenomods.Base.{
  ℕ, zero, suc, ◌-◌, Bool, true, false, not, ◌&&◌, ◌||◌, ◌==◌, ◌!=◌, List, [], ◌∷◌, ◌++◌,
  if◌then◌else◌, Option, none, some, bit_and, bit_or, get_elem?,
}
use xenomods.InputBuffer.State.{InputState}
use xenomods.InputBuffer.Api.{
  set_raw_button_override, set_buffered_button_action, cancel_buffered_button_action,
  buffered_button_action_pending_mask,
}
use xenomods.InputBuffer.Sticks.{set_action_stick_override}
use xenomods.Targeting.{
  TargetData, ActionInputType, buttons, left_stick, right_stick, max_zero, max_one,
}
use xenomods.Targeting.Route.{RouteState, ActiveAction}

-- QueueAction; an index out of range queues nothing.
unfoldable pub queue_action : ℕ → RouteState → RouteState
queue_action i s = elim (get_elem? s.targets i) [
  | none ↦ s
  | some t ↦ record s {
    active_actions =
        s.active_actions
        ++ (record {
          index = i;
          delay_frames_remaining = max_zero t.delay_frames;
          hold_frames_remaining = max_one t.hold_frames;
          started = false;
          buffered_requested = false;
          buffered_accepted = false;
        }
            ∷ []);
  }
]

-- What the actions ask for in one frame.
pub record Presses : Type 0 where
  pub held_buttons : ℕ
  pub down_buttons : ℕ
  pub left_stick_active : Bool
  pub right_stick_active : Bool
  pub left_x : ℕ
  pub left_y : ℕ
  pub right_x : ℕ
  pub right_y : ℕ

abbrev pub no_presses : Presses
no_presses = record {
  held_buttons = 0;
  down_buttons = 0;
  left_stick_active = false;
  right_stick_active = false;
  left_x = 0;
  left_y = 0;
  right_x = 0;
  right_y = 0;
}

-- One action after its round of the loop, with what the loop has gathered.
pub record Round : Type 0 where
  pub runtime : ActiveAction
  pub presses : Presses
  pub input : InputState

unfoldable pub is_buttons : ActionInputType → Bool
is_buttons buttons = true
is_buttons left_stick = false
is_buttons right_stick = false

-- The start of a round: the action after it, and whether it runs in this frame.
unfoldable pub start_action :
    (control_free : Bool) → TargetData → ActiveAction → ActiveAction × Bool
unfolding is_buttons
start_action control_free t r =
    if r.started
    then (r, true)
    else if not control_free && not (is_buttons t.action_input_type && t.buffered)
    then (r, false)
    else if r.delay_frames_remaining != 0
    then (record r { delay_frames_remaining = r.delay_frames_remaining - 1 }, false)
    else (record r { started = true }, true)

-- A frame in which the action holds its buttons.
unfoldable pub hold_buttons : TargetData → Round → Round
hold_buttons t round =
    let r = round.runtime in
    let p = round.presses in
    record round {
      runtime = record r { hold_frames_remaining = r.hold_frames_remaining - 1 };
      presses = record p {
        held_buttons = bit_or p.held_buttons t.button_mask;
        down_buttons =
            if r.hold_frames_remaining == max_one t.hold_frames
            then bit_or p.down_buttons t.button_mask
            else p.down_buttons;
      };
    }

-- The round of a button action; a buffered one is requested, waits, and counts once accepted.
unfoldable pub run_buttons : (pending : ℕ) → TargetData → Round → Round
unfolding hold_buttons
run_buttons pending t round =
    let r = round.runtime in
    let accepted = record r {
      buffered_accepted = true;
      hold_frames_remaining = r.hold_frames_remaining - 1;
    } in
    if not (t.buffered && not r.buffered_accepted)
    then hold_buttons t round
    else if not r.buffered_requested
    then record round {
      runtime = record r { buffered_requested = true };
      input = set_buffered_button_action t.button_mask round.input;
    }
    else if bit_and pending t.button_mask != 0
    then round
    else if accepted.hold_frames_remaining == 0
    then record round { runtime = accepted }
    else hold_buttons t (record round { runtime = accepted })

-- The round of a started action.
unfoldable pub run_action : (pending : ℕ) → TargetData → ActionInputType → Round → Round
unfolding run_buttons
run_action pending t buttons round = run_buttons pending t round
run_action pending t left_stick round =
    let r = round.runtime in
    let p = round.presses in
    record round {
      runtime = record r { hold_frames_remaining = r.hold_frames_remaining - 1 };
      presses = record p { left_stick_active = true; left_x = t.stick_x; left_y = t.stick_y };
    }
run_action pending t right_stick round =
    let r = round.runtime in
    let p = round.presses in
    record round {
      runtime = record r { hold_frames_remaining = r.hold_frames_remaining - 1 };
      presses = record p { right_stick_active = true; right_x = t.stick_x; right_y = t.stick_y };
    }

-- One round of the loop of UpdateActiveAction.
unfoldable pub action_round : (control_free : Bool) (pending : ℕ) → List TargetData → Round → Round
unfolding start_action run_action
action_round control_free pending targets round = elim (get_elem? targets round.runtime.index) [
  | none ↦ round
  | some t ↦
      let (r, runs) = start_action control_free t round.runtime in
      let begun = record round { runtime = r } in
      if runs then run_action pending t t.action_input_type begun else begun
]

-- What the loop leaves: the actions, what they ask for, and the input.
pub record Rounds : Type 0 where
  pub actions : List ActiveAction
  pub presses : Presses
  pub input : InputState

-- The loop of UpdateActiveAction over the actions that are left.
unfoldable pub action_rounds :
    (control_free : Bool) (pending : ℕ)
    → List TargetData
    → List ActiveAction
    → Presses
    → InputState
    → Rounds
unfolding action_round
action_rounds control_free pending targets [] p input = record {
  actions = [];
  presses = p;
  input = input;
}
action_rounds control_free pending targets (r ∷ rs) p input =
    let round =
      action_round control_free pending targets
        (record { runtime = r; presses = p; input = input }) in
    let rest = action_rounds control_free pending targets rs round.presses round.input in
    record rest { actions = round.runtime ∷ rest.actions }

-- The actions that std::erase_if keeps.
unfoldable pub keep_running : List TargetData → List ActiveAction → List ActiveAction
keep_running targets [] = []
keep_running targets (r ∷ rs) =
    let rest = keep_running targets rs in
    elim (get_elem? targets r.index) [
      | none ↦ rest
      | some t ↦ if r.hold_frames_remaining == 0 then rest else r ∷ rest
    ]

abbrev pub is_empty : List ActiveAction → Bool
is_empty [] = true
is_empty (r ∷ rs) = false

-- The requests to the input buffer at the end of UpdateActiveAction.
unfoldable pub apply_presses : Presses → (empty : Bool) → InputState → InputState
unfolding set_raw_button_override set_action_stick_override cancel_buffered_button_action
apply_presses p empty i =
    let i1 = set_raw_button_override (p.held_buttons != 0) p.held_buttons p.down_buttons i in
    let i2 = set_action_stick_override false false 0 0 i1 in
    let i3 =
      if p.left_stick_active
      then set_action_stick_override true false p.left_x p.left_y i2
      else i2 in
    let i4 =
      if p.right_stick_active
      then set_action_stick_override true true p.right_x p.right_y i3
      else i3 in
    if empty then cancel_buffered_button_action i4 else i4

-- UpdateActiveAction
unfoldable pub update_active_action : (control_free : Bool) → RouteState → RouteState
update_active_action control_free s =
    let done =
      action_rounds control_free (buffered_button_action_pending_mask s.input) s.targets
        s.active_actions no_presses s.input in
    let kept = keep_running s.targets done.actions in
    record s {
      active_actions = kept;
      input = apply_presses done.presses (is_empty kept) done.input;
    }
