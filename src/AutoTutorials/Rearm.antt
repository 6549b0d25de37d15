-- ===== src/AutoTutorials/Rearm.antt =====
-- AdvanceIfReady of src/xenomods/modules/AutoTutorials.cpp over a run of frames, for the families whose
-- tutorials have pages: after a press, when is the next one requested?
use xenomods.Base.{
  ◌∙◌, ℕ, Bool, true, false, not, ◌||◌, ◌==◌, ◌!=◌, ◌≡◌, ◌≢◌, List, [], ◌∷◌, map, if_false, refl,
  arith, if◌then◌else◌, ap, sym, ◌∙◌,
}
use mathlib.Core.Path.{subst}
use xenomods.InputBuffer.State.{InputState, pending}
use xenomods.InputBuffer.Api.{is_idle, request_auto_ui_action}
use xenomods.AutoTutorials.{
  TutorialFamily, standard_family, dummy_family, battle_family, tips_family, TutorialRuntime,
  TutorialMemory, TutorialState, is_standard, runtime_for, sequence_count, request, rearm,
  advance_page, advance_if_ready, ui_a_button_mask,
}

-- One update of the menu after the other, each with what it finds in the game's memory.
unfoldable pub advance_frames :
    TutorialFamily → (menu : ℕ) → List TutorialMemory → TutorialState → TutorialState
advance_frames family menu [] s = s
advance_frames family menu (memory ∷ rest) s =
    advance_frames family menu rest (advance_if_ready memory family menu s)

-- In some frame the menu is idle.
abbrev pub idle_in : List Bool → Bool
idle_in [] = false
idle_in (busy ∷ rest) = not busy || idle_in rest

-- In some frame the menu is busy, and in a later one it is idle.
abbrev pub busy_then_idle : List Bool → Bool
busy_then_idle [] = false
busy_then_idle (busy ∷ rest) = if busy then idle_in rest else busy_then_idle rest

-- Whether the frames find the menu busy.
abbrev pub busy_frames : TutorialFamily → (menu : ℕ) → List TutorialMemory → List Bool
busy_frames family menu frames = map (λ memory. sequence_count memory family menu != 0) frames

-- The page after a press: the menu was not seen busy yet; it was; the next press is requested.
data PageStage : Type 0 where
  pressed busy_seen requested : PageStage

abbrev next_stage : Bool → PageStage → PageStage
next_stage busy pressed = if busy then busy_seen else pressed
next_stage busy busy_seen = if busy then busy_seen else requested
next_stage busy requested = requested

abbrev last_stage : List Bool → PageStage → PageStage
last_stage [] stage = stage
last_stage (busy ∷ rest) stage = last_stage rest (next_stage busy stage)

abbrev runtime_at : (menu sender : ℕ) → PageStage → TutorialRuntime
runtime_at menu sender pressed = record {
  menu = menu;
  sender = sender;
  advance_armed = false;
  observed_busy = false;
}
runtime_at menu sender busy_seen = record {
  menu = menu;
  sender = sender;
  advance_armed = false;
  observed_busy = true;
}
runtime_at menu sender requested = record {
  menu = menu;
  sender = sender;
  advance_armed = true;
  observed_busy = false;
}

-- A press of A for an object is requested and not yet accepted.
pub record IsRequested (object : ℕ) (i : InputState) : Type 0 where
  pub at_phase : i.auto_ui_action_phase ≡ pending
  pub for_object : i.auto_ui_action_object ≡ object
  pub of_a : i.auto_ui_action_mask ≡ ui_a_button_mask

abbrev ActionAt : ℕ → PageStage → InputState → Type 0
ActionAt sender pressed i = is_idle i.auto_ui_action_phase ≡ true
ActionAt sender busy_seen i = is_idle i.auto_ui_action_phase ≡ true
ActionAt sender requested i = IsRequested sender i

request_auto_ui_action-IsRequested :
    (object : ℕ) (i : InputState)
    → object ≢ 0
    → is_idle i.auto_ui_action_phase ≡ true
    → IsRequested object (request_auto_ui_action object ui_a_button_mask i)
unfolding request_auto_ui_action
request_auto_ui_action-IsRequested object i h e = ground arith

request_auto_ui_action-again :
    (object : ℕ) (i : InputState)
    → IsRequested object i
    → IsRequested object (request_auto_ui_action object ui_a_button_mask i)
unfolding request_auto_ui_action
request_auto_ui_action-again object i v = ground arith

-- What advance_page does to its runtime, to the input buffer and to the switch.
runtime_for-advance_page :
    (family : TutorialFamily) (busy : Bool) (s : TutorialState)
    → runtime_for family (advance_page family busy s) ≡ rearm busy (runtime_for family s)
unfolding advance_page request
runtime_for-advance_page standard_family busy s = ground arith
runtime_for-advance_page dummy_family busy s = ground arith
runtime_for-advance_page battle_family busy s = ground arith
runtime_for-advance_page tips_family busy s = ground arith

-- The press that the page requests, if any.
abbrev page_input : Bool → TutorialRuntime → InputState → InputState
page_input busy r i =
    if not r.advance_armed || busy then i else request_auto_ui_action r.sender ui_a_button_mask i

advance_page-input :
    (family : TutorialFamily) (busy : Bool) (s : TutorialState)
    → (advance_page family busy s).input
      ≡ page_input busy (rearm busy (runtime_for family s)) s.input
unfolding advance_page request
advance_page-input standard_family busy s = ground arith
advance_page-input dummy_family busy s = ground arith
advance_page-input battle_family busy s = ground arith
advance_page-input tips_family busy s = ground arith

advance_page-enabled :
    (family : TutorialFamily) (busy : Bool) (s : TutorialState)
    → (advance_page family busy s).tutorials_enabled ≡ s.tutorials_enabled
unfolding advance_page request
advance_page-enabled standard_family busy s = ground arith
advance_page-enabled dummy_family busy s = ground arith
advance_page-enabled battle_family busy s = ground arith
advance_page-enabled tips_family busy s = ground arith

module _ (family : TutorialFamily) (menu sender : ℕ) (paged : is_standard family ≡ false)
    (registered : sender ≢ 0) where
  -- The tool is on, and the page of the menu is at a stage.
  record IsAt (stage : PageStage) (s : TutorialState) : Type 0 where
    switched_on : s.tutorials_enabled ≡ true
    runtime : runtime_for family s ≡ runtime_at menu sender stage
    action : ActionAt sender stage s.input

  rearm-stage :
      (busy : Bool) (stage : PageStage)
      → rearm busy (runtime_at menu sender stage) ≡ runtime_at menu sender (next_stage busy stage)
  unfolding rearm
  rearm-stage true pressed = refl
  rearm-stage false pressed = refl
  rearm-stage true busy_seen = refl
  rearm-stage false busy_seen = refl
  rearm-stage busy requested = refl

  page_input-stage :
      (busy : Bool) (stage : PageStage) (i : InputState)
      → ActionAt sender stage i
      → ActionAt sender
          (next_stage busy stage)
          (page_input busy (runtime_at menu sender (next_stage busy stage)) i)
  page_input-stage true pressed i a = a
  page_input-stage false pressed i a = a
  page_input-stage true busy_seen i a = a
  page_input-stage false busy_seen i a = request_auto_ui_action-IsRequested sender i registered a
  page_input-stage true requested i a = a
  page_input-stage false requested i a = request_auto_ui_action-again sender i a

  advance_page-IsAt :
      (busy : Bool) (stage : PageStage) (s : TutorialState)
      → IsAt stage s
      → IsAt (next_stage busy stage) (advance_page family busy s)
  advance_page-IsAt busy stage s v = record {
    switched_on = rw advance_page-enabled v.switched_on;
    runtime = rw (runtime_for-advance_page, v.runtime) (rearm-stage busy stage);
    action =
        rw (advance_page-input, v.runtime, rearm-stage busy stage)
          (page_input-stage busy stage s.input v.action);
  }

  -- The guards of AdvanceIfReady let a live menu of the tool through.
  runtime_at-menu : (stage : PageStage) → (runtime_at menu sender stage).menu ≡ menu
  runtime_at-menu pressed = refl
  runtime_at-menu busy_seen = refl
  runtime_at-menu requested = refl

  runtime_at-sender : (stage : PageStage) → (runtime_at menu sender stage).sender ≡ sender
  runtime_at-sender pressed = refl
  runtime_at-sender busy_seen = refl
  runtime_at-sender requested = refl

  guards_open :
      (r : TutorialRuntime)
      → r.menu ≡ menu
      → r.sender ≡ sender
      → (r.menu != menu || r.sender == 0) ≡ false
  guards_open r m e = ground arith

  advance_if_ready-page :
      (memory : TutorialMemory) (stage : PageStage) (s : TutorialState)
      → IsAt stage s
      → advance_if_ready memory family menu s
        ≡ advance_page family (sequence_count memory family menu != 0) s
  unfolding advance_if_ready
  advance_if_ready-page memory stage s v =
      let m = ap (λ (r : TutorialRuntime). r.menu) v.runtime ∙ runtime_at-menu stage in
      let e = ap (λ (r : TutorialRuntime). r.sender) v.runtime ∙ runtime_at-sender stage in
      if_false s (ap not v.switched_on)
      ∙ if_false s (guards_open (runtime_for family s) m e)
      ∙ if_false _ paged

  advance_if_ready-IsAt :
      (memory : TutorialMemory) (stage : PageStage) (s : TutorialState)
      → IsAt stage s
      → IsAt
          (next_stage (sequence_count memory family menu != 0) stage)
          (advance_if_ready memory family menu s)
  advance_if_ready-IsAt memory stage s v =
      let page = advance_page-IsAt (sequence_count memory family menu != 0) stage s v in
      subst (IsAt (next_stage (sequence_count memory family menu != 0) stage))
        (sym (advance_if_ready-page memory stage s v)) page

  advance_frames-IsAt :
      (frames : List TutorialMemory) (stage : PageStage) (s : TutorialState)
      → IsAt stage s
      → IsAt
          (last_stage (busy_frames family menu frames) stage)
          (advance_frames family menu frames s)
  unfolding advance_frames
  advance_frames-IsAt [] stage s v = v
  advance_frames-IsAt (memory ∷ rest) stage s v =
      advance_frames-IsAt rest _ _ (advance_if_ready-IsAt memory stage s v)

  last_stage-requested : (frames : List Bool) → last_stage frames requested ≡ requested
  last_stage-requested [] = refl
  last_stage-requested (busy ∷ rest) = last_stage-requested rest

  busy_seen-action :
      (frames : List Bool) (i : InputState)
      → ActionAt sender (last_stage frames busy_seen) i
      → (idle_in frames ≡ true → IsRequested sender i)
        × (idle_in frames ≡ false → is_idle i.auto_ui_action_phase ≡ true)
  busy_seen-action [] i a = (λ e. cc, λ _. a)
  busy_seen-action (true ∷ rest) i a = busy_seen-action rest i a
  busy_seen-action (false ∷ rest) i a =
      (λ _. subst (λ stage. ActionAt sender stage i) (last_stage-requested rest) a, λ e. cc)

  pressed-action :
      (frames : List Bool) (i : InputState)
      → ActionAt sender (last_stage frames pressed) i
      → (busy_then_idle frames ≡ true → IsRequested sender i)
        × (busy_then_idle frames ≡ false → is_idle i.auto_ui_action_phase ≡ true)
  pressed-action [] i a = (λ e. cc, λ _. a)
  pressed-action (true ∷ rest) i a = busy_seen-action rest i a
  pressed-action (false ∷ rest) i a = pressed-action rest i a

  -- For a family with pages, so not the standard one: when the tool is on, no automatic UI action is
  -- under way, and the press of a live menu with a sender that is not 0 was made and no busy frame
  -- seen since, then calls of AdvanceIfReady for that menu, with no event of the listener and no
  -- other change between them, leave a press of A requested for the sender if they find the menu
  -- busy in one call and idle in a later one; otherwise they leave no action under way.
  pub advance_frames-again :
      (frames : List TutorialMemory) (s : TutorialState)
      → s.tutorials_enabled ≡ true
      → runtime_for family s
        ≡ record { menu = menu; sender = sender; advance_armed = false; observed_busy = false }
      → is_idle s.input.auto_ui_action_phase ≡ true
      → (busy_then_idle (busy_frames family menu frames) ≡ true
          → IsRequested sender (advance_frames family menu frames s).input)
        × (busy_then_idle (busy_frames family menu frames) ≡ false
            → is_idle (advance_frames family menu frames s).input.auto_ui_action_phase ≡ true)
  advance_frames-again frames s on live rest =
      let at_end =
        advance_frames-IsAt frames pressed s
          (record { switched_on = on; runtime = live; action = rest }) in
      pressed-action (busy_frames family menu frames) _ at_end.action
