-- ===== src/AutoTutorials.antt =====
-- The tutorials that close themselves: src/xenomods/modules/AutoTutorials.cpp. The globals are one
-- record with the state of the input buffer; a pointer is a number, nullptr is 0. The calls to the
-- profiler, which only note what happens, are left out.
pub mod Hooks
pub mod Runtimes
pub mod Rearm
pub mod Disabled
pub mod Closing
mod Examples
use xenomods.Base.{
  ℕ, Bool, true, false, not, ◌&&◌, ◌||◌, ◌==◌, ◌!=◌, leb, if◌then◌else◌, Option, none, some, List,
  [], ◌∷◌,
}
use xenomods.InputBuffer.State.{InputState}
use xenomods.InputBuffer.Api.{request_auto_ui_action, cancel_auto_ui_action}

pub data TutorialFamily : Type 0 where
  standard_family dummy_family battle_family tips_family : TutorialFamily

pub record TutorialRuntime : Type 0 where
  pub menu : ℕ
  pub sender : ℕ
  pub advance_armed : Bool
  pub observed_busy : Bool

-- TutorialRuntime {}
abbrev pub no_runtime : TutorialRuntime
no_runtime = record { menu = 0; sender = 0; advance_armed = true; observed_busy = false }

pub record TutorialState : Type 0 where
  pub tutorials_enabled : Bool
  pub standard_runtime : TutorialRuntime
  pub dummy_runtime : TutorialRuntime
  pub battle_runtime : TutorialRuntime
  pub tips_runtime : TutorialRuntime
  pub input : InputState

-- What the game's memory holds: the menu of a listener (+0x20), the sequence counts of a menu at
-- 0x128 and at 0x1f0.
pub record TutorialMemory : Type 0 where
  pub parent : ℕ → ℕ
  pub count_at_128 : ℕ → ℕ
  pub count_at_1f0 : ℕ → ℕ

-- UiAButtonMask
abbrev pub ui_a_button_mask : ℕ
ui_a_button_mask = 4

abbrev pub is_standard : TutorialFamily → Bool
is_standard standard_family = true
is_standard dummy_family = false
is_standard battle_family = false
is_standard tips_family = false

abbrev pub runtime_for : TutorialFamily → TutorialState → TutorialRuntime
runtime_for standard_family s = s.standard_runtime
runtime_for dummy_family s = s.dummy_runtime
runtime_for battle_family s = s.battle_runtime
runtime_for tips_family s = s.tips_runtime

-- An assignment to what RuntimeFor returns.
abbrev pub set_runtime : TutorialFamily → TutorialRuntime → TutorialState → TutorialState
set_runtime standard_family r s = record s { standard_runtime = r }
set_runtime dummy_family r s = record s { dummy_runtime = r }
set_runtime battle_family r s = record s { battle_runtime = r }
set_runtime tips_family r s = record s { tips_runtime = r }

-- The count that a family's menu keeps.
unfoldable pub count_of : TutorialMemory → TutorialFamily → ℕ → ℕ
count_of memory standard_family menu = memory.count_at_128 menu
count_of memory dummy_family menu = 0
count_of memory battle_family menu = memory.count_at_1f0 menu
count_of memory tips_family menu = memory.count_at_1f0 menu

unfoldable pub sequence_count : TutorialMemory → TutorialFamily → ℕ → ℕ
unfolding count_of
sequence_count memory family menu = if menu == 0 then 0 else count_of memory family menu

-- InputBuffer::RequestAutoUiAction and InputBuffer::CancelAutoUiAction
unfoldable pub request : (sender : ℕ) → TutorialState → TutorialState
request sender s = record s { input = request_auto_ui_action sender ui_a_button_mask s.input }

unfoldable pub cancel : (sender : ℕ) → TutorialState → TutorialState
cancel sender s = record s { input = cancel_auto_ui_action sender s.input }

unfoldable pub begin_tutorial : TutorialFamily → (menu : ℕ) → TutorialState → TutorialState
begin_tutorial family menu s = set_runtime family (record no_runtime { menu = menu }) s

unfoldable pub end_tutorial : TutorialFamily → (menu : ℕ) → TutorialState → TutorialState
unfolding cancel
end_tutorial family menu s =
    if (runtime_for family s).menu == menu
    then set_runtime family no_runtime (cancel (runtime_for family s).sender s)
    else s

-- The event in the data of a callback; without data it is 0.
abbrev pub event_of : Option ℕ → ℕ
event_of none = 0
event_of (some event) = event

-- The start of a standard tutorial that a listener sees.
unfoldable pub start_popup :
    TutorialFamily → (parent event sender : ℕ) → (after : Bool) → TutorialState → TutorialState
unfolding cancel
start_popup family parent event sender after s =
    if is_standard family && not after && event == 0x104 && parent != 0 && sender != 0
    then set_runtime family (record no_runtime { menu = parent; sender = sender })
        (cancel (runtime_for family s).sender s)
    else s

-- A runtime without a sender takes the event's.
unfoldable pub adopt_sender : (sender : ℕ) → TutorialRuntime → TutorialRuntime
adopt_sender sender r = if r.sender == 0 && sender != 0 then record r { sender = sender } else r

-- The completion of an animation arms the runtime again.
unfoldable pub arm_page : (event count : ℕ) → TutorialRuntime → TutorialRuntime
arm_page event count r =
    if leb 0x101 event && leb event 0x105 && count == 0
    then record r { advance_armed = true; observed_busy = false }
    else r

-- The close event, once the game has handled it.
unfoldable pub close_popup :
    TutorialFamily → (event : ℕ) → (after : Bool) → TutorialState → TutorialState
unfolding cancel
close_popup family event after s =
    if is_standard family && after && event == 0x22
    then set_runtime family no_runtime (cancel (runtime_for family s).sender s)
    else s

unfoldable pub observe_listener :
    TutorialMemory
    → TutorialFamily
    → (listener : ℕ) → (event_data : Option ℕ) → (sender : ℕ) → (after : Bool) → TutorialState
    → TutorialState
unfolding start_popup adopt_sender arm_page close_popup
observe_listener memory family listener event_data sender after s =
    let parent = memory.parent listener in
    let event = event_of event_data in
    let s1 = start_popup family parent event sender after s in
    let runtime = runtime_for family s1 in
    let adopted = adopt_sender sender runtime in
    let armed = arm_page event (sequence_count memory family parent) adopted in
    if listener == 0
    then s
    else if runtime.menu == 0 || runtime.menu != parent
    then s1
    else close_popup family event after (set_runtime family armed s1)

-- The loop of ObserveRegisteredListener: the first runtime of the listener's menu.
unfoldable pub register_sender :
    List TutorialFamily → (parent sender : ℕ) → TutorialState → TutorialState
register_sender [] parent sender s = s
register_sender (family ∷ rest) parent sender s =
    let later = register_sender rest parent sender s in
    if (runtime_for family s).menu == parent
    then set_runtime family (record (runtime_for family s) { sender = sender }) s
    else later

-- The families in the order of the loops.
abbrev pub all_families : List TutorialFamily
all_families = standard_family ∷ dummy_family ∷ battle_family ∷ tips_family ∷ []

unfoldable pub observe_registered_listener :
    TutorialMemory → (listener sender : ℕ) → TutorialState → TutorialState
unfolding register_sender
observe_registered_listener memory listener sender s =
    if listener == 0 || sender == 0
    then s
    else register_sender all_families (memory.parent listener) sender s

-- The runtime is armed again once its menu was seen busy and is idle.
unfoldable pub rearm : (busy : Bool) → TutorialRuntime → TutorialRuntime
rearm busy r =
    if r.advance_armed
    then r
    else if busy
    then record r { observed_busy = true }
    else if r.observed_busy
    then record r { advance_armed = true; observed_busy = false }
    else r

-- A family with pages: A is requested when it is armed and its menu is not busy.
unfoldable pub advance_page : TutorialFamily → (busy : Bool) → TutorialState → TutorialState
unfolding rearm request
advance_page family busy s =
    let runtime = rearm busy (runtime_for family s) in
    let s1 = set_runtime family runtime s in
    if not runtime.advance_armed || busy then s1 else request runtime.sender s1

unfoldable pub advance_if_ready :
    TutorialMemory → TutorialFamily → (menu : ℕ) → TutorialState → TutorialState
unfolding advance_page request
advance_if_ready memory family menu s =
    let runtime = runtime_for family s in
    if not s.tutorials_enabled
    then s
    else if runtime.menu != menu || runtime.sender == 0
    then s
    else if is_standard family
    then request runtime.sender s
    else advance_page family (sequence_count memory family menu != 0) s

-- The loop of OnAutoUiActionAccepted: the first live runtime of the sender.
unfoldable pub disarm_sender : List TutorialFamily → (object : ℕ) → TutorialState → TutorialState
disarm_sender [] object s = s
disarm_sender (family ∷ rest) object s =
    let later = disarm_sender rest object s in
    if (runtime_for family s).menu != 0 && (runtime_for family s).sender == object
    then set_runtime family
        (record (runtime_for family s) { advance_armed = false; observed_busy = false }) s
    else later

unfoldable pub on_auto_ui_action_accepted : (object : ℕ) → TutorialState → TutorialState
unfolding disarm_sender
on_auto_ui_action_accepted object s = disarm_sender all_families object s

unfoldable pub clear_tutorials : TutorialState → TutorialState
unfolding cancel
clear_tutorials s = record (cancel 0 s) {
  standard_runtime = no_runtime;
  dummy_runtime = no_runtime;
  battle_runtime = no_runtime;
  tips_runtime = no_runtime;
}

-- The checkbox of MenuSection, when it is clicked.
unfoldable pub toggle_tutorials : (enabled : Bool) → TutorialState → TutorialState
unfolding clear_tutorials
toggle_tutorials enabled s = clear_tutorials (record s { tutorials_enabled = enabled })
