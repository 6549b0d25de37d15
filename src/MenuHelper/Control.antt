-- ===== src/MenuHelper/Control.antt =====
-- How the tools start and stop sessions, and what each frame and scene change does to them.
use xenomods.Base.{
  ℕ, suc, ◌-◌, ◌%◌, ◌^◌, Bool, false, not, ◌&&◌, ◌||◌, ◌==◌, ◌!=◌, [], if◌then◌else◌, none, some,
  get_elem?, length, Text, bit_and, bit_or,
}
use xenomods.InputBuffer.State.{no_action, no_frame, standard_menu}
use xenomods.InputBuffer.Api.{set_accepted_action_capture, set_playback_override, set_frame_index}
use xenomods.MenuHelper.{
  RecordingKind, shop, menu, travel, same_kind, HelperState, idle, armed_record, recording,
  draft_ready, armed_playback, cancelled, same_state, is_playback_active, Recording, HelperData,
}
use xenomods.MenuHelper.Sandbox.{discard_sandbox_data, freeze_sandbox_data}
use xenomods.MenuHelper.Playback.{stop_playback, queue_next_playback_action, find_recording}
use xenomods.MenuHelper.Events.{
  on_shop_opened, on_menu_input_enabled, on_travel_opened, end_aux_core_shop,
}

-- The helper waits for the menu to record.
unfoldable pub arm_record : HelperData → HelperData
arm_record h = record h {
  draft_actions = [];
  last_recorded_frame = no_frame;
  last_recorded_action = no_action;
  active_kind = h.draft_kind;
  state = armed_record;
}

-- ArmRecording
unfoldable pub arm_recording : HelperData → HelperData
unfolding stop_playback arm_record
arm_recording h = arm_record (if is_playback_active h.state then stop_playback idle h else h)

-- The first part of ArmPlayback, for the recording at an index.
unfoldable pub load_playback : ℕ → Recording → HelperData → HelperData
unfolding set_playback_override
load_playback i r h = record h {
  playback_actions = r.actions;
  active_kind = r.kind;
  playback_recording = some i;
  playback_index = 0;
  playback_neutral_frames = 0;
  playback_frames = 0;
  input = set_playback_override false standard_menu h.input;
  state = armed_playback;
}

-- Its last part: a menu that is open already starts the session.
unfoldable pub join_session : HelperData → HelperData
join_session h =
    if same_kind h.active_kind shop && h.shop_open
    then on_shop_opened h
    else if same_kind h.active_kind menu && h.main_menu_open && h.main_menu_input_ready
    then on_menu_input_enabled h
    else if same_kind h.active_kind travel && h.travel_menu_open
    then on_travel_opened h
    else h

-- ArmPlayback
unfoldable pub arm_playback : HelperData → HelperData
arm_playback h = elim h.selected_recording [
  | none ↦ h
  | some i ↦ elim (get_elem? h.recordings i) [
    | none ↦ h
    | some r ↦ join_session (load_playback i r h)
  ]
]

-- MenuHelper::ArmShopPlayback, ArmMainMenuPlayback and ArmTravelMenuPlayback, of a kind.
unfoldable pub arm_named_playback : RecordingKind → Text → HelperData → HelperData × Bool
arm_named_playback kind name h = elim (find_recording kind name 0 h.recordings) [
  | none ↦ (h, false)
  | some i ↦
      let h1 = arm_playback (record h { selected_recording = some i }) in
      (h1, same_state h1.state armed_playback)
]

-- MenuHelper::StartMainMenuPlayback and StartTravelMenuPlayback, of a kind: `can_open` is what the
-- game answers, `create_menu` its createOpenMenu2 with the hook on it.
unfoldable pub start_named_playback :
    (can_open : Bool) (create_menu : HelperData → HelperData × Bool)
    → RecordingKind
    → Text
    → HelperData
    → HelperData × Bool
start_named_playback can_open create_menu kind name h =
    let armed = arm_named_playback kind name h in
    let created = create_menu armed.0 in
    if not can_open
    then (h, false)
    else if not armed.1
    then armed
    else if not created.1
    then (stop_playback cancelled created.0, false)
    else created

-- MenuHelper::IsPlaybackPendingOrActive
unfoldable pub is_playback_pending_or_active : HelperData → Bool
is_playback_pending_or_active h = same_state h.state armed_playback || is_playback_active h.state

-- MenuHelper::IsMenuPlaybackPendingOrActive
unfoldable pub is_menu_playback_pending_or_active : HelperData → Bool
unfolding is_playback_pending_or_active
is_menu_playback_pending_or_active h =
    not (same_kind h.active_kind shop) && is_playback_pending_or_active h

-- MenuHelper::CancelActivePlayback
unfoldable pub cancel_active_playback : HelperData → HelperData
unfolding is_playback_pending_or_active
cancel_active_playback h = if is_playback_pending_or_active h then stop_playback cancelled h else h

-- AbortMask: L, R and Plus
abbrev pub abort_mask : ℕ
abort_mask = bit_or (bit_or (2 ^ 6) (2 ^ 7)) (2 ^ 10)

-- What every frame does first.
unfoldable pub begin_frame : HelperData → HelperData
unfolding set_frame_index
begin_frame h = record h {
  update_frame = suc h.update_frame % 2 ^ 64;
  input = set_frame_index (suc h.update_frame % 2 ^ 64) h.input;
  sandbox = freeze_sandbox_data h.sandbox;
}

-- playbackFrames++
unfoldable pub count_playback_frame : HelperData → HelperData
count_playback_frame h = record h { playback_frames = suc h.playback_frames % 2 ^ 64 }

-- MenuHelper::Update; `pressed` are the buttons that player 1 holds.
unfoldable pub helper_update : (pressed : ℕ) → HelperData → HelperData
unfolding begin_frame count_playback_frame queue_next_playback_action
helper_update pressed h =
    let h1 = begin_frame h in
    let h2 = count_playback_frame h1 in
    if not (is_playback_active h1.state)
    then h1
    else if bit_and pressed abort_mask == abort_mask
    then stop_playback cancelled h1
    else if h2.playback_neutral_frames != 0
    then record h2 { playback_neutral_frames = h2.playback_neutral_frames - 1 }
    else queue_next_playback_action h2

-- activeTutorialBladeBond
unfoldable pub active_tutorial_blade_bond : HelperData → Bool
active_tutorial_blade_bond h =
    h.tutorial_blade_bond_open
    && same_kind h.active_kind menu
    && (same_state h.state recording || is_playback_active h.state)

abbrev pub is_armed : HelperState → Bool
is_armed s = same_state s armed_playback || same_state s armed_record

-- preserveHelperSession
unfoldable pub preserve_helper_session : HelperData → Bool
preserve_helper_session h =
    (same_kind h.active_kind menu && is_armed h.state)
    || active_tutorial_blade_bond h
    || (same_kind h.active_kind shop && is_armed h.state)

-- The menus that a scene change closes.
unfoldable pub close_menus : (keep_menu : Bool) → HelperData → HelperData
close_menus keep_menu h = record h {
  sandbox = discard_sandbox_data h.sandbox;
  shop_open = false;
  main_menu_open = if keep_menu then h.main_menu_open else false;
  main_menu_opening = if keep_menu then h.main_menu_opening else false;
  main_menu_input_ready = if keep_menu then h.main_menu_input_ready else false;
  travel_menu_open = false;
  travel_menu_opening = false;
}

-- The playback that it ends.
unfoldable pub drop_playback : (preserve : Bool) → HelperData → HelperData
unfolding stop_playback
drop_playback preserve h =
    if (is_playback_active h.state || same_state h.state armed_playback) && not preserve
    then stop_playback cancelled h
    else h

-- That playback and the recording that it ends.
unfoldable pub drop_session : (preserve : Bool) → HelperData → HelperData
unfolding drop_playback
drop_session preserve h =
    let h1 = drop_playback preserve h in
    if (same_state h1.state recording || same_state h1.state armed_record) && not preserve
    then record h1 { state = if length h1.draft_actions == 0 then idle else draft_ready }
    else h1

-- The capture that it ends.
unfoldable pub stop_capture : (keep : Bool) → HelperData → HelperData
unfolding set_accepted_action_capture
stop_capture keep h =
    if keep then h else record h { input = set_accepted_action_capture false h.input }

-- MenuHelper::OnSceneTransition
unfoldable pub on_scene_transition : HelperData → HelperData
on_scene_transition h =
    let h1 = end_aux_core_shop h in
    let blade_bond = active_tutorial_blade_bond h1 in
    let preserve = preserve_helper_session h1 in
    let h2 = close_menus blade_bond h1 in
    let keeps_capture = blade_bond || (same_kind h1.active_kind shop && is_armed h1.state) in
    drop_session preserve (stop_capture keeps_capture h2)
