-- ===== src/MenuHelper/Playback.antt =====
-- The sessions of the helper: recording what the game accepts, and playing a recording back.
use xenomods.Base.{
  ℕ, suc, ◌^◌, bit_and, bit_or, Bool, true, false, not, ◌&&◌, ◌||◌, ◌==◌, ◌!=◌, ltb, List, [], ◌∷◌,
  ◌++◌, if◌then◌else◌, Option, none, some, get_elem?, set_elem, length, Text, same_text,
}
use xenomods.InputBuffer.State.{
  AcceptedAction, ActionSource, physical, playback, PlaybackMode, standard_menu, shop_menu_layered,
  travel_ui_buffered,
}
use xenomods.InputBuffer.Api.{
  set_accepted_action_capture, set_playback_override, set_playback_action, playback_action_pending,
}
use xenomods.MenuHelper.{
  RecordingKind, shop, menu, travel, same_kind, HelperState, idle, armed_record, recording,
  draft_ready, armed_playback, playing, waiting_for_shop_close, complete, same_state,
  is_playback_active, Recording, HelperData, max_actions,
}

-- StopPlayback
unfoldable pub stop_playback : HelperState → HelperData → HelperData
unfolding set_playback_override set_accepted_action_capture
stop_playback next h = record h {
  input = set_playback_override false standard_menu (set_accepted_action_capture false h.input);
  playback_actions = [];
  playback_index = 0;
  playback_neutral_frames = 0;
  playback_recording = none;
  state = next;
}

-- The early return of QueueNextPlaybackAction.
unfoldable pub cannot_queue : HelperData → Bool
unfolding playback_action_pending
cannot_queue h =
    not (same_state h.state playing)
    || h.playback_neutral_frames != 0
    || playback_action_pending h.input
    || (same_kind h.active_kind shop && not h.aux_core_shop_session && h.shop_transition_blocked)

-- QueueNextPlaybackAction
unfoldable pub queue_next_playback_action : HelperData → HelperData
unfolding cannot_queue set_playback_action
queue_next_playback_action h =
    if cannot_queue h then h else elim (get_elem? h.playback_actions h.playback_index) [
      | none ↦ record h { state = waiting_for_shop_close }
      | some a ↦ record h { input = set_playback_action a h.input }
    ]

-- The menu that a recording is made in is open.
unfoldable pub session_open : HelperData → Bool
session_open h =
    (same_kind h.active_kind shop && h.shop_open)
    || (same_kind h.active_kind menu && h.main_menu_open)
    || (same_kind h.active_kind travel && h.travel_menu_open)

-- operator== of two accepted actions.
unfoldable pub same_action : AcceptedAction → AcceptedAction → Bool
same_action a b = a.input == b.input && a.layer == b.layer && a.display == b.display

abbrev pub is_physical : ActionSource → Bool
is_physical physical = true
is_physical playback = false

-- The first branch of OnAcceptedAction: an action joins the draft unless it repeats the last one
-- within a frame.
unfoldable pub record_action : AcceptedAction → HelperData → HelperData
unfolding same_action
record_action a h =
    if h.last_recorded_frame != h.update_frame || not (same_action h.last_recorded_action a)
    then record h {
      draft_actions =
          if ltb (length h.draft_actions) max_actions
          then h.draft_actions ++ (a ∷ [])
          else h.draft_actions;
      last_recorded_frame = h.update_frame;
      last_recorded_action = a;
    }
    else h

-- The action at an index of the recording has this input.
unfoldable pub has_input : List AcceptedAction → ℕ → ℕ → Bool
has_input actions index input = elim (get_elem? actions index) [
  | none ↦ false
  | some a ↦ a.input == input
]

-- The neutral frames that OnAcceptedAction asks for after an input.
unfoldable pub neutral_after : (input next_index : ℕ) → HelperData → ℕ
unfolding has_input
neutral_after input next_index h =
    let amount =
      h.accepting_aux_core_amount_playback
      && same_kind h.active_kind shop
      && bit_and (bit_and input 0x3fff_ffff) (bit_or (2 ^ 4) (2 ^ 5)) != 0 in
    if same_kind h.active_kind travel || has_input h.playback_actions next_index input
    then (if amount then 2 else 1)
    else h.playback_neutral_frames

-- The second branch: the next action of the recording has been played back.
unfoldable pub advance_playback : AcceptedAction → HelperData → HelperData
unfolding neutral_after
advance_playback a h = record h {
  playback_index = suc h.playback_index;
  playback_neutral_frames = neutral_after a.input (suc h.playback_index) h;
}

-- MenuHelper::OnAcceptedAction
unfoldable pub on_accepted_action : AcceptedAction → ActionSource → HelperData → HelperData
unfolding session_open record_action has_input advance_playback
on_accepted_action a source h =
    if same_state h.state recording && session_open h && is_physical source
    then record_action a h
    else if same_state h.state playing
        && not (is_physical source)
        && has_input h.playback_actions h.playback_index a.input
    then advance_playback a h
    else h

-- The mode in which a recording of this kind plays.
unfoldable pub session_mode : HelperData → PlaybackMode
session_mode h =
    if same_kind h.active_kind travel
    then travel_ui_buffered
    else if same_kind h.active_kind shop && not h.aux_core_shop_session
    then shop_menu_layered
    else standard_menu

-- The start of a playback in BeginActiveSession.
unfoldable pub start_playing : HelperData → HelperData
unfolding session_mode set_playback_override
start_playing h = record h {
  state = playing;
  input = set_playback_override true (session_mode h) h.input;
}

-- BeginActiveSession
unfoldable pub begin_active_session : RecordingKind → HelperData → HelperData
unfolding start_playing queue_next_playback_action set_accepted_action_capture
begin_active_session kind h =
    if not (same_kind h.active_kind kind)
    then h
    else if same_state h.state armed_record
    then record h { state = recording; input = set_accepted_action_capture true h.input }
    else if same_state h.state armed_playback
    then queue_next_playback_action (start_playing h)
    else h

-- The first recording from an index on that has this kind and name.
unfoldable pub find_recording : RecordingKind → Text → ℕ → List Recording → Option ℕ
find_recording kind name index [] = none
find_recording kind name index (r ∷ rs) =
    let rest = find_recording kind name (suc index) rs in
    if same_kind r.kind kind && same_text r.name name then some index else rest

-- recordings with the draft in place of the recording of its name and kind, or at the end, and the
-- index of it.
unfoldable pub store_draft : HelperData → List Recording × ℕ
unfolding find_recording
store_draft h =
    let saved : Recording = record {
      name = h.draft_name;
      actions = h.draft_actions;
      last_playback_frames = 0;
      kind = h.draft_kind;
    } in
    elim (find_recording h.draft_kind h.draft_name 0 h.recordings) [
      | none ↦ (h.recordings ++ (saved ∷ []), length h.recordings)
      | some i ↦ (set_elem h.recordings i saved, i)
    ]

-- SaveDraft, SaveRecordings and EndActiveSession; whether a list of recordings could be written to
-- its file is the argument `saves`.
module _ (saves : List Recording → Bool) where
  -- SaveDraft
  unfoldable pub save_draft : HelperData → HelperData
  unfolding store_draft
  save_draft h =
      let stored = store_draft h in
      let h' = record h { recordings = stored.0; selected_recording = some stored.1 } in
      if not (same_state h.state draft_ready)
        || length h.draft_name == 0
        || length h.draft_actions == 0
      then h
      else if saves stored.0
      then record h' { draft_actions = []; state = idle }
      else h'

  -- recordings[playbackRecording].lastPlaybackFrames = playbackFrames
  unfoldable pub note_playback_frames : HelperData → HelperData
  note_playback_frames h = elim h.playback_recording [
    | none ↦ h
    | some i ↦ elim (get_elem? h.recordings i) [
      | none ↦ h
      | some r ↦ record h {
        recordings =
            set_elem h.recordings i (record r { last_playback_frames = h.playback_frames });
      }
    ]
  ]

  -- The state of a recording that has stopped.
  unfoldable pub stop_recording : HelperData → HelperData
  stop_recording h = record h {
    input = set_accepted_action_capture false h.input;
    state = if length h.draft_actions == 0 then idle else draft_ready;
  }

  -- EndActiveSession
  unfoldable pub end_active_session : RecordingKind → HelperData → HelperData
  unfolding save_draft stop_recording note_playback_frames stop_playback
  end_active_session kind h =
      if not (same_kind h.active_kind kind)
      then h
      else if same_state h.state recording
      then save_draft (stop_recording h)
      else if is_playback_active h.state
      then stop_playback complete (note_playback_frames h)
      else h
