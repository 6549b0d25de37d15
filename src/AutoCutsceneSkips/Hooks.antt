-- ===== src/AutoCutsceneSkips/Hooks.antt =====
-- The hooks on the game's events, and what the tools call: src/xenomods/modules/AutoCutsceneSkips.cpp.
-- What the game's own function does is the argument `orig`.
use xenomods.Base.{
  ℕ, ◌+◌, ◌-◌, ◌%◌, ◌^◌, bit_and, bit_or, Bool, true, false, not, ◌&&◌, ◌||◌, ◌==◌, ◌!=◌, ltb, leb,
  Option, none, some, if◌then◌else◌,
}
use xenomods.InputBuffer.State.{PadData}
use xenomods.InputBuffer.Api.{cancel_auto_ui_action}
use xenomods.AutoCutsceneSkips.{
  idle_phase, waiting_for_plus_acceptance, waiting_for_a_frame, finished, cutscene_became_skippable,
  plus_ready_poll, plus_requested, plus_accepted, confirmation_open_requested,
  confirmation_initialized, native_pad_poll, intentional_blank_frame, a_accepted, a_missed,
  confirmation_finalized, cutscene_completed, cutscene_cancelled, scene_transition, CutsceneState,
  Surroundings, a_button_mask, physical_plus_button_mask, native_plus_action_mask,
  confirmation_delay_frames, is_waiting_for_plus, is_waiting_for_a, is_a_queued,
}
use xenomods.AutoCutsceneSkips.Trace.{sample_of, record_sample, start_trace, finish_trace}

-- What the game's own function does to this state, by the hooks that it runs.
abbrev pub Native : Type 0
Native = CutsceneState → CutsceneState

-- CancelAutoUiAction(confirmationObject), if there is one.
unfoldable pub cancel_confirmation : CutsceneState → CutsceneState
cancel_confirmation s = record s {
  input =
      if s.confirmation_object != 0
      then cancel_auto_ui_action s.confirmation_object s.input
      else s.input;
}

unfoldable pub reset_playback_only : CutsceneState → CutsceneState
unfolding cancel_confirmation
reset_playback_only s = record (cancel_confirmation s) {
  phase = idle_phase;
  cutscene_active = false;
  native_skippable = false;
  plus_request_recorded = false;
  inside_game_event_update = false;
  a_attempt_in_progress = false;
  a_accepted_this_attempt = false;
  a_attempt_observed = false;
  injected_mask = 0;
  plus_accepted_frame = 0;
  confirmation_menu = 0;
  confirmation_object = 0;
  have_last_pad_poll = false;
  last_pad_held = 0;
  last_pad_down = 0;
}

-- The cutscene that begins, before its trace.
unfoldable pub arm_cutscene : CutsceneState → CutsceneState
unfolding reset_playback_only
arm_cutscene s = record (reset_playback_only s) {
  cutscene_active = true;
  phase = if s.skips_enabled then waiting_for_plus_acceptance else idle_phase;
}

-- StartTrace, unless a trace is running.
unfoldable pub start_if_stopped : Surroundings → CutsceneState → CutsceneState
start_if_stopped around s = if not s.log.running then start_trace around s else s

unfoldable pub begin_cutscene : Surroundings → CutsceneState → CutsceneState
unfolding arm_cutscene start_if_stopped
begin_cutscene around s = start_if_stopped around (arm_cutscene s)

-- SeqManagerStartSceneHook, before and after its Orig.
unfoldable pub leave_scene : Surroundings → CutsceneState → CutsceneState
unfolding reset_playback_only
leave_scene around s =
    reset_playback_only (if s.log.running then finish_trace around scene_transition s else s)

unfoldable pub start_scene_hook : Surroundings → Native → CutsceneState → CutsceneState
unfolding leave_scene begin_cutscene
start_scene_hook around orig s = begin_cutscene around (orig (leave_scene around s))

-- SeqManagerEndHook, before its Orig.
unfoldable pub end_scene : Surroundings → CutsceneState → CutsceneState
unfolding reset_playback_only
end_scene around s =
    reset_playback_only (if s.log.running then finish_trace around cutscene_completed s else s)

-- FrameManagerUpdateHook, before its Orig.
unfoldable pub count_native_frame : CutsceneState → CutsceneState
count_native_frame s = record s {
  native_frame =
      if s.log.running || s.cutscene_active then (s.native_frame + 1) % 2 ^ 64 else s.native_frame;
}

-- The trace that a press of + starts.
unfoldable pub trace_plus : Surroundings → PadData → CutsceneState → CutsceneState
trace_plus around p s =
    if s.profiler_capture_enabled
      && not s.log.running
      && bit_and (bit_or p.word0 p.word1) physical_plus_button_mask != 0
    then start_trace around s
    else s

-- The sample of a pad that has changed.
unfoldable pub trace_poll : Surroundings → (address : ℕ) → PadData → CutsceneState → CutsceneState
unfolding record_sample
trace_poll around address p s =
    let changed =
      not s.have_last_pad_poll || p.word0 != s.last_pad_held || p.word1 != s.last_pad_down in
    if s.log.running && changed
    then record (record_sample around
        (record (sample_of native_pad_poll) { address = address; held = p.word0; down = p.word1 })
        s) { have_last_pad_poll = true; last_pad_held = p.word0; last_pad_down = p.word1 }
    else s

-- The samples of the first + that is injected.
unfoldable pub request_samples :
    Surroundings → (address : ℕ) → PadData → CutsceneState → CutsceneState
unfolding record_sample
request_samples around address p s =
    record_sample around
      (record (sample_of plus_requested) {
        address = address;
        enabled = native_plus_action_mask;
        held = physical_plus_button_mask;
        down = physical_plus_button_mask;
      })
      (record_sample around
        (record (sample_of plus_ready_poll) {
          address = address;
          enabled = native_plus_action_mask;
          held = p.word0;
          down = p.word1;
        })
        s)

unfoldable pub trace_request :
    Surroundings → (address mask : ℕ) → PadData → CutsceneState → CutsceneState
unfolding request_samples
trace_request around address mask p s =
    if bit_and mask physical_plus_button_mask != 0 && not s.plus_request_recorded
    then record (request_samples around address p s) { plus_request_recorded = true }
    else s

-- The buttons that are injected into the pad.
unfoldable pub mask_to_inject : CutsceneState → ℕ
mask_to_inject s =
    if s.skips_enabled && s.cutscene_active && is_waiting_for_plus s.phase
    then bit_or s.injected_mask physical_plus_button_mask
    else s.injected_mask

-- PadManagerGetControlPadDataHook, whose Orig returned the pad data at an address, or none.
unfoldable pub get_control_pad_data_hook :
    Surroundings
    → (pad : ℕ) → (original : Option (ℕ × PadData)) → CutsceneState
    → CutsceneState × Option PadData
unfolding trace_plus trace_poll trace_request mask_to_inject
get_control_pad_data_hook around pad none s = (s, none)
get_control_pad_data_hook around pad (some (address, p)) s =
    let s1 = trace_poll around address p (trace_plus around p s) in
    let mask = mask_to_inject s1 in
    if pad != 0 then (s, some p) else if mask == 0 then (s1, some p) else (
      trace_request around address mask p s1,
      some (record p {
        word0 = bit_or p.word0 mask;
        word1 = bit_or p.word1 mask;
        word3 = bit_or p.word3 mask;
      }),
    )

-- UiManagerOpenSkipHook: the manager has not opened its menu yet (the word at 0x10).
unfoldable pub is_first_acceptance : (manager flags : ℕ) → CutsceneState → Bool
is_first_acceptance manager flags s = s.cutscene_active && manager != 0 && bit_and flags 1 == 0

unfoldable pub trace_acceptance : Surroundings → (first : Bool) → CutsceneState → CutsceneState
trace_acceptance around first s =
    if first && s.profiler_capture_enabled && not s.log.running then start_trace around s else s

-- The first acceptance shows that the cutscene can be skipped.
unfoldable pub note_skippable : Surroundings → CutsceneState → CutsceneState
unfolding record_sample
note_skippable around s =
    if not s.native_skippable
    then record_sample around (sample_of cutscene_became_skippable)
        (record s { native_skippable = true })
    else s

unfoldable pub note_acceptance : Surroundings → (manager : ℕ) → CutsceneState → CutsceneState
unfolding record_sample note_skippable
note_acceptance around manager s =
    record_sample around
      (record (sample_of plus_accepted) {
        address = manager;
        enabled = native_plus_action_mask;
        held = physical_plus_button_mask;
        down = physical_plus_button_mask;
        accepted = true;
      })
      (note_skippable around s)

-- What follows Orig.
unfoldable pub accept_plus :
    Surroundings → (first : Bool) → (manager : ℕ) → CutsceneState → CutsceneState
unfolding note_acceptance
accept_plus around first manager s =
    let s1 = if first then note_acceptance around manager s else s in
    if first && is_waiting_for_plus s1.phase
    then record s1 {
      plus_accepted_frame = s1.native_frame;
      phase = waiting_for_a_frame;
      injected_mask = 0;
    }
    else s1

unfoldable pub open_skip_hook :
    Surroundings → Native → (manager flags : ℕ) → CutsceneState → CutsceneState
unfolding is_first_acceptance trace_acceptance accept_plus
open_skip_hook around orig manager flags s =
    let first = is_first_acceptance manager flags s in
    accept_plus around first manager (orig (trace_acceptance around first s))

-- The frame of the acceptance and the frames after it in std::uint64_t.
unfoldable pub a_frame : CutsceneState → ℕ
a_frame s = (s.plus_accepted_frame + confirmation_delay_frames) % 2 ^ 64

unfoldable pub confirmation_elapsed : CutsceneState → ℕ
confirmation_elapsed s = (s.native_frame + 2 ^ 64 - s.plus_accepted_frame) % 2 ^ 64

-- GameEventUpdateHook: the attempt has been missed.
unfoldable pub miss_a : Surroundings → CutsceneState → CutsceneState
unfolding record_sample a_frame
miss_a around s =
    let s1 =
      record_sample around
        (record (sample_of a_missed) {
          object = s.confirmation_object;
          enabled = a_button_mask;
          rejected = true;
        })
        s in
    if s.skips_enabled
      && s.cutscene_active
      && (is_waiting_for_a s.phase || is_a_queued s.phase && not s.a_attempt_observed)
      && ltb (a_frame s) s.native_frame
    then record s1 {
      input = cancel_auto_ui_action s.confirmation_object s.input;
      a_attempt_in_progress = false;
      phase = finished;
    }
    else s

unfoldable pub trace_blank : Surroundings → CutsceneState → CutsceneState
unfolding record_sample confirmation_elapsed
trace_blank around s =
    if s.skips_enabled
      && s.cutscene_active
      && is_waiting_for_a s.phase
      && leb 1 (confirmation_elapsed s)
      && leb (confirmation_elapsed s) 5
    then record_sample around (sample_of intentional_blank_frame) s
    else s

-- GameEventUpdateHook, before and after its Orig.
unfoldable pub enter_event : CutsceneState → CutsceneState
enter_event s = record s { inside_game_event_update = true; injected_mask = 0 }

unfoldable pub begin_event_update : Surroundings → CutsceneState → CutsceneState
unfolding enter_event miss_a trace_blank
begin_event_update around s = trace_blank around (miss_a around (enter_event s))

unfoldable pub end_event_update : CutsceneState → CutsceneState
end_event_update s = record s { injected_mask = 0; inside_game_event_update = false }

unfoldable pub game_event_update_hook : Surroundings → Native → CutsceneState → CutsceneState
unfolding begin_event_update end_event_update
game_event_update_hook around orig s = end_event_update (orig (begin_event_update around s))

-- GameEventFinalizeHook, before its Orig.
unfoldable pub finalize_event : Surroundings → CutsceneState → CutsceneState
unfolding reset_playback_only
finalize_event around s =
    reset_playback_only (if s.cutscene_active then finish_trace around cutscene_cancelled s else s)

-- StartTrace, if capturing is on and no trace is running.
unfoldable pub start_if_capturing : Surroundings → CutsceneState → CutsceneState
start_if_capturing around s =
    if s.profiler_capture_enabled && not s.log.running then start_trace around s else s

-- EventSkipOpenHook, before its Orig.
unfoldable pub skip_open : Surroundings → (context : ℕ) → CutsceneState → CutsceneState
unfolding start_if_capturing record_sample
skip_open around context s =
    record_sample around (record (sample_of confirmation_open_requested) { address = context })
      (start_if_capturing around s)

-- EventSkipInitializeHook, before and after its Orig.
unfoldable pub begin_confirmation : Surroundings → (menu : ℕ) → CutsceneState → CutsceneState
unfolding start_if_capturing
begin_confirmation around menu s = record (start_if_capturing around s) { confirmation_menu = menu }

unfoldable pub skip_initialize_hook :
    Surroundings → Native → (menu : ℕ) → CutsceneState → CutsceneState
unfolding begin_confirmation record_sample
skip_initialize_hook around orig menu s =
    record_sample around (record (sample_of confirmation_initialized) { address = menu })
      (orig (begin_confirmation around menu s))

-- EventSkipFinalizeHook, before its Orig.
unfoldable pub skip_finalize : Surroundings → (menu : ℕ) → CutsceneState → CutsceneState
unfolding record_sample cancel_confirmation
skip_finalize around menu s =
    let s1 =
      record_sample around
        (record (sample_of confirmation_finalized) {
          address = menu;
          object = s.confirmation_object;
        })
        s in
    if s1.confirmation_menu == menu
    then record (cancel_confirmation s1) { confirmation_menu = 0; confirmation_object = 0 }
    else s1

-- EventSkipListenerHook, before and after its Orig.
unfoldable pub note_sender : (sender : ℕ) → CutsceneState → CutsceneState
note_sender sender s = record s {
  confirmation_object = if sender != 0 then sender else s.confirmation_object;
}

unfoldable pub note_listener :
    Surroundings → (listener event action sender : ℕ) → CutsceneState → CutsceneState
unfolding record_sample
note_listener around listener event action sender s =
    if s.a_attempt_in_progress && event == 8 && action == 1
    then record_sample around
        (record (sample_of a_accepted) {
          address = listener;
          object = sender;
          enabled = a_button_mask;
          held = a_button_mask;
          down = a_button_mask;
          primary_event = event;
          secondary_event = 8;
          action = action;
          accepted = true;
        })
        (record s { a_accepted_this_attempt = true; injected_mask = 0 })
    else s

-- Without event data the event and the action are 0.
unfoldable pub skip_listener_hook :
    Surroundings
    → Native
    → (listener : ℕ) → (event_data : Option (ℕ × ℕ)) → (sender : ℕ) → CutsceneState
    → CutsceneState
unfolding note_sender note_listener
skip_listener_hook around orig listener none sender s =
    note_listener around listener 0 0 sender (orig (note_sender sender s))
skip_listener_hook around orig listener (some (event, action)) sender s =
    note_listener around listener event action sender (orig (note_sender sender s))
