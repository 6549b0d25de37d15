-- ===== src/AutoCutsceneSkips.antt =====
-- The cutscenes that skip themselves: src/xenomods/modules/AutoCutsceneSkips.cpp. The globals are one
-- record with the state of the input buffer; the globals of the trace are the record TraceLog in it.
-- Left out are the counters of hook calls, which nothing reads. A pointer is a number, nullptr is 0.
pub mod Trace
pub mod Hooks
pub mod Layer
pub mod Events
pub mod Phases
pub mod Traced
pub mod Timing
mod Examples
use xenomods.Base.{ℕ, Bool, true, false, List, [], Text, Option, replicate}
use xenomods.InputBuffer.State.{InputState}

pub data PlaybackPhase : Type 0 where
  idle_phase waiting_for_plus_acceptance waiting_for_a_frame a_queued finished : PlaybackPhase

pub data TraceKind : Type 0 where
  cutscene_initialized cutscene_became_skippable plus_ready_poll plus_requested plus_accepted
        confirmation_open_requested confirmation_initialized confirmation_input_layer
        native_pad_poll intentional_blank_frame a_queued_sample a_offered a_accepted a_rejected
        a_missed confirmation_finalized cutscene_completed cutscene_cancelled scene_transition
        state_cleared :
      TraceKind

pub record TraceSample : Type 0 where
  pub kind : TraceKind
  pub frame : ℕ
  pub tick : ℕ
  pub address : ℕ
  pub object : ℕ
  pub layer : ℕ
  pub enabled : ℕ
  pub held : ℕ
  pub down : ℕ
  pub primary_event : ℕ
  pub secondary_event : ℕ
  pub action : ℕ
  pub accepted : Bool
  pub rejected : Bool

pub record LayerSnapshot : Type 0 where
  pub layer : ℕ
  pub handle : ℕ
  pub object : ℕ
  pub enabled : ℕ
  pub held : ℕ
  pub down : ℕ
  pub primary_event : ℕ
  pub secondary_event : ℕ
  pub action : ℕ
  pub accepted : Bool

-- LayerSnapshot {}
abbrev pub no_snapshot : LayerSnapshot
no_snapshot = record {
  layer = 0;
  handle = 0;
  object = 0;
  enabled = 0;
  held = 0;
  down = 0;
  primary_event = 0;
  secondary_event = 0;
  action = 0;
  accepted = false;
}

-- The trace. Its samples are the first traceCount entries of the array.
pub record TraceLog : Type 0 where
  pub running : Bool
  pub complete : Bool
  pub start_frame : ℕ
  pub start_tick : ℕ
  pub event_id : ℕ
  pub event_name : Text
  pub samples : List TraceSample
  pub dropped : ℕ
  pub snapshots : List LayerSnapshot

pub record CutsceneState : Type 0 where
  pub skips_enabled : Bool
  pub last_saved_enabled : Bool
  pub phase : PlaybackPhase
  pub cutscene_active : Bool
  pub native_skippable : Bool
  pub plus_request_recorded : Bool
  pub inside_game_event_update : Bool
  pub a_attempt_in_progress : Bool
  pub a_accepted_this_attempt : Bool
  pub a_attempt_observed : Bool
  pub have_last_pad_poll : Bool
  pub last_pad_held : ℕ
  pub last_pad_down : ℕ
  pub injected_mask : ℕ
  pub native_frame : ℕ
  pub plus_accepted_frame : ℕ
  pub confirmation_menu : ℕ
  pub confirmation_object : ℕ
  pub profiler_capture_enabled : Bool
  pub log : TraceLog
  pub input : InputState

-- What is read of the game's event::SeqManager: its name from 0x271c on and its ID.
pub record SeqManager : Type 0 where
  pub name : Text
  pub id : ℕ

-- What a hook reads besides its arguments: the system tick when the trace starts and when its n-th
-- sample is taken, and the sequence manager, if there is one.
pub record Surroundings : Type 0 where
  pub tick_at_start : ℕ
  pub tick_at : ℕ → ℕ
  pub manager : Option SeqManager

-- AButtonMask
abbrev pub a_button_mask : ℕ
a_button_mask = 0x4

-- PhysicalPlusButtonMask
abbrev pub physical_plus_button_mask : ℕ
physical_plus_button_mask = 0x200

-- NativePlusActionMask
abbrev pub native_plus_action_mask : ℕ
native_plus_action_mask = 0x400

-- ConfirmationDelayFrames
abbrev pub confirmation_delay_frames : ℕ
confirmation_delay_frames = 6

-- TraceCapacity
abbrev pub trace_capacity : ℕ
trace_capacity = 512

abbrev pub is_waiting_for_plus : PlaybackPhase → Bool
is_waiting_for_plus idle_phase = false
is_waiting_for_plus waiting_for_plus_acceptance = true
is_waiting_for_plus waiting_for_a_frame = false
is_waiting_for_plus a_queued = false
is_waiting_for_plus finished = false

abbrev pub is_waiting_for_a : PlaybackPhase → Bool
is_waiting_for_a idle_phase = false
is_waiting_for_a waiting_for_plus_acceptance = false
is_waiting_for_a waiting_for_a_frame = true
is_waiting_for_a a_queued = false
is_waiting_for_a finished = false

abbrev pub is_a_queued : PlaybackPhase → Bool
is_a_queued idle_phase = false
is_a_queued waiting_for_plus_acceptance = false
is_a_queued waiting_for_a_frame = false
is_a_queued a_queued = true
is_a_queued finished = false
