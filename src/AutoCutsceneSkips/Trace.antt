-- ===== src/AutoCutsceneSkips/Trace.antt =====
-- The trace of a cutscene: Record, ReadEventIdentity, StartTrace, FinishTrace and SnapshotFor of
-- src/xenomods/modules/AutoCutsceneSkips.cpp.
use xenomods.Base.{
  ℕ, zero, suc, ◌+◌, ◌%◌, ◌^◌, Bool, true, false, not, ◌==◌, leb, List, [], ◌∷◌, ◌++◌, Text, Option,
  none, some, length, replicate, if◌then◌else◌,
}
use xenomods.InputBuffer.Api.{set_input_layer_pad_capture}
use xenomods.AutoCutsceneSkips.{
  TraceKind, cutscene_initialized, cutscene_completed, TraceSample, LayerSnapshot, no_snapshot,
  TraceLog, CutsceneState, Surroundings, trace_capacity,
}

-- The arguments of Record that are left out.
abbrev pub sample_of : TraceKind → TraceSample
sample_of kind = record {
  kind = kind;
  frame = 0;
  tick = 0;
  address = 0;
  object = 0;
  layer = 0;
  enabled = 0;
  held = 0;
  down = 0;
  primary_event = 0;
  secondary_event = 0;
  action = 0;
  accepted = false;
  rejected = false;
}

-- Record, on the trace.
unfoldable pub append_sample : Surroundings → (frame : ℕ) → TraceSample → TraceLog → TraceLog
append_sample around frame sample log =
    if not log.running
    then log
    else if leb trace_capacity (length log.samples)
    then record log { dropped = (log.dropped + 1) % 2 ^ 64 }
    else record log {
      samples =
          log.samples
          ++ record sample { frame = frame; tick = around.tick_at (length log.samples) } ∷ [];
    }

unfoldable pub record_sample : Surroundings → TraceSample → CutsceneState → CutsceneState
record_sample around sample s = record s { log = append_sample around s.native_frame sample s.log }

-- The loop of ReadEventIdentity: the characters up to a NUL, `left` at most.
unfoldable pub copy_name : (left : ℕ) → Text → Text
copy_name zero name = []
copy_name (suc left) [] = []
copy_name (suc left) (c ∷ name) = if c == 0 then [] else c ∷ copy_name left name

-- The name is what stands before the first NUL of traceEventName, which has 64 characters.
unfoldable pub read_event_identity : Surroundings → TraceLog → TraceLog
unfolding copy_name
read_event_identity around log = elim around.manager [
  | none ↦ record log { event_name = []; event_id = 0 }
  | some manager ↦ record log { event_name = copy_name 63 manager.name; event_id = manager.id }
]

-- The trace that StartTrace starts.
unfoldable pub started_log : Surroundings → CutsceneState → TraceLog
started_log around s = read_event_identity around (record s.log {
  samples = [];
  dropped = 0;
  snapshots = replicate 64 no_snapshot;
  start_frame = s.native_frame;
  start_tick = around.tick_at_start;
  running = true;
  complete = false;
})

unfoldable pub start_trace : Surroundings → CutsceneState → CutsceneState
unfolding started_log record_sample
start_trace around s =
    if not s.profiler_capture_enabled
    then s
    else record_sample around (sample_of cutscene_initialized)
        (record s { log = started_log around s; input = set_input_layer_pad_capture true s.input })

abbrev is_completed : TraceKind → Bool
is_completed cutscene_completed = true
is_completed _ = false

unfoldable pub finish_trace : Surroundings → TraceKind → CutsceneState → CutsceneState
unfolding record_sample
finish_trace around kind s =
    let s1 = record_sample around (sample_of kind) s in
    if not s.log.running then s else record s1 {
      log = record s1.log { running = false; complete = is_completed kind };
      input = set_input_layer_pad_capture false s1.input;
    }

-- The free entry found so far, after one more.
abbrev first_free : Option ℕ → (index : ℕ) → LayerSnapshot → Option ℕ
first_free none index snapshot = if snapshot.layer == 0 then some index else none
first_free (some i) index snapshot = some i

-- The loop of SnapshotFor from an index on.
unfoldable pub snapshot_from : (layer index : ℕ) → (free : Option ℕ) → List LayerSnapshot → Option ℕ
snapshot_from layer index free [] = free
snapshot_from layer index free (snapshot ∷ rest) =
    let later = snapshot_from layer (suc index) (first_free free index snapshot) rest in
    if snapshot.layer == layer then some index else later

-- SnapshotFor, as an index of the array.
unfoldable pub snapshot_for : (layer : ℕ) → List LayerSnapshot → Option ℕ
unfolding snapshot_from
snapshot_for layer snapshots = snapshot_from layer 0 none snapshots
