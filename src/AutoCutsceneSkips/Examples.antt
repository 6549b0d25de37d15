-- ===== src/AutoCutsceneSkips/Examples.antt =====
-- The theorems on the cutscenes that skip themselves at concrete inputs.
use xenomods.Base.{ℕ, ◌≤◌, ◌+◌, true, false, ◌≡◌, refl, List, [], ◌∷◌, some, arith, replicate}
use xenomods.InputBuffer.State.{PadData, LayerUpdate, InputLayer, init, no_layers}
use xenomods.InputBuffer.Layers.{enabled_from, fw_pad}
use xenomods.InputBuffer.Api.{request_auto_ui_action}
use xenomods.AutoCutsceneSkips.Timing.{Awaits, confirmation_frames}
use xenomods.AutoCutsceneSkips.Timing.Press.{confirmation_frames-queues}
use xenomods.AutoCutsceneSkips.Layer.{layer_enabled_mask}
use xenomods.AutoCutsceneSkips.{
  a_button_mask, waiting_for_a_frame, a_queued, CutsceneState, Surroundings, TraceLog, no_snapshot,
  idle_phase,
}
use xenomods.AutoCutsceneSkips.Events.{
  cutscene_step, CutsceneStep, scene_leaves, scene_starts, frame_counts, pad_is_read, skip_opened,
  layer_updates, sender_seen, run_cutscene,
}
use xenomods.AutoCutsceneSkips.Hooks.{
  get_control_pad_data_hook, count_native_frame, begin_cutscene, leave_scene,
}
use xenomods.AutoCutsceneSkips.Trace.{
  snapshot_for, snapshot_from, start_trace, append_sample, read_event_identity,
}
use xenomods.AutoCutsceneSkips.Traced.{IsWithin}
use xenomods.AutoCutsceneSkips.Traced.Runs.{run_cutscene-IsTraced}
use xenomods.AutoCutsceneSkips.Phases.{control, IsPaced}
use xenomods.AutoCutsceneSkips.Phases.Steps.{MovesTo, cutscene_step-MovesTo}
use xenomods.AutoCutsceneSkips.Phases.Presses.{
  run_cutscene-injects, a_presses-accepted, AllCounted, a_presses, plus_acceptances, with_plus,
}

-- A game whose confirmation layer shows A: entry 1 is the UI pad 1, which is A.
abbrev a_layer : ℕ → InputLayer
a_layer address = record (no_layers address) {
  entry = λ _. record { ui_pad = 1; enabled = 1 };
  count = 1;
}

abbrev no_trace : TraceLog
no_trace = record {
  running = false;
  complete = false;
  start_frame = 0;
  start_tick = 0;
  event_id = 0;
  event_name = [];
  samples = [];
  dropped = 0;
  snapshots = replicate 64 no_snapshot;
}

-- The tool is on, before any cutscene.
abbrev before_cutscene : CutsceneState
before_cutscene = record {
  skips_enabled = true;
  last_saved_enabled = true;
  phase = idle_phase;
  cutscene_active = false;
  native_skippable = false;
  plus_request_recorded = false;
  inside_game_event_update = false;
  a_attempt_in_progress = false;
  a_accepted_this_attempt = false;
  a_attempt_observed = false;
  have_last_pad_poll = false;
  last_pad_held = 0;
  last_pad_down = 0;
  injected_mask = 0;
  native_frame = 0;
  plus_accepted_frame = 0;
  confirmation_menu = 0;
  confirmation_object = 0;
  profiler_capture_enabled = true;
  log = no_trace;
  input = init a_layer;
}

abbrev around : Surroundings
around = record {
  tick_at_start = 100;
  tick_at = λ n. 101 + n;
  manager = some (record { name = 65 ∷ 66 ∷ 0 ∷ []; id = 12 });
}

abbrev pad : PadData
pad = record { word0 = 1; word1 = 0; word3 = 0; others = [] }

-- A cutscene starts, and the game reads its pad.
abbrev opening : List CutsceneStep
opening =
    scene_leaves around
    ∷ scene_starts around
    ∷ frame_counts
    ∷ pad_is_read around 0 (some (64, pad))
    ∷ []

run_cutscene-IsTraced_example :
    IsWithin
      (run_cutscene opening before_cutscene).native_frame
      (run_cutscene opening before_cutscene).log
run_cutscene-IsTraced_example =
    run_cutscene-IsTraced 0 opening before_cutscene (omega arith) (record {
      at_frame = refl;
      within = record { bounded = omega arith; started = omega arith; framed = tt };
    })

before_cutscene-IsPaced : IsPaced (control before_cutscene)
before_cutscene-IsPaced = ground arith

run_cutscene-injects_example :
    (get_control_pad_data_hook around 0 (some (64, pad)) (run_cutscene opening before_cutscene)).1
    ≡ some (with_plus pad)
unfolding run_cutscene get_control_pad_data_hook count_native_frame begin_cutscene leave_scene
    start_trace append_sample read_event_identity
run_cutscene-injects_example =
    run_cutscene-injects opening around 0 64 pad before_cutscene before_cutscene-IsPaced

-- The game accepts +, and the confirmation layer 16 of the object 9 is updated six frames later.
abbrev confirmation : LayerUpdate
confirmation = record {
  object = 9;
  input_layer = 16;
  layer_handle = 3;
  after_update = false;
  accepted = false;
  emitted_event = 0;
  secondary_event = 0;
  secondary_action = 0;
  held_buttons = 0;
  down_buttons = 0;
}

abbrev skipping : List CutsceneStep
skipping =
    scene_starts around
    ∷ skip_opened around true 32
    ∷ sender_seen 9
    ∷ layer_updates around confirmation
    ∷ []

cutscene_step-MovesTo_example :
    MovesTo before_cutscene (cutscene_step (scene_starts around) before_cutscene)
cutscene_step-MovesTo_example = cutscene_step-MovesTo (scene_starts around) before_cutscene

a_presses-accepted_example :
    (a_presses skipping before_cutscene ≤ plus_acceptances skipping before_cutscene)
    × AllCounted skipping before_cutscene
a_presses-accepted_example = a_presses-accepted skipping before_cutscene refl

-- The game accepted + in frame 5, and the tool awaits the confirmation layer of the object 9.
abbrev accepted_plus : CutsceneState
accepted_plus = record before_cutscene {
  phase = waiting_for_a_frame;
  cutscene_active = true;
  native_frame = 5;
  plus_accepted_frame = 5;
  confirmation_object = 9;
}

confirmation_frames-queues_example :
    Awaits 5 3 9
      (init a_layer)
      (replicate 64 no_snapshot)
      (confirmation_frames 3 around confirmation accepted_plus)
    × ((confirmation_frames 6 around confirmation accepted_plus).phase ≡ a_queued)
    × ((confirmation_frames 6 around confirmation accepted_plus).input
        ≡ request_auto_ui_action 9 a_button_mask (init a_layer))
unfolding layer_enabled_mask enabled_from fw_pad snapshot_for snapshot_from
confirmation_frames-queues_example =
    confirmation_frames-queues 5 9 (init a_layer) (replicate 64 no_snapshot) (omega arith) 3 around
      confirmation 0 accepted_plus refl (ground arith) refl (ground arith) refl (omega arith)
      (record {
        switched_on = refl;
        is_active = refl;
        in_phase = refl;
        now = refl;
        accepted_at = refl;
        of_object = refl;
        same_input = refl;
        same_snapshots = refl;
      })
