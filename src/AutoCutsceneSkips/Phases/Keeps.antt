-- ===== src/AutoCutsceneSkips/Phases/Keeps.antt =====
-- What in the hooks of src/xenomods/modules/AutoCutsceneSkips.cpp only traces, and so keeps the control.
use xenomods.Base.{
  ℕ, Bool, not, ◌&&◌, ◌==◌, ◌!=◌, ◌≡◌, refl, ◌∙◌, if-elim, Option, none, some, if◌then◌else◌,
}
use xenomods.InputBuffer.State.{LayerUpdate, PadData}
use xenomods.AutoCutsceneSkips.{CutsceneState, Surroundings, TraceKind}
use xenomods.AutoCutsceneSkips.Trace.{start_trace, finish_trace, record_sample}
use xenomods.AutoCutsceneSkips.Hooks.{
  trace_plus, trace_poll, request_samples, trace_request, mask_to_inject, get_control_pad_data_hook,
  trace_acceptance, note_skippable, note_acceptance, trace_blank, start_if_capturing,
  start_if_stopped,
}
use xenomods.AutoCutsceneSkips.Layer.{take_snapshot, store_snapshot}
use xenomods.AutoCutsceneSkips.Phases.{control}

-- The control of the one state is that of the other.
abbrev pub Keeps : CutsceneState → CutsceneState → Type 0
Keeps s t = control t ≡ control s

pub start_trace-Keeps : (around : Surroundings) (s : CutsceneState) → Keeps s (start_trace around s)
unfolding start_trace record_sample
start_trace-Keeps around s = if-elim (Keeps s) (not s.profiler_capture_enabled) refl refl

pub finish_trace-Keeps :
    (around : Surroundings) (kind : TraceKind) (b : Bool) (s : CutsceneState)
    → Keeps s (if b then finish_trace around kind s else s)
unfolding finish_trace record_sample
finish_trace-Keeps around kind b s =
    if-elim (Keeps s) b (if-elim (Keeps s) (not s.log.running) refl refl) refl

pub start_if_stopped-Keeps :
    (around : Surroundings) (s : CutsceneState) → Keeps s (start_if_stopped around s)
unfolding start_if_stopped
start_if_stopped-Keeps around s =
    if-elim (Keeps s) (not s.log.running) (start_trace-Keeps around s) refl

pub start_if_capturing-Keeps :
    (around : Surroundings) (s : CutsceneState) → Keeps s (start_if_capturing around s)
unfolding start_if_capturing
start_if_capturing-Keeps around s =
    if-elim (Keeps s) (s.profiler_capture_enabled && not s.log.running) (start_trace-Keeps around s)
      refl

trace_plus-Keeps :
    (around : Surroundings) (p : PadData) (s : CutsceneState) → Keeps s (trace_plus around p s)
unfolding trace_plus
trace_plus-Keeps around p s = if-elim (Keeps s) _ (start_trace-Keeps around s) refl

trace_poll-Keeps :
    (around : Surroundings) (address : ℕ) (p : PadData) (s : CutsceneState)
    → Keeps s (trace_poll around address p s)
unfolding trace_poll record_sample
trace_poll-Keeps around address p s = if-elim (Keeps s) _ refl refl

trace_request-Keeps :
    (around : Surroundings) (address mask : ℕ) (p : PadData) (s : CutsceneState)
    → Keeps s (trace_request around address mask p s)
unfolding trace_request request_samples record_sample
trace_request-Keeps around address mask p s = if-elim (Keeps s) _ refl refl

-- The state of the pad hook when it looks for something to inject.
abbrev pub polled : Surroundings → (address : ℕ) → PadData → CutsceneState → CutsceneState
polled around address p s = trace_poll around address p (trace_plus around p s)

pub polled-Keeps :
    (around : Surroundings) (address : ℕ) (p : PadData) (s : CutsceneState)
    → Keeps s (polled around address p s)
polled-Keeps around address p s =
    trace_poll-Keeps around address p (trace_plus around p s) ∙ trace_plus-Keeps around p s

pub get_control_pad_data_hook-Keeps :
    (around : Surroundings) (pad : ℕ) (original : Option (ℕ × PadData)) (s : CutsceneState)
    → Keeps s (get_control_pad_data_hook around pad original s).0
unfolding get_control_pad_data_hook
get_control_pad_data_hook-Keeps around pad none s = refl
get_control_pad_data_hook-Keeps around pad (some (address, p)) s =
    let t = polled around address p s in
    let mask = mask_to_inject t in
    let kept = polled-Keeps around address p s in
    if-elim (λ (r : CutsceneState × Option PadData). Keeps s r.0) (pad != 0) refl
      (if-elim (λ (r : CutsceneState × Option PadData). Keeps s r.0) (mask == 0) kept
        (trace_request-Keeps around address mask p t ∙ kept))

pub trace_acceptance-Keeps :
    (around : Surroundings) (first : Bool) (s : CutsceneState)
    → Keeps s (trace_acceptance around first s)
unfolding trace_acceptance
trace_acceptance-Keeps around first s = if-elim (Keeps s) _ (start_trace-Keeps around s) refl

pub note_acceptance-Keeps :
    (around : Surroundings) (first : Bool) (manager : ℕ) (s : CutsceneState)
    → Keeps s (if first then note_acceptance around manager s else s)
unfolding note_acceptance note_skippable record_sample
note_acceptance-Keeps around first manager s =
    if-elim (Keeps s) first (if-elim (Keeps s) (not s.native_skippable) refl refl) refl

pub trace_blank-Keeps : (around : Surroundings) (s : CutsceneState) → Keeps s (trace_blank around s)
unfolding trace_blank record_sample
trace_blank-Keeps around s = if-elim (Keeps s) _ refl refl

pub take_snapshot-Keeps :
    (around : Surroundings) (u : LayerUpdate) (enabled index : ℕ) (s : CutsceneState)
    → Keeps s (take_snapshot around u enabled index s)
unfolding take_snapshot store_snapshot record_sample
take_snapshot-Keeps around u enabled index s = if-elim (Keeps s) _ refl refl
