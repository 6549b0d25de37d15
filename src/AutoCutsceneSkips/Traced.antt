-- ===== src/AutoCutsceneSkips/Traced.antt =====
-- The trace of src/xenomods/modules/AutoCutsceneSkips.cpp in every run of its hooks.
pub mod Parts
pub mod Runs
use xenomods.Base.{
  ap, ℕ, zero, suc, ◌+◌, ◌-◌, ◌%◌, ◌^◌, ◌≤◌, ◌<◌, Bool, true, false, not, ◌&&◌, ◌||◌, ◌==◌, leb,
  ◌≡◌, refl, List, [], ◌∷◌, ◌++◌, Option, none, some, length, if-elim, if-cases, option-cases,
  arith, ◌∙◌, Bool-cases, if◌then◌else◌,
}
use mathlib.Core.Path.{sym, subst}
use xenomods.InputBuffer.State.{InputState, LayerUpdate, PadData}
use xenomods.AutoCutsceneSkips.{
  TraceKind, TraceSample, TraceLog, CutsceneState, Surroundings, trace_capacity,
}
use xenomods.AutoCutsceneSkips.Trace.{
  sample_of, append_sample, record_sample, read_event_identity, started_log, start_trace,
  finish_trace, snapshot_for,
}
use xenomods.AutoCutsceneSkips.Hooks.{
  cancel_confirmation, reset_playback_only, arm_cutscene, start_if_stopped, begin_cutscene,
  start_if_capturing,
}

-- The samples stand between two frames.
abbrev pub Framed : (first last : ℕ) → List TraceSample → Type 0
Framed first last [] = Unit {0}
Framed first last (sample ∷ rest) =
    (first ≤ sample.frame) × (sample.frame ≤ last) × Framed first last rest

Framed-append :
    (first last : ℕ) (samples : List TraceSample) (sample : TraceSample)
    → Framed first last samples
    → first ≤ sample.frame
    → sample.frame ≤ last
    → Framed first last (samples ++ sample ∷ [])
Framed-append first last [] sample h a b = (a, b, tt)
Framed-append first last (x ∷ rest) sample h a b =
    (h.0, h.1, Framed-append first last rest sample h.2 a b)

pub Framed-later :
    (first last : ℕ) (samples : List TraceSample)
    → Framed first last samples
    → Framed first (suc last) samples
Framed-later first last [] h = tt
Framed-later first last (x ∷ rest) h = (h.0, omega (arith, h.1), Framed-later first last rest h.2)

length-append_one :
    (samples : List TraceSample) (sample : TraceSample)
    → length (samples ++ sample ∷ []) ≡ suc (length samples)
length-append_one [] sample = refl
length-append_one (x ∷ rest) sample = ap suc (length-append_one rest sample)

-- The trace fits its array, and its samples stand between its start and the current frame.
pub record IsWithin (frame : ℕ) (log : TraceLog) : Type 0 where
  pub bounded : length log.samples ≤ trace_capacity
  pub started : log.start_frame ≤ frame
  pub framed : Framed log.start_frame frame log.samples

append_sample-IsWithin :
    (around : Surroundings) (frame : ℕ) (sample : TraceSample) (log : TraceLog)
    → IsWithin frame log
    → IsWithin frame (append_sample around frame sample log)
unfolding append_sample
append_sample-IsWithin around frame sample log v = if-elim (IsWithin frame) (not log.running) v (
    if-cases (IsWithin frame) (leb trace_capacity (length log.samples))
      (λ _. record { bounded = v.bounded; started = v.started; framed = v.framed })
      (λ e. record {
        bounded = rw length-append_one (ground arith);
        started = v.started;
        framed = Framed-append _ _ log.samples _ v.framed v.started (omega arith);
      }))

-- A trace that starts.
read_event_identity-IsWithin :
    (around : Surroundings) (frame : ℕ) (log : TraceLog)
    → IsWithin frame log
    → IsWithin frame (read_event_identity around log)
unfolding read_event_identity
read_event_identity-IsWithin around frame log v =
    option-cases (IsWithin frame) around.manager
      (λ _. record { bounded = v.bounded; started = v.started; framed = v.framed })
      (λ _ _. record { bounded = v.bounded; started = v.started; framed = v.framed })

-- The state at a frame, with its trace.
pub record IsTraced (frame : ℕ) (s : CutsceneState) : Type 0 where
  pub at_frame : s.native_frame ≡ frame
  pub within : IsWithin frame s.log

module _ (n : ℕ) where
  -- The parts that the steps share.
  pub record_sample-IsTraced :
      (around : Surroundings) (sample : TraceSample) {s : CutsceneState}
      → IsTraced n s
      → IsTraced n (record_sample around sample s)
  unfolding record_sample
  record_sample-IsTraced around sample {s} v = record {
    at_frame = v.at_frame;
    within =
        subst (λ m. IsWithin n (append_sample around m sample s.log)) (sym v.at_frame)
          (append_sample-IsWithin around n sample s.log v.within);
  }

  pub start_trace-IsTraced :
      (around : Surroundings) {s : CutsceneState} → IsTraced n s → IsTraced n (start_trace around s)
  unfolding start_trace started_log
  start_trace-IsTraced around {s} v = if-elim (IsTraced n) (not s.profiler_capture_enabled) v (
      record_sample-IsTraced around _ (record {
        at_frame = v.at_frame;
        within =
            read_event_identity-IsWithin around n _
              (record { bounded = omega arith; started = omega (arith, v.at_frame); framed = tt });
      }))

  pub finish_trace-IsTraced :
      (around : Surroundings) (kind : TraceKind) {s : CutsceneState}
      → IsTraced n s
      → IsTraced n (finish_trace around kind s)
  unfolding finish_trace
  finish_trace-IsTraced around kind {s} v =
      let w = record_sample-IsTraced around (sample_of kind) v in
      if-elim (IsTraced n) (not s.log.running) v (record {
        at_frame = w.at_frame;
        within = record {
          bounded = w.within.bounded;
          started = w.within.started;
          framed = w.within.framed;
        };
      })

  pub reset_playback_only-IsTraced :
      {s : CutsceneState} → IsTraced n s → IsTraced n (reset_playback_only s)
  unfolding reset_playback_only cancel_confirmation
  reset_playback_only-IsTraced v = record { at_frame = v.at_frame; within = v.within }

  pub start_if_capturing-IsTraced :
      (around : Surroundings) {s : CutsceneState}
      → IsTraced n s
      → IsTraced n (start_if_capturing around s)
  unfolding start_if_capturing
  start_if_capturing-IsTraced around v = if-elim (IsTraced n) _ (start_trace-IsTraced around v) v

  pub begin_cutscene-IsTraced :
      (around : Surroundings) {s : CutsceneState}
      → IsTraced n s
      → IsTraced n (begin_cutscene around s)
  unfolding begin_cutscene start_if_stopped arm_cutscene
  begin_cutscene-IsTraced around {s} v =
      let w = reset_playback_only-IsTraced v in
      let armed : IsTraced n (arm_cutscene s) = record {
        at_frame = w.at_frame;
        within = w.within;
      } in
      if-elim (IsTraced n) _ (start_trace-IsTraced around armed) armed
