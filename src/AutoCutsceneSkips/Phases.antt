-- ===== src/AutoCutsceneSkips/Phases.antt =====
-- What a cutscene may do, as a relation on the globals that decide it: the phase of the playback and
-- what goes with it, in src/xenomods/modules/AutoCutsceneSkips.cpp.
pub mod Keeps
pub mod Steps
pub mod Requests
pub mod Presses
use xenomods.Base.{ℕ, Bool, true, false, not, ◌&&◌, ◌||◌, ◌≡◌, refl, if◌then◌else◌, arith}
use xenomods.AutoCutsceneSkips.{
  PlaybackPhase, idle_phase, waiting_for_plus_acceptance, waiting_for_a_frame, a_queued, finished,
  CutsceneState, is_waiting_for_plus, is_waiting_for_a, is_a_queued,
}

pub record Control : Type 0 where
  pub at_phase : PlaybackPhase
  pub active : Bool
  pub attempting : Bool
  pub injected : ℕ
  pub enabled : Bool

abbrev pub control : CutsceneState → Control
control s = record {
  at_phase = s.phase;
  active = s.cutscene_active;
  attempting = s.a_attempt_in_progress;
  injected = s.injected_mask;
  enabled = s.skips_enabled;
}

-- One move: + is accepted only when it is awaited, A is queued only after + was accepted, a
-- cutscene that is over or whose A is queued is not offered another one.
pub data Moves : Control → Control → Type 0 where
  stays : {c : Control} → Moves c c
  releases : {c : Control} → Moves c (record c { injected = 0 })
  resets :
      {c : Control}
      → Moves c
          (record c { at_phase = idle_phase; active = false; attempting = false; injected = 0 })
  begins :
      {c : Control}
      → Moves c (record c {
        at_phase = if c.enabled then waiting_for_plus_acceptance else idle_phase;
        active = true;
        attempting = false;
        injected = 0;
      })
  accepts :
      {c : Control}
      → is_waiting_for_plus c.at_phase ≡ true
      → Moves c (record c { at_phase = waiting_for_a_frame; injected = 0 })
  queues :
      {c : Control}
      → (c.enabled && c.active && is_waiting_for_a c.at_phase) ≡ true
      → Moves c (record c { at_phase = a_queued; attempting = true })
  settles :
      {c : Control}
      → c.attempting ≡ true
      → Moves c (record c { at_phase = finished; attempting = false })
  misses :
      {c : Control}
      → (c.enabled && c.active && (is_waiting_for_a c.at_phase || is_a_queued c.at_phase)) ≡ true
      → Moves c (record c { at_phase = finished; attempting = false; injected = 0 })
  switches_on :
      {c : Control}
      → c.enabled ≡ false
      → Moves c (record c {
        enabled = true;
        at_phase = if c.active then waiting_for_plus_acceptance else c.at_phase;
      })
  switches_off :
      {c : Control}
      → Moves c (record c {
        enabled = false;
        at_phase = if c.active then finished else idle_phase;
        injected = 0;
        attempting = false;
      })

-- Nothing is injected but +, a phase that awaits something belongs to an active cutscene, and an
-- attempt is one of the tool that is on, with its A queued.
pub record IsPaced (c : Control) : Type 0 where
  pub nothing_injected : c.injected ≡ 0
  pub awaits :
      (is_waiting_for_plus c.at_phase || is_waiting_for_a c.at_phase || is_a_queued c.at_phase)
        ≡ true
      → c.active ≡ true
  pub attempts : c.attempting ≡ true → (c.enabled && is_a_queued c.at_phase) ≡ true

-- Every move keeps this.
pub Moves-IsPaced : {c d : Control} → Moves c d → IsPaced c → IsPaced d
Moves-IsPaced stays v = v
Moves-IsPaced releases v = ground arith
Moves-IsPaced resets v = ground arith
Moves-IsPaced begins v = ground arith
Moves-IsPaced (accepts e) v = ground arith
Moves-IsPaced (queues e) v = ground arith
Moves-IsPaced (settles e) v = ground arith
Moves-IsPaced (misses e) v = ground arith
Moves-IsPaced (switches_on e) v = ground arith
Moves-IsPaced switches_off v = ground arith

-- The phases in the order in which one cutscene goes through them.
abbrev pub is_waiting : PlaybackPhase → Bool
is_waiting phase = is_waiting_for_plus phase || is_waiting_for_a phase
