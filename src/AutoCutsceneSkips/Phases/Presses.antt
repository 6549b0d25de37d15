-- ===== src/AutoCutsceneSkips/Phases/Presses.antt =====
-- The presses of + and A in every run of the hooks of src/xenomods/modules/AutoCutsceneSkips.cpp.
use xenomods.Base.{
  ◌≤◌, ℕ, ◌+◌, Bool, true, false, ◌&&◌, ◌==◌, ◌!=◌, ◌≡◌, refl, sym, ◌∙◌, bit_or, Option, some,
  if◌then◌else◌, List, [], ◌∷◌, arith,
}
use mathlib.Core.Path.{ap, subst}
use xenomods.InputBuffer.State.{PadData, LayerUpdate}
use xenomods.AutoCutsceneSkips.{
  PlaybackPhase, CutsceneState, Surroundings, is_waiting_for_plus, is_waiting_for_a,
  physical_plus_button_mask,
}
use xenomods.AutoCutsceneSkips.Trace.{record_sample}
use xenomods.AutoCutsceneSkips.Layer.{queue_a, is_a_frame, on_input_layer_update}
use xenomods.AutoCutsceneSkips.Hooks.{mask_to_inject, get_control_pad_data_hook}
use xenomods.AutoCutsceneSkips.Events.{CutsceneStep, layer_updates, cutscene_step, run_cutscene}
use xenomods.AutoCutsceneSkips.Phases.{
  settles, queues, accepts, Moves, Control, control, Moves, stays, releases, resets, begins,
  accepts, queues, settles, misses, switches_on, switches_off, IsPaced, Moves-IsPaced,
}
use xenomods.AutoCutsceneSkips.Phases.Keeps.{polled, polled-Keeps}
use xenomods.AutoCutsceneSkips.Phases.Steps.{cutscene_step-MovesTo}
use xenomods.AutoCutsceneSkips.Phases.Requests.{
  requests_a, LayerInput, requested-queue_a, layer_input,
}

-- In every run of the hooks and the tools, in any order, nothing but + is injected, a phase that
-- awaits something belongs to an active cutscene, and an attempt at A is one of the tool that is
-- on, with its A queued.
pub run_cutscene-IsPaced :
    (steps : List CutsceneStep) (s : CutsceneState)
    → IsPaced (control s)
    → IsPaced (control (run_cutscene steps s))
unfolding run_cutscene
run_cutscene-IsPaced [] s v = v
run_cutscene-IsPaced (step ∷ rest) s v =
    run_cutscene-IsPaced rest (cutscene_step step s)
      (Moves-IsPaced (cutscene_step-MovesTo step s) v)

-- The tool is on, and an active cutscene awaits +.
abbrev pub awaits_plus : Control → Bool
awaits_plus c = c.enabled && c.active && is_waiting_for_plus c.at_phase

-- The pad with + held and pressed.
abbrev pub with_plus : PadData → PadData
with_plus p = record p {
  word0 = bit_or p.word0 physical_plus_button_mask;
  word1 = bit_or p.word1 physical_plus_button_mask;
  word3 = bit_or p.word3 physical_plus_button_mask;
}

-- The pad that the hook returns for a mask.
abbrev output : (pad mask : ℕ) → PadData → Option PadData
output pad mask p =
    if pad != 0
    then some p
    else if mask == 0
    then some p
    else some (record p {
      word0 = bit_or p.word0 mask;
      word1 = bit_or p.word1 mask;
      word3 = bit_or p.word3 mask;
    })

hook-output :
    (around : Surroundings) (pad address : ℕ) (p : PadData) (s : CutsceneState)
    → (get_control_pad_data_hook around pad (some (address, p)) s).1
      ≡ output pad (mask_to_inject (polled around address p s)) p
unfolding get_control_pad_data_hook
hook-output around pad address p s = ground arith

-- What is injected, by the control.
paced_mask :
    (s : CutsceneState)
    → IsPaced (control s)
    → mask_to_inject s ≡ (if awaits_plus (control s) then physical_plus_button_mask else 0)
unfolding mask_to_inject
paced_mask s v =
    subst
      (λ m.
        (if awaits_plus (control s) then bit_or m physical_plus_button_mask else m)
        ≡ (if awaits_plus (control s) then physical_plus_button_mask else 0))
      (sym v.nothing_injected) refl

output-mask :
    (b : Bool) (pad : ℕ) (p : PadData)
    → output pad (if b then physical_plus_button_mask else 0) p
      ≡ (if pad == 0 && b then some (with_plus p) else some p)
output-mask true pad p = ground arith
output-mask false pad p = ground arith

-- After any run, the game finds its own pad data unless it reads the first pad while the tool is on
-- and an active cutscene awaits +; then it finds them with + held and pressed, and nothing else.
pub run_cutscene-injects :
    (steps : List CutsceneStep) (around : Surroundings) (pad address : ℕ) (p : PadData)
    (s : CutsceneState)
    → IsPaced (control s)
    → (get_control_pad_data_hook around pad (some (address, p)) (run_cutscene steps s)).1 ≡ (
        if pad == 0 && awaits_plus (control (run_cutscene steps s))
        then some (with_plus p)
        else some p)
run_cutscene-injects steps around pad address p s v =
    let t = run_cutscene steps s in
    let kept = polled-Keeps around address p t in
    let paced = subst IsPaced (sym kept) (run_cutscene-IsPaced steps s v) in
    let mask =
      subst
        (λ c.
          mask_to_inject (polled around address p t)
          ≡ (if awaits_plus c then physical_plus_button_mask else 0))
        kept (paced_mask (polled around address p t) paced) in
    hook-output around pad address p t
    ∙ subst
        (λ m.
          output pad m p
          ≡ (if pad == 0 && awaits_plus (control t) then some (with_plus p) else some p))
        (sym mask) (output-mask (awaits_plus (control t)) pad p)

-- One, if the test holds.
abbrev one_if : Bool → ℕ
one_if true = 1
one_if false = 0

-- Whether a step requests A.
unfoldable pub is_press : CutsceneStep → CutsceneState → Bool
is_press step s = elim step [ layer_updates around u ↦ requests_a u s | _ ↦ false ]

-- Whether + is accepted between two phases.
abbrev pub is_acceptance : PlaybackPhase → PlaybackPhase → Bool
is_acceptance before after = is_waiting_for_plus before && is_waiting_for_a after

-- How often a run requests A, and how often the game accepts + in it.
unfoldable pub a_presses : List CutsceneStep → CutsceneState → ℕ
a_presses [] s = 0
a_presses (step ∷ rest) s = one_if (is_press step s) + a_presses rest (cutscene_step step s)

unfoldable pub plus_acceptances : List CutsceneStep → CutsceneState → ℕ
plus_acceptances [] s = 0
plus_acceptances (step ∷ rest) s =
    one_if (is_acceptance s.phase (cutscene_step step s).phase)
    + plus_acceptances rest (cutscene_step step s)

-- So do all updates of a run.
abbrev pub Counted : CutsceneStep → CutsceneState → Type 0
Counted (layer_updates around u) s =
    LayerInput s (requests_a u s) (on_input_layer_update around u s)
Counted step s = Unit {0}

abbrev pub AllCounted : List CutsceneStep → CutsceneState → Type 0
AllCounted [] s = Unit {0}
AllCounted (step ∷ rest) s = Counted step s × AllCounted rest (cutscene_step step s)

-- A move awaits A afterwards only when it did before, or when + is accepted in it.
Moves-awaits :
    {c d : Control}
    → Moves c d
    → one_if (is_waiting_for_a d.at_phase)
      ≤ one_if (is_acceptance c.at_phase d.at_phase) + one_if (is_waiting_for_a c.at_phase)
Moves-awaits stays = ground arith
Moves-awaits releases = ground arith
Moves-awaits resets = ground arith
Moves-awaits begins = ground arith
Moves-awaits (accepts e) = ground arith
Moves-awaits (queues e) = ground arith
Moves-awaits (settles e) = ground arith
Moves-awaits (misses e) = ground arith
Moves-awaits (switches_on e) = ground arith
Moves-awaits switches_off = ground arith

-- A state in which A is requested awaits A, and the one after the request does not.
requests_a-waiting :
    (u : LayerUpdate) (s : CutsceneState) → requests_a u s ≡ true → is_waiting_for_a s.phase ≡ true
unfolding requests_a is_a_frame
requests_a-waiting u s e = ground (arith, e)

requested-phase :
    (around : Surroundings) (u : LayerUpdate) (s : CutsceneState)
    → requests_a u s ≡ true
    → is_waiting_for_a (on_input_layer_update around u s).phase ≡ false
unfolding queue_a record_sample
requested-phase around u s e =
    ap (λ (t : CutsceneState). is_waiting_for_a t.phase) (requested-queue_a around u s e)

-- What a step costs: a request, and the wait for one, are paid by an acceptance or by the wait before.
abbrev Pays : Bool → CutsceneState → CutsceneState → Type 0
Pays press s t =
    one_if press + one_if (is_waiting_for_a t.phase)
    ≤ one_if (is_acceptance s.phase t.phase) + one_if (is_waiting_for_a s.phase)

free-Pays : (s t : CutsceneState) → Moves (control s) (control t) → Pays false s t
free-Pays s t m = let awaited = Moves-awaits m in omega (arith, awaited)

layer-Pays :
    (around : Surroundings) (u : LayerUpdate) (s : CutsceneState)
    → Pays (requests_a u s) s (on_input_layer_update around u s)
unfolding cutscene_step
layer-Pays around u s = paid (requests_a u s) refl
  where
    paid : (b : Bool) → requests_a u s ≡ b → Pays b s (on_input_layer_update around u s)
    paid true e =
        let before = ap one_if (requests_a-waiting u s e) in
        let after = ap one_if (requested-phase around u s e) in omega (arith, before, after)
    paid false e =
        free-Pays s (on_input_layer_update around u s)
          (cutscene_step-MovesTo (layer_updates around u) s)

step-Pays :
    (step : CutsceneStep) (s : CutsceneState) → Pays (is_press step s) s (cutscene_step step s)
unfolding is_press cutscene_step
step-Pays (layer_updates around u) s = layer-Pays around u s
step-Pays step s = free-Pays s (cutscene_step step s) (cutscene_step-MovesTo step s)

presses_paid :
    (steps : List CutsceneStep) (s : CutsceneState)
    → a_presses steps s ≤ plus_acceptances steps s + one_if (is_waiting_for_a s.phase)
unfolding a_presses plus_acceptances
presses_paid [] s = omega arith
presses_paid (step ∷ rest) s =
    omega (arith, presses_paid rest (cutscene_step step s), step-Pays step s)

step-Counted : (step : CutsceneStep) (s : CutsceneState) → Counted step s
step-Counted (layer_updates around u) s = layer_input around u s
step-Counted step s = tt

run-AllCounted : (steps : List CutsceneStep) (s : CutsceneState) → AllCounted steps s
run-AllCounted [] s = tt
run-AllCounted (step ∷ rest) s = (step-Counted step s, run-AllCounted rest (cutscene_step step s))

-- In every run of the hooks and the tools that does not start between the acceptance of + and its
-- A, A is requested in at most as many updates of a layer as the game accepts + for a cutscene that
-- awaits it. The updates that are counted are those that request A for the confirmation object: any
-- other update of the run leaves the input buffer as it is or takes the press of that object back.
pub a_presses-accepted :
    (steps : List CutsceneStep) (s : CutsceneState)
    → is_waiting_for_a s.phase ≡ false
    → (a_presses steps s ≤ plus_acceptances steps s) × AllCounted steps s
a_presses-accepted steps s h =
    (omega (arith, presses_paid steps s, ap one_if h), run-AllCounted steps s)
