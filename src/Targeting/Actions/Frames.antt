-- ===== src/Targeting/Actions/Frames.antt =====
-- One frame of UpdateActiveAction with one unbuffered button action.
use xenomods.Base.{
  suc_nonzero, suc_less, ℕ, suc, true, false, not, ◌&&◌, ◌==◌, List, [], ◌∷◌, if◌then◌else◌, some,
  bit_and, get_elem?, ◌≡◌, refl, arith, ap, ◌∙◌, if_true, ◌<◌,
}
use xenomods.Word.Laws.{zero-bit_or, bit_and_same, zero-bit_and}
use xenomods.InputBuffer.State.{InputState}
use xenomods.InputBuffer.Api.{buffered_button_action_pending_mask}
use xenomods.Targeting.{TargetData, buttons, max_one}
use xenomods.Targeting.Route.{RouteState, ActiveAction}
use xenomods.Targeting.Actions.{
  Presses, no_presses, Round, action_rounds, action_round, start_action, run_action, run_buttons,
  hold_buttons, keep_running, update_active_action,
}
use xenomods.Targeting.Actions.Requests.{apply_presses-Raw}

-- An action of the entry at an index before and after it has started.
abbrev pub waiting : (i delay hold : ℕ) → ActiveAction
waiting i delay hold = record {
  index = i;
  delay_frames_remaining = delay;
  hold_frames_remaining = hold;
  started = false;
  buffered_requested = false;
  buffered_accepted = false;
}

abbrev pub pressing : (i hold : ℕ) → ActiveAction
pressing i hold = record {
  index = i;
  delay_frames_remaining = 0;
  hold_frames_remaining = hold;
  started = true;
  buffered_requested = false;
  buffered_accepted = false;
}

-- What a frame leaves: the running actions and the buttons that are injected into the game.
pub record Frame (s : RouteState) (actions : List ActiveAction) (held down : ℕ) : Type 0 where
  pub running : s.active_actions ≡ actions
  pub held_is : s.input.raw_button_held ≡ held
  pub down_is : s.input.raw_button_down ≡ down

keep-one :
    (ts : List TargetData) (r : ActiveAction) (t : TargetData)
    → get_elem? ts r.index ≡ some t
    → keep_running ts (r ∷ []) ≡ (if r.hold_frames_remaining == 0 then [] else r ∷ [])
unfolding keep_running
keep-one ts r t g = rw (g, keep_running) refl

-- One frame of a route with one action, from the round of that action.
pub update-one :
    (s : RouteState) (r r' : ActiveAction) (p : Presses) (t : TargetData)
    → s.active_actions ≡ r ∷ []
    → get_elem? s.targets r'.index ≡ some t
    → action_round true
        (buffered_button_action_pending_mask s.input)
        s.targets
        (record { runtime = r; presses = no_presses; input = s.input })
      ≡ record { runtime = r'; presses = p; input = s.input }
    → Frame
        (update_active_action true s)
        (if r'.hold_frames_remaining == 0 then [] else r' ∷ [])
        p.held_buttons
        (bit_and p.down_buttons p.held_buttons)
unfolding update_active_action action_rounds
update-one s r r' p t a g e = record {
  running = rw (a, e) (keep-one s.targets r' t g);
  held_is = rw (a, e) (apply_presses-Raw p _ s.input).held_raw;
  down_is = rw (a, e) (apply_presses-Raw p _ s.input).down_raw;
}

module _ (i : ℕ) (t : TargetData) (kind : t.action_input_type ≡ buttons)
    (unbuffered : t.buffered ≡ false) where
  pressed : (h : ℕ) → Presses
  pressed h = record no_presses {
    held_buttons = t.button_mask;
    down_buttons = if h == max_one t.hold_frames then t.button_mask else 0;
  }

  run-hold_buttons :
      (pend : ℕ) (round : Round)
      → run_action pend t t.action_input_type round ≡ hold_buttons t round
  unfolding run_action run_buttons
  run-hold_buttons pend round =
      ap (λ k. run_action pend t k round) kind
      ∙ if_true _ (ap (λ b. not (b && not round.runtime.buffered_accepted)) unbuffered)

  pub round-waits :
      (pend d h : ℕ) (ts : List TargetData) (input : InputState)
      → get_elem? ts i ≡ some t
      → action_round true pend ts
          (record { runtime = waiting i (suc d) h; presses = no_presses; input = input })
        ≡ record { runtime = waiting i d h; presses = no_presses; input = input }
  unfolding action_round start_action
  round-waits pend d h ts input g = rw (g, action_round, suc_nonzero d, suc_less d) refl

  hold-pressed :
      (h : ℕ) (input : InputState)
      → hold_buttons t
          (record { runtime = pressing i (suc h); presses = no_presses; input = input })
        ≡ record { runtime = pressing i h; presses = pressed (suc h); input = input }
  unfolding hold_buttons pressed
  hold-pressed h input = rw (hold_buttons, suc_less h, zero-bit_or t.button_mask) refl

  round-presses :
      (pend h : ℕ) (ts : List TargetData) (input : InputState)
      → get_elem? ts i ≡ some t
      → action_round true pend ts
          (record { runtime = pressing i (suc h); presses = no_presses; input = input })
        ≡ record { runtime = pressing i h; presses = pressed (suc h); input = input }
  unfolding action_round start_action
  round-presses pend h ts input g =
      rw (g, action_round) (run-hold_buttons pend _ ∙ hold-pressed h input)

  round-starts :
      (pend h : ℕ) (ts : List TargetData) (input : InputState)
      → get_elem? ts i ≡ some t
      → action_round true pend ts
          (record { runtime = waiting i 0 (suc h); presses = no_presses; input = input })
        ≡ record { runtime = pressing i h; presses = pressed (suc h); input = input }
  unfolding action_round start_action
  round-starts pend h ts input g =
      rw (g, action_round) (run-hold_buttons pend _ ∙ hold-pressed h input)

  pub frame-pressing :
      (h : ℕ) (s : RouteState)
      → get_elem? s.targets i ≡ some t
      → s.active_actions ≡ pressing i (suc h) ∷ []
      → suc h < max_one t.hold_frames
      → Frame
          (update_active_action true s)
          (if h == 0 then [] else pressing i h ∷ [])
          t.button_mask
          0
  unfolding pressed
  frame-pressing h s g a small =
      let f =
        update-one s (pressing i (suc h)) (pressing i h) (pressed (suc h)) t a g
          (round-presses _ h s.targets s.input g) in
      let later : (suc h == max_one t.hold_frames) ≡ false = ground arith in
      record {
        running = f.running;
        held_is = f.held_is;
        down_is =
            f.down_is
            ∙ ap (λ b. bit_and (if b then t.button_mask else 0) t.button_mask) later
            ∙ zero-bit_and t.button_mask;
      }

  pub frame-starts :
      (h : ℕ) (s : RouteState)
      → get_elem? s.targets i ≡ some t
      → s.active_actions ≡ waiting i 0 (suc h) ∷ []
      → suc h ≡ max_one t.hold_frames
      → Frame
          (update_active_action true s)
          (if h == 0 then [] else pressing i h ∷ [])
          t.button_mask
          t.button_mask
  unfolding pressed
  frame-starts h s g a full =
      let f =
        update-one s (waiting i 0 (suc h)) (pressing i h) (pressed (suc h)) t a g
          (round-starts _ h s.targets s.input g) in
      let first : (suc h == max_one t.hold_frames) ≡ true = ground arith in
      record {
        running = f.running;
        held_is = f.held_is;
        down_is =
            f.down_is
            ∙ ap (λ b. bit_and (if b then t.button_mask else 0) t.button_mask) first
            ∙ bit_and_same t.button_mask;
      }
