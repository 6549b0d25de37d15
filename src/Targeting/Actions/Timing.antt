-- ===== src/Targeting/Actions/Timing.antt =====
-- In which frames an action of a route presses its buttons.
use mathlib.Core.Path.{subst}
use xenomods.Base.{
  ℕ, zero, suc, ◌+◌, true, false, ◌==◌, List, [], ◌∷◌, ◌++◌, if◌then◌else◌, some, get_elem?, ◌≡◌,
  refl, arith, replicate, sym, ap, ◌∙◌, if_false, ◌<◌,
}
use xenomods.Targeting.{TargetData, buttons, max_zero, max_one}
use xenomods.Targeting.Route.{RouteState, ActiveAction}
use xenomods.Targeting.Actions.{queue_action, no_presses, update_active_action}
use xenomods.Targeting.Actions.Frames.{
  waiting, pressing, Frame, update-one, round-waits, frame-pressing, frame-starts,
}

-- The raw buttons that the game is given in each of some frames of free control, and the state
-- after them.
unfoldable pub frames : ℕ → RouteState → List (ℕ × ℕ) × RouteState
frames zero s = ([], s)
frames (suc n) s =
    let s' = update_active_action true s in
    let rest = frames n s' in
    ((s'.input.raw_button_held, s'.input.raw_button_down) ∷ rest.0, rest.1)

-- Those frames give these buttons, and no action runs after them.
pub record Runs (n : ℕ) (s : RouteState) (reads : List (ℕ × ℕ)) : Type 0 where
  pub reads_are : (frames n s).0 ≡ reads
  pub finished : (frames n s).1.active_actions ≡ []

suc_not_zero : (n : ℕ) → (suc n == 0) ≡ false
suc_not_zero n = ground arith

update-targets : (s : RouteState) → (update_active_action true s).targets ≡ s.targets
unfolding update_active_action
update-targets s = refl

module _ (i : ℕ) (t : TargetData) (kind : t.action_input_type ≡ buttons)
    (unbuffered : t.buffered ≡ false) where
  next-frame :
      (n : ℕ) (s : RouteState) {actions : List ActiveAction} {held down : ℕ} (reads : List (ℕ × ℕ))
      → Frame (update_active_action true s) actions held down
      → Runs n (update_active_action true s) reads
      → Runs (suc n) s ((held, down) ∷ reads)
  unfolding frames
  next-frame n s {held = held} {down = down} reads f r = record {
    reads_are =
        ap
          (λ (x : ℕ).
            (x, (update_active_action true s).input.raw_button_down)
            ∷ (frames n (update_active_action true s)).0)
          f.held_is
        ∙ ap (λ (x : ℕ). (held, x) ∷ (frames n (update_active_action true s)).0) f.down_is
        ∙ ap (λ (rs : List (ℕ × ℕ)). (held, down) ∷ rs) r.reads_are;
    finished = r.finished;
  }

  -- No frame is left after the last one.
  run-done : (s : RouteState) → s.active_actions ≡ [] → Runs 0 s []
  unfolding frames
  run-done s a = record { reads_are = refl; finished = a }

  still-running :
      (h : ℕ) → (if suc h == 0 then [] else pressing i (suc h) ∷ []) ≡ pressing i (suc h) ∷ []
  still-running h = if_false {b = suc h == 0} [] (suc_not_zero h)

  -- The frames in which the button stays held.
  run-pressing :
      (h : ℕ) (s : RouteState)
      → get_elem? s.targets i ≡ some t
      → s.active_actions ≡ (if h == 0 then [] else pressing i h ∷ [])
      → h < max_one t.hold_frames
      → Runs h s (replicate h (t.button_mask, 0))
  run-pressing zero s g a small = run-done s a
  run-pressing (suc h) s g a small =
      let f = frame-pressing i t kind unbuffered h s g (a ∙ still-running h) small in
      next-frame h s _ f (
        run-pressing h _ (ap (λ ts. get_elem? ts i) (update-targets s) ∙ g) f.running (omega arith))

  run-waits :
      (d h : ℕ) (s : RouteState)
      → get_elem? s.targets i ≡ some t
      → s.active_actions ≡ waiting i d (suc h) ∷ []
      → suc h ≡ max_one t.hold_frames
      → Runs
          (d + suc h)
          s
          (replicate d (0, 0) ++ (t.button_mask, t.button_mask) ∷ replicate h (t.button_mask, 0))
  run-waits zero h s g a full =
      let f = frame-starts i t kind unbuffered h s g a full in
      let rest =
        run-pressing h _ (ap (λ ts. get_elem? ts i) (update-targets s) ∙ g) f.running
          (omega arith) in
      subst (λ n. Runs n s ((t.button_mask, t.button_mask) ∷ replicate h (t.button_mask, 0)))
        (omega arith) (next-frame h s _ f rest)
  run-waits (suc d) h s g a full =
      let f =
        update-one s (waiting i (suc d) (suc h)) (waiting i d (suc h)) no_presses t a g
          (round-waits i t kind unbuffered _ d (suc h) s.targets s.input g) in
      let rest =
        run-waits d h _ (ap (λ ts. get_elem? ts i) (update-targets s) ∙ g)
          (f.running ∙ if_false {b = suc h == 0} [] (suc_not_zero h)) full in
      subst
        (λ n. Runs n s (
          (0, 0)
          ∷ (replicate d (0, 0)
              ++ (t.button_mask, t.button_mask) ∷ replicate h (t.button_mask, 0))))
        (omega arith) (next-frame (d + suc h) s _ f rest)

  queue_action-targets :
      (s : RouteState) → get_elem? s.targets i ≡ some t → (queue_action i s).targets ≡ s.targets
  unfolding queue_action
  queue_action-targets s g = rw (g, queue_action) refl

  queue_action-actions :
      (s : RouteState) (d h : ℕ)
      → get_elem? s.targets i ≡ some t
      → s.active_actions ≡ []
      → max_zero t.delay_frames ≡ d
      → max_one t.hold_frames ≡ suc h
      → (queue_action i s).active_actions ≡ waiting i d (suc h) ∷ []
  unfolding queue_action
  queue_action-actions s d h g a delay hold = rw (g, queue_action, a, delay, hold) refl

  -- An unbuffered button action of the route, queued while no other runs, presses its mask in
  -- frames of free control exactly so: nothing for its delay, then for its hold frames the buttons
  -- are held, and down in the first of them alone. After that no action runs. A negative delay
  -- counts as 0 and a hold below 1 as 1.
  pub frames-queue_action :
      (s : RouteState) (d h : ℕ)
      → get_elem? s.targets i ≡ some t
      → s.active_actions ≡ []
      → max_zero t.delay_frames ≡ d
      → max_one t.hold_frames ≡ suc h
      → Runs
          (d + suc h)
          (queue_action i s)
          (replicate d (0, 0) ++ (t.button_mask, t.button_mask) ∷ replicate h (t.button_mask, 0))
  frames-queue_action s d h g a delay hold =
      run-waits d h (queue_action i s) (ap (λ ts. get_elem? ts i) (queue_action-targets s g) ∙ g)
        (queue_action-actions s d h g a delay hold) (sym hold)
