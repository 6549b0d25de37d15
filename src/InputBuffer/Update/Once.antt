-- ===== src/InputBuffer/Update/Once.antt =====
-- One update of a layer plays back at most one action.
use xenomods.Base.{
  Option, ℕ, Bool, true, false, ◌≡◌, refl, List, [], ◌∷◌, ◌∙◌, ap, arith, if-elim, if-cases,
}
use xenomods.InputBuffer.State.{
  PadData, LayerUpdate, InputState, InputLayer, AcceptedAction, Call, accepted_action, layer_update,
  auto_ui_accepted, physical, playback, no_action, neutral,
}
use xenomods.InputBuffer.Action.{is_ui_pad_action}
use xenomods.InputBuffer.Api.{Client, invoke, finish_playback_action}
use xenomods.InputBuffer.Api.Completion.{IsQuiet}
use xenomods.InputBuffer.Pad.{get_pad_data_hook}
use xenomods.InputBuffer.Pad.Offers.{get_pad_data_hook-calls}
use xenomods.InputBuffer.Update.{
  Update, update_hook, notify_before, begin_update, finish_update, notify_after, settle_auto,
  accept_auto, accept_scripted, record_physical, accept_playback,
}

-- The playback actions reported, newest first.
pub completions : List Call → List AcceptedAction
completions [] = []
completions (accepted_action a playback ∷ cs) = a ∷ completions cs
completions (accepted_action a physical ∷ cs) = completions cs
completions (layer_update u ∷ cs) = completions cs
completions (auto_ui_accepted object handle ∷ cs) = completions cs

-- From one state to the next nothing was played back.
pub record Keeps (s t : InputState) : Type 0 where
  pub same : completions t.calls ≡ completions s.calls

Keeps-refl : (s : InputState) → Keeps s s
Keeps-refl s = record { same = refl }

Keeps-trans : {s t u : InputState} → Keeps s t → Keeps t u → Keeps s u
Keeps-trans k l = record { same = l.same ∙ k.same }

-- Nothing was played back, or one action of a UI pad was, in an accepting update.
pub data OneMore (accepted : Bool) (s t : InputState) : Type 0 where
  none_more : Keeps s t → OneMore accepted s t
  one_more :
      (a : AcceptedAction)
      → completions t.calls ≡ a ∷ completions s.calls
      → is_ui_pad_action a.input ≡ true
      → accepted ≡ true
      → OneMore accepted s t

-- One more call of a callback that is no report of a playback.
data IsSilent : Call → Type 0 where
  update_silent : (u : LayerUpdate) → IsSilent (layer_update u)
  auto_silent : (object handle : ℕ) → IsSilent (auto_ui_accepted object handle)
  physical_silent : (a : AcceptedAction) → IsSilent (accepted_action a physical)

completions-IsSilent :
    (call : Call) (cs : List Call) → IsSilent call → completions (call ∷ cs) ≡ completions cs
unfolding completions
completions-IsSilent call cs (update_silent u) = refl
completions-IsSilent call cs (auto_silent object handle) = refl
completions-IsSilent call cs (physical_silent a) = refl

module _ (client : Client) (quiet : IsQuiet client) where
  invoke-Keeps : (call : Call) (s : InputState) → IsSilent call → Keeps s (invoke client call s)
  unfolding invoke
  invoke-Keeps call s h = record {
    same = ap completions (quiet call _) ∙ completions-IsSilent call s.calls h;
  }

  notify_before-Keeps :
      (layer object handle : ℕ) (s : InputState)
      → Keeps s (notify_before client layer object handle s)
  unfolding notify_before
  notify_before-Keeps layer object handle s =
      if-elim (Keeps s) _ (invoke-Keeps _ s (update_silent _)) (Keeps-refl s)

  notify_after-Keeps :
      (layer object handle : ℕ) (accepted : Bool) (view : InputLayer) (s : InputState)
      → Keeps s (notify_after client layer object handle accepted view s)
  unfolding notify_after
  notify_after-Keeps layer object handle accepted view s =
      if-elim (Keeps s) _ (invoke-Keeps _ s (update_silent _)) (Keeps-refl s)

  settle_auto-Keeps : (object : ℕ) (s : InputState) → Keeps s (settle_auto object s)
  unfolding settle_auto
  settle_auto-Keeps object s = ground arith

  accept_auto-Keeps :
      (object handle : ℕ) (accepted : Bool) (view : InputLayer) (s : InputState)
      → Keeps s (accept_auto client object handle accepted view s)
  unfolding accept_auto
  accept_auto-Keeps object handle accepted view s =
      if-elim (Keeps s) _
        (if-elim (Keeps s) _ (Keeps-trans released (invoke-Keeps _ _ (auto_silent object handle)))
          released)
        (Keeps-refl s)
    where
      released : Keeps s (record s { auto_ui_action_phase = neutral })
      released = record { same = refl }

  accept_scripted-Keeps : (accepted : Bool) (s : InputState) → Keeps s (accept_scripted accepted s)
  unfolding accept_scripted
  accept_scripted-Keeps accepted s = ground arith

  record_physical-Keeps :
      (layer : ℕ) (accepted : Bool) (s : InputState)
      → Keeps s (record_physical client layer accepted s)
  unfolding record_physical
  record_physical-Keeps layer accepted s =
      if-elim (Keeps s) _ (invoke-Keeps _ s (physical_silent _)) (Keeps-refl s)

  invoke-reports :
      (a : AcceptedAction) (s : InputState)
      → completions (invoke client (accepted_action a playback) s).calls ≡ a ∷ completions s.calls
  unfolding invoke
  invoke-reports a s =
      ap completions (quiet (accepted_action a playback) _) ∙ (unfold completions in refl)

  -- Finishing a UI pad action reports it, if anybody listens.
  finish_playback_action-OneMore :
      (s : InputState)
      → is_ui_pad_action s.playback_action.input ≡ true
      → OneMore true s (finish_playback_action client s)
  unfolding finish_playback_action
  finish_playback_action-OneMore s u =
      if-elim (OneMore true s) s.accepted_action_callback
        {x = invoke client (accepted_action s.playback_action playback) cleared} {y = cleared}
        (one_more s.playback_action (invoke-reports s.playback_action cleared) u refl)
        (none_more (record { same = refl }))
    where
      cleared : InputState
      cleared = record s { playback_action = no_action }

  accept_playback-OneMore :
      (layer : ℕ) (accepted offered direct : Bool) (event : ℕ) (s : InputState)
      → OneMore accepted s (accept_playback client layer accepted offered direct event s)
  unfolding accept_playback
  accept_playback-OneMore layer false offered direct event s = none_more (Keeps-refl s)
  accept_playback-OneMore layer true offered direct event s =
      if-cases (OneMore true s) _ (λ e. finish_playback_action-OneMore s (ground arith))
        (λ _. none_more (Keeps-refl s))

  after_Keeps :
      {accepted : Bool} {s t u : InputState}
      → Keeps s t
      → OneMore accepted t u
      → OneMore accepted s u
  after_Keeps k (none_more l) = none_more (Keeps-trans k l)
  after_Keeps k (one_more a e u h) = one_more a (e ∙ ap (◌∷◌ a) k.same) u h

  begin_update-Keeps : (layer : ℕ) (s : InputState) → Keeps s (begin_update layer s)
  unfolding begin_update
  begin_update-Keeps layer s = record { same = refl }

  restore-Keeps :
      (previous : ℕ) (s : InputState) → Keeps s (record s { updating_input_layer = previous })
  restore-Keeps previous s = record { same = refl }

  -- One update of a UI input layer plays back at most one action: a UI pad action, and only if the
  -- layer's own update accepted its input. The callbacks run no hook, and the game's update plays
  -- nothing back by itself.
  pub update_hook-OneMore :
      (update : Update) (layer : ℕ) (s : InputState)
      → ((t : InputState) → Keeps t (update t).0)
      → OneMore (update_hook client update layer s).1 s (update_hook client update layer s).0
  unfolding update_hook finish_update
  update_hook-OneMore update layer s native = after_Keeps (notify_before-Keeps layer _ _ s) (
      after_Keeps (begin_update-Keeps layer _) (
        after_Keeps (native _) (
          after_Keeps (notify_after-Keeps layer _ _ _ _ _) (
            after_Keeps (restore-Keeps _ _) (
              after_Keeps (settle_auto-Keeps _ _) (
                after_Keeps (accept_auto-Keeps _ _ _ _ _) (
                  after_Keeps (accept_scripted-Keeps _ _) (
                    after_Keeps (record_physical-Keeps layer _ _)
                      (accept_playback-OneMore layer _ _ _ _ _)))))))))

-- A pad read within an update plays nothing back.
pub get_pad_data_hook-Keeps :
    (original : Option PadData) (s : InputState) → Keeps s (get_pad_data_hook original s).0
get_pad_data_hook-Keeps original s = record {
  same = ap completions (get_pad_data_hook-calls original s);
}
