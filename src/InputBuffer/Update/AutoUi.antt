-- ===== src/InputBuffer/Update/AutoUi.antt =====
-- The automatic UI action keeps its object and mask exactly while it is under way.
use xenomods.Base.{if-elim, if-cases, ℕ, Bool, true, false, ◌&&◌, ◌==◌, ◌≡◌, ◌≢◌, refl, arith}
use xenomods.InputBuffer.State.{InputState, InputLayer, Call, neutral, no_action}
use xenomods.InputBuffer.Api.{
  Client, invoke, is_idle, is_pending, request_auto_ui_action, cancel_auto_ui_action,
  finish_playback_action,
}
use xenomods.InputBuffer.Update.{
  Update, update_hook, ui_secondary_action_event, notify_before, begin_update, finish_update,
  notify_after, settle_auto, accept_auto, accept_scripted, record_physical, accept_playback,
}

-- Idle without an object and a mask, or under way for one object with a mask.
pub record IsConsistent (s : InputState) : Type 0 where
  pub at_rest :
      is_idle s.auto_ui_action_phase ≡ true
      → (s.auto_ui_action_object ≡ 0) × (s.auto_ui_action_mask ≡ 0)
  pub under_way :
      is_idle s.auto_ui_action_phase ≡ false
      → (s.auto_ui_action_object ≢ 0) × (s.auto_ui_action_mask ≢ 0)

-- The two states agree on the automatic UI action.
abbrev pub SameAuto : InputState → InputState → Type 0
SameAuto s t =
    (t.auto_ui_action_phase ≡ s.auto_ui_action_phase)
    × (t.auto_ui_action_object ≡ s.auto_ui_action_object)
    × (t.auto_ui_action_mask ≡ s.auto_ui_action_mask)

SameAuto-IsConsistent : (s t : InputState) → SameAuto s t → IsConsistent s → IsConsistent t
SameAuto-IsConsistent s t (p, o, m) v = record {
  at_rest = rw (p, o, m) v.at_rest;
  under_way = rw (p, o, m) v.under_way;
}

-- A request and a cancellation keep the automatic UI action consistent.
pub request_auto_ui_action-IsConsistent :
    (object mask : ℕ) (s : InputState)
    → IsConsistent s
    → IsConsistent (request_auto_ui_action object mask s)
unfolding request_auto_ui_action
request_auto_ui_action-IsConsistent object mask s v = ground arith

pub cancel_auto_ui_action-IsConsistent :
    (object : ℕ) (s : InputState) → IsConsistent s → IsConsistent (cancel_auto_ui_action object s)
unfolding cancel_auto_ui_action
cancel_auto_ui_action-IsConsistent object s v = ground arith

-- A callback works through the setters, so it keeps the action consistent.
abbrev pub KeepsConsistent : Client → Type 0
KeepsConsistent client =
    (call : Call) (s : InputState) → IsConsistent s → IsConsistent (client call s)

module _ (client : Client) (keeps : KeepsConsistent client) where
  invoke-IsConsistent :
      (call : Call) (s : InputState) → IsConsistent s → IsConsistent (invoke client call s)
  unfolding invoke
  invoke-IsConsistent call s v = keeps call _ (SameAuto-IsConsistent s _ (refl, refl, refl) v)

  notify_before-IsConsistent :
      (layer object handle : ℕ) (s : InputState)
      → IsConsistent s
      → IsConsistent (notify_before client layer object handle s)
  unfolding notify_before
  notify_before-IsConsistent layer object handle s v =
      if-elim IsConsistent _ (invoke-IsConsistent _ s v) v

  notify_after-IsConsistent :
      (layer object handle : ℕ) (accepted : Bool) (view : InputLayer) (s : InputState)
      → IsConsistent s
      → IsConsistent (notify_after client layer object handle accepted view s)
  unfolding notify_after
  notify_after-IsConsistent layer object handle accepted view s v =
      if-elim IsConsistent _ (invoke-IsConsistent _ s v) v

  settle_auto-IsConsistent :
      (object : ℕ) (s : InputState) → IsConsistent s → IsConsistent (settle_auto object s)
  unfolding settle_auto
  settle_auto-IsConsistent object s v = ground arith

  accept_auto-IsConsistent :
      (object handle : ℕ) (accepted : Bool) (view : InputLayer) (s : InputState)
      → IsConsistent s
      → IsConsistent (accept_auto client object handle accepted view s)
  unfolding accept_auto
  accept_auto-IsConsistent object handle accepted view s v =
      if-cases IsConsistent _
        (λ e. if-elim IsConsistent _ (invoke-IsConsistent _ _ (moved e)) (moved e)) (λ _. v)
    where
      moved :
          (is_pending s.auto_ui_action_phase
              && s.auto_ui_action_offered
              && accepted
              && object == s.auto_ui_action_object
              && view.secondary_event == ui_secondary_action_event
              && view.secondary_action == 1)
            ≡ true
          → IsConsistent (record s { auto_ui_action_phase = neutral })
      moved e = ground arith

  accept_scripted-IsConsistent :
      (accepted : Bool) (s : InputState)
      → IsConsistent s
      → IsConsistent (accept_scripted accepted s)
  unfolding accept_scripted
  accept_scripted-IsConsistent accepted s v = ground arith

  finish_playback_action-IsConsistent :
      (s : InputState) → IsConsistent s → IsConsistent (finish_playback_action client s)
  unfolding finish_playback_action
  finish_playback_action-IsConsistent s v =
      if-elim IsConsistent s.accepted_action_callback (invoke-IsConsistent _ _ cleared) cleared
    where
      cleared : IsConsistent (record s { playback_action = no_action })
      cleared = SameAuto-IsConsistent s _ (refl, refl, refl) v

  record_physical-IsConsistent :
      (layer : ℕ) (accepted : Bool) (s : InputState)
      → IsConsistent s
      → IsConsistent (record_physical client layer accepted s)
  unfolding record_physical
  record_physical-IsConsistent layer accepted s v =
      if-elim IsConsistent _ (invoke-IsConsistent _ s v) v

  accept_playback-IsConsistent :
      (layer : ℕ) (accepted offered direct : Bool) (event : ℕ) (s : InputState)
      → IsConsistent s
      → IsConsistent (accept_playback client layer accepted offered direct event s)
  unfolding accept_playback
  accept_playback-IsConsistent layer accepted offered direct event s v =
      if-elim IsConsistent _ (finish_playback_action-IsConsistent s v) v

  -- If the callbacks and the game's own update keep the automatic UI action consistent, then so
  -- does a whole update of a UI input layer: idle exactly without an object and a mask.
  pub update_hook-IsConsistent :
      (update : Update) (layer : ℕ) (s : InputState)
      → ((t : InputState) → IsConsistent t → IsConsistent (update t).0)
      → IsConsistent s
      → IsConsistent (update_hook client update layer s).0
  unfolding update_hook begin_update finish_update
  update_hook-IsConsistent update layer s native v = accept_playback-IsConsistent layer _ _ _ _ _ (
      record_physical-IsConsistent layer _ _ (
        accept_scripted-IsConsistent _ _ (
          accept_auto-IsConsistent _ _ _ _ _ (
            settle_auto-IsConsistent _ _ (
              SameAuto-IsConsistent _ _ (refl, refl, refl)
                (notify_after-IsConsistent layer _ _ _ _ _ (
                  native _ (
                    SameAuto-IsConsistent _ _ (refl, refl, refl)
                      (notify_before-IsConsistent layer _ _ s v)))))))))
