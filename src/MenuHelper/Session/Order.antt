-- ===== src/MenuHelper/Session/Order.antt =====
-- A playback gives the game the recorded actions in their order.
use mathlib.Core.Option.{none-ne-some, some_inj}
use mathlib.Core.Path.{subst}
use xenomods.Base.{
  ℕ, zero, suc, Bool, true, false, ◌&&◌, ◌==◌, List, [], ◌∷◌, ◌++◌, if◌then◌else◌, ◌≡◌, refl, arith,
  ◌∙◌, sym, ap, if-elim, inl, inr, some, get_elem?, drop, Bool-cases, if_true, if_false,
}
use xenomods.InputBuffer.State.{AcceptedAction, InputState, playback}
use xenomods.InputBuffer.Api.{
  playback_action_pending, finish_playback_action, complete_playback_action, invoke,
}
use xenomods.MenuHelper.{HelperState, playing, same_state, HelperData, recording}
use xenomods.MenuHelper.Playback.{
  advance_playback, has_input, on_accepted_action, record_action, session_open,
}
use xenomods.MenuHelper.Control.{helper_update}
use xenomods.MenuHelper.Session.{helper_client, complete_action}
use xenomods.MenuHelper.Session.Agreement.{IsConsistent}
use xenomods.MenuHelper.Session.Invariant.{complete-IsConsistent}
use xenomods.MenuHelper.Session.Frames.{InPlay, Sends, join, aborts, update-Sends}

pub drop-get {ℓ} :
    {A : Type ℓ} (n : ℕ) (xs : List A) (a : A)
    → get_elem? xs n ≡ some a
    → a ∷ drop (suc n) xs ≡ drop n xs
drop-get n [] a e = absurd (none-ne-some a e)
drop-get zero (x ∷ xs) a e = ap (λ y. y ∷ xs) (sym (some_inj.0 e))
drop-get (suc n) (x ∷ xs) a e = drop-get n xs a e

-- The actions that the game is given when the input buffer completes its action.
unfoldable pub completed : HelperData → List AcceptedAction
completed h = if playback_action_pending h.input then h.input.playback_action ∷ [] else []

finish-told :
    (i : InputState)
    → i.accepted_action_callback ≡ true
    → (finish_playback_action helper_client i).accepted_action_callback ≡ true
unfolding finish_playback_action complete_playback_action invoke
finish-told i t =
    if-elim (λ (j : InputState). j.accepted_action_callback ≡ true) i.accepted_action_callback t t

-- The state in which the helper hears of a completed action.
abbrev pub emptied : HelperData → HelperData
emptied h = record h { input = finish_playback_action helper_client h.input }

-- An action that the buffer offers in a playback is the next one of the recording.
pub pending-next :
    (h : HelperData)
    → InPlay h
    → playback_action_pending h.input ≡ true
    → (h.state ≡ playing)
      × (get_elem? h.playback_actions h.playback_index ≡ some h.input.playback_action)
unfolding playback_action_pending
pending-next h p e = elim p.agrees.offer [
  | inl zero_input ↦ absurd (silent_input zero_input)
  | inr offered ↦ elim p.phase [
    | inl is_playing ↦ (is_playing, offered)
    | inr over ↦ absurd (none-ne-some h.input.playback_action (sym over.1 ∙ offered))
  ]
]
  where
    silent_input : h.input.playback_action.input ≡ 0 → ⊥
    silent_input z = ground (arith, z, e)

accepted-advances :
    (h : HelperData)
    → h.state ≡ playing
    → get_elem? h.playback_actions h.playback_index ≡ some h.input.playback_action
    → on_accepted_action h.input.playback_action playback (emptied h)
      ≡ advance_playback h.input.playback_action (emptied h)
unfolding on_accepted_action has_input
accepted-advances h is_playing offered =
    if_false {b = same_state h.state recording && session_open (emptied h) && false}
      (record_action h.input.playback_action (emptied h))
      (never (same_state h.state recording) (session_open (emptied h)))
    ∙ if_true (emptied h) (
        ap
          (λ (s : HelperState).
            same_state s playing
            && true
            && has_input h.playback_actions h.playback_index h.input.playback_action.input)
          is_playing
        ∙ rw (has_input, offered) (self h.input.playback_action.input))
  where
    never : (x y : Bool) → (x && y && false) ≡ false
    never x y = ground arith

    self : (n : ℕ) → (n == n) ≡ true
    self n = ground arith

pub complete-pending :
    (h : HelperData)
    → InPlay h
    → playback_action_pending h.input ≡ true
    → complete_action h ≡ advance_playback h.input.playback_action (emptied h)
unfolding complete_action
complete-pending h p e =
    let next = pending-next h p e in
    if_true h e ∙ if_true (emptied h) p.told ∙ accepted-advances h next.0 next.1

advance-Sends :
    (h : HelperData)
    → InPlay h
    → playback_action_pending h.input ≡ true
    → IsConsistent (advance_playback h.input.playback_action (emptied h))
    → Sends h (advance_playback h.input.playback_action (emptied h)) (h.input.playback_action ∷ [])
unfolding advance_playback
advance-Sends h p e c =
    let next = pending-next h p e in
    record {
      same_actions = refl;
      in_order = drop-get h.playback_index h.playback_actions h.input.playback_action next.1;
      still = record { agrees = c; phase = inl next.0; told = finish-told h.input p.told };
    }

-- A completed action is the next one of the recording.
pub complete-Sends : (h : HelperData) → InPlay h → Sends h (complete_action h) (completed h)
unfolding complete_action completed
complete-Sends h p = elim (Bool-cases (playback_action_pending h.input)) [
  | inr none_pending ↦
      let same : complete_action h ≡ h = if_false _ none_pending in
      let nothing : completed h ≡ [] = if_false _ none_pending in
      rw (same, nothing) (record { same_actions = refl; in_order = refl; still = p })
  | inl is_pending ↦
      let next = complete-pending h p is_pending in
      let it : completed h ≡ h.input.playback_action ∷ [] = if_true _ is_pending in
      subst (λ (u : HelperData). Sends h u (completed h)) (sym next)
        (subst (Sends h (advance_playback h.input.playback_action (emptied h))) (sym it) (
          advance-Sends h p is_pending
            (subst IsConsistent next (complete-IsConsistent h p.agrees))))
]

-- What happens in a playback that is not aborted.
pub data PlayEvent : Type 0 where
  play_frame : (pressed : ℕ) → aborts pressed ≡ false → PlayEvent
  action_done : PlayEvent

-- The state after some of it, and the actions that the game was given.
unfoldable pub play : List PlayEvent → HelperData → HelperData × List AcceptedAction
play [] h = (h, [])
play (play_frame pressed calm ∷ es) h = play es (helper_update pressed h)
play (action_done ∷ es) h =
    let rest = play es (complete_action h) in (rest.0, completed h ++ rest.1)

-- While a recording plays without an abort, what the game is given is exactly the recorded actions
-- in their order, from the playback index on and up to the index that is reached: none is left
-- out, repeated or changed, whenever and however often the frames come and the game accepts.
pub play-Sends :
    (es : List PlayEvent) (h : HelperData) → InPlay h → Sends h (play es h).0 (play es h).1
unfolding play
play-Sends [] h p = record { same_actions = refl; in_order = refl; still = p }
play-Sends (play_frame pressed calm ∷ es) h p =
    let u = update-Sends pressed h calm p in
    join u (play-Sends es (helper_update pressed h) u.still)
play-Sends (action_done ∷ es) h p =
    let u = complete-Sends h p in join u (play-Sends es (complete_action h) u.still)
