-- ===== src/MenuHelper/Session/Agreement.antt =====
-- The helper and the input buffer agree on what is played back.
use xenomods.Base.{
  Bool, true, false, not, ◌&&◌, ◌||◌, ◌==◌, ◌!=◌, List, ◌≡◌, refl, arith, ◌∙◌, sym, if-elim,
  if-cases, option-cases, or_false_of_three, or_false_of_four, inl, inr, ◌⊎◌, some, get_elem?,
  length,
}
use xenomods.InputBuffer.State.{InputState}
use xenomods.InputBuffer.Api.{
  set_accepted_action_capture, set_playback_override, set_playback_action, playback_action_pending,
}
use xenomods.MenuHelper.{
  RecordingKind, shop, same_kind, HelperState, armed_record, recording, draft_ready, armed_playback,
  playing, complete, same_state, is_playback_active, Recording, HelperData,
}
use xenomods.MenuHelper.Playback.{
  stop_playback, cannot_queue, start_playing, queue_next_playback_action, begin_active_session,
  save_draft, store_draft, note_playback_frames, stop_recording, end_active_session,
}

-- The playback override is on exactly while a playback is active, and the input buffer offers
-- nothing, or the action at the playback index.
pub record IsConsistent (h : HelperData) : Type 0 where
  pub override : h.input.playback_override_active ≡ is_playback_active h.state
  pub offer :
      (h.input.playback_action.input ≡ 0)
      ⊎ (get_elem? h.playback_actions h.playback_index ≡ some h.input.playback_action)

pub stop_playback-IsConsistent :
    (next : HelperState) (h : HelperData)
    → is_playback_active next ≡ false
    → IsConsistent (stop_playback next h)
unfolding stop_playback set_playback_override
stop_playback-IsConsistent next h off = record { override = sym off; offer = inl refl }

playing-active : (s : HelperState) → same_state s playing ≡ true → is_playback_active s ≡ true
playing-active s e = ground arith

cannot_queue-playing : (h : HelperData) → cannot_queue h ≡ false → same_state h.state playing ≡ true
unfolding cannot_queue
cannot_queue-playing h e =
    let p : not (same_state h.state playing) ≡ false =
      or_false_of_four (not (same_state h.state playing)) (h.playback_neutral_frames != 0)
        (playback_action_pending h.input)
        (same_kind h.active_kind shop && not h.aux_core_shop_session && h.shop_transition_blocked)
        e in
    ground (arith, p)

pub queue-IsConsistent :
    (h : HelperData) → IsConsistent h → IsConsistent (queue_next_playback_action h)
unfolding queue_next_playback_action set_playback_action
queue-IsConsistent h c =
    if-cases IsConsistent (cannot_queue h) (λ _. c)
      (λ ready.
        let active : h.input.playback_override_active ≡ true =
          c.override ∙ playing-active h.state (cannot_queue-playing h ready) in
        option-cases IsConsistent (get_elem? h.playback_actions h.playback_index)
          (λ _. record { override = active; offer = c.offer })
          (λ a e.
            if-cases (λ (i : InputState). IsConsistent (record h { input = i }))
              h.input.playback_override_active
              (λ _. record { override = c.override; offer = inr e })
              (λ _. record { override = c.override; offer = c.offer })))

pub armed-inactive :
    (s : HelperState) → same_state s armed_playback ≡ true → is_playback_active s ≡ false
armed-inactive s e = ground arith

pub record-inactive :
    (s : HelperState) → same_state s armed_record ≡ true → is_playback_active s ≡ false
record-inactive s e = ground arith

pub start_playing-IsConsistent : (h : HelperData) → IsConsistent h → IsConsistent (start_playing h)
unfolding start_playing set_playback_override
start_playing-IsConsistent h c = record { override = refl; offer = c.offer }

pub begin-IsConsistent :
    (kind : RecordingKind) (h : HelperData)
    → IsConsistent h
    → IsConsistent (begin_active_session kind h)
unfolding begin_active_session set_accepted_action_capture
begin-IsConsistent kind h c = if-elim IsConsistent (not (same_kind h.active_kind kind)) c (
    if-cases IsConsistent (same_state h.state armed_record)
      (λ armed. record { override = c.override ∙ record-inactive h.state armed; offer = c.offer })
      (λ _.
        if-elim IsConsistent (same_state h.state armed_playback)
          (queue-IsConsistent (start_playing h) (start_playing-IsConsistent h c)) c))

pub recording-inactive :
    (s : HelperState) → same_state s recording ≡ true → is_playback_active s ≡ false
recording-inactive s e = ground arith

module _ (saves : List Recording → Bool) where
  save_draft-IsConsistent : (h : HelperData) → IsConsistent h → IsConsistent (save_draft saves h)
  unfolding save_draft
  save_draft-IsConsistent h c =
      if-cases IsConsistent
        (not (same_state h.state draft_ready)
          || length h.draft_name == 0
          || length h.draft_actions == 0)
        (λ _. c)
        (λ ready.
          if-elim IsConsistent (saves (store_draft h).0)
            (record {
              override =
                  c.override
                  ∙ draft-inactive (
                      or_false_of_three (not (same_state h.state draft_ready))
                        (length h.draft_name == 0) (length h.draft_actions == 0) ready);
              offer = c.offer;
            })
            (record { override = c.override; offer = c.offer }))
    where
      draft-inactive :
          not (same_state h.state draft_ready) ≡ false → is_playback_active h.state ≡ false
      draft-inactive e = ground arith

  stop_recording-IsConsistent :
      (h : HelperData)
      → same_state h.state recording ≡ true
      → IsConsistent h
      → IsConsistent (stop_recording saves h)
  unfolding stop_recording set_accepted_action_capture
  stop_recording-IsConsistent h e c = record {
    override =
        c.override
        ∙ recording-inactive h.state e
        ∙ sym (
            if-elim (λ (s : HelperState). is_playback_active s ≡ false)
              (length h.draft_actions == 0) refl refl);
    offer = c.offer;
  }

  pub end-IsConsistent :
      (kind : RecordingKind) (h : HelperData)
      → IsConsistent h
      → IsConsistent (end_active_session saves kind h)
  unfolding end_active_session
  end-IsConsistent kind h c = if-elim IsConsistent (not (same_kind h.active_kind kind)) c (
      if-cases IsConsistent (same_state h.state recording)
        (λ e. save_draft-IsConsistent (stop_recording saves h) (stop_recording-IsConsistent h e c))
        (λ _.
          if-elim IsConsistent (is_playback_active h.state)
            (stop_playback-IsConsistent complete (note_playback_frames saves h) refl) c))
