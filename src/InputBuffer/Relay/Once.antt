-- ===== src/InputBuffer/Relay/Once.antt =====
-- A relay check reports at most one playback action, the pending one.
use xenomods.Base.{bit_or, ℕ, Bool, true, ◌&&◌, ◌≡◌, ◌≢◌, ◌⊎◌, arith, ◌∙◌}
use xenomods.Word.Laws.{zero-bit_and}
use xenomods.InputBuffer.State.{InputState}
use xenomods.InputBuffer.Action.{is_encoded_action}
use xenomods.InputBuffer.Api.{Client, finish_playback_action}
use xenomods.InputBuffer.Api.Completion.{
  IsQuiet, NoCall, Completes, finish_playback_action-Completes,
}
use xenomods.InputBuffer.Relay.{
  bit, ResAction, CheckAction, check_action_hook, relay_scripted, relay_playback, relay_orig,
  after_accept, completes_ui_pad, completes_button, consume_pending,
}

-- The game's check reads the pad through the button hooks, which report nothing and leave the
-- playback state alone.
pub record IsNative (check : CheckAction) : Type 0 where
  pub same_calls : (s : InputState) → (check s).0.calls ≡ s.calls
  pub same_action : (s : InputState) → (check s).0.playback_action ≡ s.playback_action
  pub same_callback :
      (s : InputState) → (check s).0.accepted_action_callback ≡ s.accepted_action_callback
  pub same_override :
      (s : InputState) → (check s).0.playback_override_active ≡ s.playback_override_active

-- The pending action is a real one.
abbrev pub IsPlaying : InputState → Type 0
IsPlaying s = (s.playback_override_active ≡ true) × (s.playback_action.input ≢ 0)

-- Either no call was made, or the pending action of an active playback was reported and the
-- relay check succeeded.
abbrev pub AtMostOnce : InputState → InputState × Bool → Type 0
AtMostOnce s r = NoCall s r.0 ⊎ (Completes s r.0 × (r.1 ≡ true) × IsPlaying s)

consume_pending-calls : (mask : ℕ) (s : InputState) → (consume_pending mask s).calls ≡ s.calls
unfolding consume_pending
consume_pending-calls mask s = ground arith

completes_button-IsPlaying :
    (a : ResAction) (s : InputState) → completes_button a s ≡ true → IsPlaying s
unfolding completes_button
completes_button-IsPlaying a s h = ground (arith, zero-bit_and (bit a.button_index))

completes_ui_pad-IsPlaying :
    (a : ResAction) (s : InputState) → completes_ui_pad a s ≡ true → IsPlaying s
unfolding completes_ui_pad
completes_ui_pad-IsPlaying a s h = ground (arith, zero-bit_and 0xc0000000)

encoded-IsPlaying :
    (s : InputState)
    → (s.playback_override_active && is_encoded_action s.playback_action.input) ≡ true
    → IsPlaying s
encoded-IsPlaying s h = ground (arith, zero-bit_and 0x80000000)

module _ (client : Client) (quiet : IsQuiet client) where
  after_accept-once :
      (a : ResAction) (s : InputState)
      → s.accepted_action_callback ≡ true
      → NoCall s (after_accept client a s) ⊎ (Completes s (after_accept client a s) × IsPlaying s)
  unfolding after_accept
  after_accept-once a s c = ground (
    arith,
    consume_pending-calls (bit a.button_index) s,
    consume_pending-calls (bit a.button_index) (finish_playback_action client s),
    finish_playback_action-Completes client s quiet c,
    completes_button-IsPlaying a s,
  )

  module _ (check : CheckAction) (native : IsNative check) (a : ResAction) where
    relay_orig-once :
        (s : InputState)
        → s.accepted_action_callback ≡ true
        → AtMostOnce s (relay_orig client check a s)
    unfolding relay_orig
    relay_orig-once s c = ground (
      arith,
      after_accept-once a (check s).0 (native.same_callback s ∙ c),
      native.same_calls s,
      native.same_action s,
      native.same_override s,
    )

    relay_scripted-once : (s : InputState) → NoCall s (relay_scripted check a s).0
    unfolding relay_scripted
    relay_scripted-once s = ground (
      arith,
      native.same_calls
          (record s { strict_relay_mask = bit_or s.strict_relay_mask (bit a.button_index) }),
    )

    relay_playback-once :
        (s : InputState)
        → s.accepted_action_callback ≡ true
        → AtMostOnce s (relay_playback client check a s)
    unfolding relay_playback
    relay_playback-once s c = ground (
      arith,
      relay_orig-once s c,
      finish_playback_action-Completes client s quiet c,
      completes_ui_pad-IsPlaying a s,
      encoded-IsPlaying s,
    )

    -- One relay check of the game makes no report, or exactly one: that the action pending in the
    -- active playback, and no other, was played back. It then tells the game that the action fired.
    pub check_action_hook-once :
        (s : InputState)
        → s.accepted_action_callback ≡ true
        → AtMostOnce s (check_action_hook client check a s)
    unfolding check_action_hook
    check_action_hook-once s c = ground (arith, relay_scripted-once s, relay_playback-once s c)
