-- ===== src/InputBuffer/Api/Completion.antt =====
-- What one completion of a playback action does: the pending action is reported and cleared.
use xenomods.Base.{true, ◌≡◌, ◌∷◌}
use xenomods.InputBuffer.State.{InputState, Call, accepted_action, playback}
use xenomods.InputBuffer.Api.{Client, finish_playback_action}

-- The callbacks run no hook of their own, so no call is made inside a call.
abbrev pub IsQuiet : Client → Type 0
IsQuiet client = (call : Call) (s : InputState) → (client call s).calls ≡ s.calls

-- From one state to the next no call was made.
abbrev pub NoCall : InputState → InputState → Type 0
NoCall s t = t.calls ≡ s.calls

-- The one call made is the report that the action pending in the first state was played back.
abbrev pub Completes : InputState → InputState → Type 0
Completes s t = t.calls ≡ accepted_action s.playback_action playback ∷ s.calls

pub finish_playback_action-Completes :
    (client : Client) (s : InputState)
    → IsQuiet client
    → s.accepted_action_callback ≡ true
    → Completes s (finish_playback_action client s)
unfolding finish_playback_action
finish_playback_action-Completes client s q c = rw c (q _ _)
