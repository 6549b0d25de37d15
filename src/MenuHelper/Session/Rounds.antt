-- ===== src/MenuHelper/Session/Rounds.antt =====
-- What a frame in which the game accepts does to a playback.
use mathlib.Core.Path.{subst}
use xenomods.Base.{
  ℕ, suc, ◌-◌, ◌+◌, ◌*◌, ◌^◌, bit_and, bit_or, ◌<◌, ◌≤◌, Bool, true, false, not, ◌&&◌, ◌||◌, ◌!=◌,
  List, ◌∷◌, ◌≡◌, ◌≢◌, refl, arith, ◌∙◌, sym, ap, if-elim, if-cases, option-cases, inl, inr, some,
  get_elem?, drop, length, Bool-cases, if_false,
}
use xenomods.InputBuffer.State.{AcceptedAction, InputState}
use xenomods.InputBuffer.Api.{playback_action_pending, set_playback_action, set_frame_index}
use xenomods.MenuHelper.{
  HelperState, playing, waiting_for_shop_close, state_value, same_state, is_playback_active,
  HelperData, same_kind, shop, travel,
}
use xenomods.MenuHelper.Playback.{
  cannot_queue, queue_next_playback_action, advance_playback, neutral_after, has_input,
}
use xenomods.MenuHelper.Control.{begin_frame, count_playback_frame, helper_update}
use xenomods.MenuHelper.Session.{complete_action}
use xenomods.MenuHelper.Session.Frames.{InPlay, update-Sends, active}
use xenomods.MenuHelper.Session.Order.{complete-pending, emptied, drop-get, pending-next}

-- The shop's own transition holds the playback back.
abbrev pub is_blocked : HelperData → Bool
is_blocked h =
    same_kind h.active_kind shop && not h.aux_core_shop_session && h.shop_transition_blocked

-- The frames that are enough for the rest of a playback.
abbrev pub frames_left : HelperData → ℕ
frames_left h = 3 * length (drop h.playback_index h.playback_actions) + h.playback_neutral_frames

-- A playback that can go on: every recorded action has an input, and no shop transition blocks it.
pub record Going (h : HelperData) : Type 0 where
  pub is_playing : h.state ≡ playing
  pub unblocked : is_blocked h ≡ false
  pub has_inputs :
      (j : ℕ) (a : AcceptedAction) → get_elem? h.playback_actions j ≡ some a → a.input ≢ 0

-- What a frame does: it ends the playback, uses up a neutral frame, or leaves an action pending.
data AfterFrame (left : ℕ) (h : HelperData) : Type 0 where
  ended : h.state ≡ waiting_for_shop_close → AfterFrame left h
  counted : Going h → frames_left h < left → AfterFrame left h
  offered :
      Going h → frames_left h ≡ left → playback_action_pending h.input ≡ true → AfterFrame left h

true-false : {b : Bool} → b ≡ true → b ≡ false → ⊥
true-false x y = ground (arith, x, y)

third_decides : (a b c d : Bool) → a ≡ false → b ≡ false → d ≡ false → (a || b || c || d) ≡ c
third_decides a b c d x y z = ground (arith, x, y, z)

cannot_queue-pending :
    (h : HelperData)
    → Going h
    → h.playback_neutral_frames ≡ 0
    → cannot_queue h ≡ playback_action_pending h.input
unfolding cannot_queue
cannot_queue-pending h g n =
    third_decides (not (same_state h.state playing)) (h.playback_neutral_frames != 0)
      (playback_action_pending h.input) (is_blocked h)
      (ap (λ (s : HelperState). not (same_state s playing)) g.is_playing) (ap (λ k. k != 0) n)
      g.unblocked

queue-AfterFrame :
    (h : HelperData)
    → Going h
    → h.playback_neutral_frames ≡ 0
    → h.input.playback_override_active ≡ true
    → AfterFrame (frames_left h) (queue_next_playback_action h)
unfolding queue_next_playback_action set_playback_action playback_action_pending
queue-AfterFrame h g n on =
    if-cases (AfterFrame (frames_left h)) (cannot_queue h)
      (λ e. offered g refl (sym (cannot_queue-pending h g n) ∙ e))
      (λ _.
        option-cases (AfterFrame (frames_left h)) (get_elem? h.playback_actions h.playback_index)
          (λ _. ended refl)
          (λ a e.
            if-cases (λ (i : InputState). AfterFrame (frames_left h) (record h { input = i }))
              h.input.playback_override_active
              (λ _.
                offered
                  (record {
                    is_playing = g.is_playing;
                    unblocked = g.unblocked;
                    has_inputs = g.has_inputs;
                  })
                  refl (pending a (g.has_inputs h.playback_index a e)))
              (λ off. absurd (true-false on off))))
  where
    pending :
        (a : AcceptedAction)
        → a.input ≢ 0
        → (h.input.playback_override_active && a.input != 0) ≡ true
    pending a z = ground (arith, on, z)

frame-AfterFrame :
    (h : HelperData) → Going h → InPlay h → AfterFrame (frames_left h) (helper_update 0 h)
unfolding helper_update begin_frame count_playback_frame set_frame_index
frame-AfterFrame h g p =
    let h2 = count_playback_frame (begin_frame h) in
    let g2 : Going h2 = record {
      is_playing = g.is_playing;
      unblocked = g.unblocked;
      has_inputs = g.has_inputs;
    } in
    let running : not (is_playback_active h.state) ≡ false = ap not (active h p.phase) in
    if-cases (AfterFrame (frames_left h)) (not (is_playback_active h.state))
      (λ e. absurd (true-false e running))
      (λ _.
        if-cases (AfterFrame (frames_left h)) (h.playback_neutral_frames != 0)
          (λ e.
            counted
              (record {
                is_playing = g.is_playing;
                unblocked = g.unblocked;
                has_inputs = g.has_inputs;
              })
              (fewer (3 * length (drop h.playback_index h.playback_actions))
                h.playback_neutral_frames e))
          (λ e.
            queue-AfterFrame h2 g2 (none_left h.playback_neutral_frames e)
              (p.agrees.override ∙ active h p.phase)))
  where
    fewer : (m n : ℕ) → (n != 0) ≡ true → m + (n - 1) < m + n
    fewer m n e = ground (arith, e)

    none_left : (n : ℕ) → (n != 0) ≡ false → n ≡ 0
    none_left n e = ground (arith, e)

-- The game accepts: nothing was pending, or the playback goes on with fewer frames left.
data AfterAccept (left : ℕ) (pending : Bool) (h : HelperData) : Type 0 where
  stays : pending ≡ false → Going h → frames_left h ≡ left → AfterAccept left pending h
  advances : Going h → frames_left h < left → AfterAccept left pending h

neutral_after-bound :
    (input i : ℕ) (h : HelperData) → neutral_after input i h ≤ 2 + h.playback_neutral_frames
unfolding neutral_after
neutral_after-bound input i h =
    if-elim (λ n. n ≤ 2 + h.playback_neutral_frames)
      (same_kind h.active_kind travel || has_input h.playback_actions i input)
      (if-elim (λ n. n ≤ 2 + h.playback_neutral_frames)
        (h.accepting_aux_core_amount_playback
          && same_kind h.active_kind shop
          && bit_and (bit_and input 0x3fff_ffff) (bit_or (2 ^ 4) (2 ^ 5)) != 0)
        (omega arith) (omega arith))
      (omega arith)

complete-AfterAccept :
    (h : HelperData)
    → Going h
    → InPlay h
    → AfterAccept (frames_left h) (playback_action_pending h.input) (complete_action h)
unfolding complete_action advance_playback
complete-AfterAccept h g p = elim (Bool-cases (playback_action_pending h.input)) [
  | inr none_pending ↦
      let same : complete_action h ≡ h = if_false _ none_pending in
      rw (same) (stays none_pending g refl)
  | inl is_pending ↦
      subst (AfterAccept (frames_left h) (playback_action_pending h.input))
        (sym (complete-pending h p is_pending))
        (advances
          (record { is_playing = g.is_playing; unblocked = g.unblocked; has_inputs = g.has_inputs })
          (fewer (drop h.playback_index h.playback_actions)
            (drop (suc h.playback_index) h.playback_actions) h.input.playback_action
            (drop-get h.playback_index h.playback_actions h.input.playback_action
              (pending-next h p is_pending).1)
            h.playback_neutral_frames
            (neutral_after h.input.playback_action.input (suc h.playback_index) (emptied h))
            (neutral_after-bound h.input.playback_action.input (suc h.playback_index) (emptied h))))
]
  where
    fewer :
        (xs ys : List AcceptedAction) (a : AcceptedAction)
        → a ∷ ys ≡ xs
        → (n k : ℕ) → k ≤ 2 + n
        → 3 * length ys + k < 3 * length xs + n
    fewer xs ys a e n k b =
        let l : suc (length ys) ≡ length xs = ap length e in ground (arith, l, b)

pub states_differ : {s : HelperState} → s ≡ playing → s ≡ waiting_for_shop_close → ⊥
states_differ {s} x y =
    let e : state_value playing ≡ state_value waiting_for_shop_close =
      ap (λ (t : HelperState). state_value t) (sym x ∙ y) in
    ground (arith, e)

-- A playback that has sent its last action stays there when the game accepts.
pub over-accepts :
    (h : HelperData)
    → InPlay h
    → h.state ≡ waiting_for_shop_close
    → (complete_action h).state ≡ waiting_for_shop_close
unfolding complete_action
over-accepts h p e = elim (Bool-cases (playback_action_pending h.input)) [
  | inr none_pending ↦
      let same : complete_action h ≡ h = if_false _ none_pending in
      ap (λ (u : HelperData). u.state) same ∙ e
  | inl is_pending ↦ absurd (states_differ (pending-next h p is_pending).0 e)
]

-- And in a frame.
pub over-frame :
    (h : HelperData)
    → h.state ≡ waiting_for_shop_close
    → (helper_update 0 h).state ≡ waiting_for_shop_close
unfolding helper_update begin_frame count_playback_frame queue_next_playback_action cannot_queue
over-frame h e =
    let Over : HelperData → Type 0 = λ u. u.state ≡ waiting_for_shop_close in
    if-elim Over (not (is_playback_active h.state)) e (
      if-elim Over (h.playback_neutral_frames != 0) e (
        if-elim Over (cannot_queue (count_playback_frame (begin_frame h))) e (
          option-cases Over (get_elem? h.playback_actions h.playback_index) (λ _. refl)
            (λ _ _. e))))

-- A round is a frame in which the game accepts: it ends the playback or leaves fewer frames.
pub data AfterRound (left : ℕ) (h : HelperData) : Type 0 where
  over : h.state ≡ waiting_for_shop_close → AfterRound left h
  on_the_way : Going h → frames_left h < left → AfterRound left h

pub round-AfterRound :
    (h : HelperData)
    → Going h
    → InPlay h
    → AfterRound (frames_left h) (complete_action (helper_update 0 h))
round-AfterRound h g p =
    let u = helper_update 0 h in
    let p1 : InPlay u = (update-Sends 0 h refl p).still in
    elim (frame-AfterFrame h g p) [
      | ended e ↦ over (over-accepts u p1 e)
      | counted g1 fewer ↦ elim (complete-AfterAccept u g1 p1) [
        | stays none_pending g2 same ↦ on_the_way g2 (ground (arith, fewer, same))
        | advances g2 still_fewer ↦ on_the_way g2 (ground (arith, fewer, still_fewer))
      ]
      | offered g1 same is_pending ↦ elim (complete-AfterAccept u g1 p1) [
        | stays none_pending g2 _ ↦ absurd (true-false is_pending none_pending)
        | advances g2 fewer ↦ on_the_way g2 (ground (arith, fewer, same))
      ]
    ]
