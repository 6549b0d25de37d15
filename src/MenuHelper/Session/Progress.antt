-- ===== src/MenuHelper/Session/Progress.antt =====
-- A playback that the game keeps accepting comes to its end.
use mathlib.Core.Option.{none-ne-some}
use mathlib.Core.List.{append-nil}
use xenomods.Base.{
  ℕ, zero, suc, ◌<◌, List, [], ◌∷◌, ◌++◌, ◌≡◌, refl, arith, ◌∙◌, sym, ap, inl, inr, none, get_elem?,
  drop,
}
use xenomods.MenuHelper.{waiting_for_shop_close, HelperData}
use xenomods.MenuHelper.Control.{helper_update}
use xenomods.MenuHelper.Session.{complete_action}
use xenomods.MenuHelper.Session.Frames.{InPlay, update-Sends}
use xenomods.MenuHelper.Session.Order.{
  complete-Sends, PlayEvent, play_frame, action_done, play, play-Sends,
}
use xenomods.MenuHelper.Session.Rounds.{
  frames_left, Going, states_differ, over, on_the_way, over-accepts, over-frame, round-AfterRound,
}

-- Frames in each of which the game accepts what it is offered.
unfoldable pub accepting : ℕ → List PlayEvent
accepting zero = []
accepting (suc n) = play_frame 0 refl ∷ action_done ∷ accepting n

round-InPlay : (h : HelperData) → InPlay h → InPlay (complete_action (helper_update 0 h))
round-InPlay h p = (complete-Sends (helper_update 0 h) (update-Sends 0 h refl p).still).still

over-play :
    (n : ℕ) (h : HelperData)
    → InPlay h
    → h.state ≡ waiting_for_shop_close
    → (play (accepting n) h).0.state ≡ waiting_for_shop_close
unfolding play accepting
over-play zero h p e = e
over-play (suc n) h p e =
    over-play n (complete_action (helper_update 0 h)) (round-InPlay h p)
      (over-accepts (helper_update 0 h) (update-Sends 0 h refl p).still (over-frame h e))

play-Over :
    (n : ℕ) (h : HelperData)
    → InPlay h
    → Going h
    → frames_left h < n
    → (play (accepting n) h).0.state ≡ waiting_for_shop_close
unfolding play accepting
play-Over zero h p g b = absurd (ground (arith, b))
play-Over (suc n) h p g b = elim (round-AfterRound h g p) [
  | over e ↦ over-play n (complete_action (helper_update 0 h)) (round-InPlay h p) e
  | on_the_way g2 fewer ↦
      play-Over n (complete_action (helper_update 0 h)) (round-InPlay h p) g2
        (ground (arith, b, fewer))
]

drop-none {ℓ} : {A : Type ℓ} (n : ℕ) (xs : List A) → get_elem? xs n ≡ none → drop n xs ≡ []
drop-none zero [] e = refl
drop-none (suc n) [] e = refl
drop-none zero (x ∷ xs) e = absurd (none-ne-some x (sym e))
drop-none (suc n) (x ∷ xs) e = drop-none n xs e

-- A playback whose recorded actions all have an input, and that no shop transition blocks, comes to
-- its end when the game accepts in every frame what it is offered and the abort buttons are not
-- held: after more than three frames for each action that is left, plus the neutral frames that
-- are due, the helper waits for the menu to close, and the game has been given every recorded
-- action that was left, in order.
pub play-accepting :
    (n : ℕ) (h : HelperData)
    → InPlay h
    → Going h
    → frames_left h < n
    → ((play (accepting n) h).0.state ≡ waiting_for_shop_close)
      × ((play (accepting n) h).1 ≡ drop h.playback_index h.playback_actions)
play-accepting n h p g b =
    let s = play-Sends (accepting n) h p in
    let e = play-Over n h p g b in
    elim s.still.phase [
      | inl is_playing ↦ absurd (states_differ is_playing e)
      | inr finished ↦
          let nothing_left : drop (play (accepting n) h).0.playback_index h.playback_actions ≡ [] =
            drop-none (play (accepting n) h).0.playback_index h.playback_actions (
              ap (λ acts. get_elem? acts (play (accepting n) h).0.playback_index)
                (sym s.same_actions)
              ∙ finished.1) in
          (
            e,
            sym (append-nil (play (accepting n) h).1)
                ∙ ap (λ rest. (play (accepting n) h).1 ++ rest) (sym nothing_left)
                ∙ s.in_order,
          )
    ]
