-- ===== src/Targeting/Actions/Requests.antt =====
-- The raw buttons that UpdateActiveAction requests from the input buffer.
use xenomods.Base.{
  ℕ, Bool, true, false, ◌!=◌, if◌then◌else◌, bit_and, ◌≡◌, refl, arith, sym, if-elim, Bool-cases,
  inl, inr,
}
use xenomods.Word.Laws.{bit_and-zero}
use xenomods.InputBuffer.State.{InputState}
use xenomods.InputBuffer.Api.{set_raw_button_override, cancel_buffered_button_action}
use xenomods.InputBuffer.Sticks.{set_action_stick_override}
use xenomods.Targeting.Actions.{Presses, apply_presses}

-- The raw buttons of the input are these.
pub record Raw (held down : ℕ) (i : InputState) : Type 0 where
  pub held_raw : i.raw_button_held ≡ held
  pub down_raw : i.raw_button_down ≡ down

set_raw_button_override-Raw :
    (held down : ℕ) (i : InputState)
    → Raw held (bit_and down held) (set_raw_button_override (held != 0) held down i)
unfolding set_raw_button_override
set_raw_button_override-Raw held down i = elim (Bool-cases (held != 0)) [
  | inl on ↦ record { held_raw = rw on refl; down_raw = rw on refl }
  | inr off ↦
      let none_held : held ≡ 0 = ground (arith, off) in
      record {
        held_raw = rw (off, none_held) refl;
        down_raw = rw (off, none_held) (sym (bit_and-zero down));
      }
]

stick-Raw :
    (active right : Bool) (x y : ℕ) {held down : ℕ} (i : InputState)
    → Raw held down i
    → Raw held down (set_action_stick_override active right x y i)
unfolding set_action_stick_override
stick-Raw false right x y i h = record { held_raw = h.held_raw; down_raw = h.down_raw }
stick-Raw true true x y i h = record { held_raw = h.held_raw; down_raw = h.down_raw }
stick-Raw true false x y i h = record { held_raw = h.held_raw; down_raw = h.down_raw }

cancel-Raw :
    {held down : ℕ} (i : InputState)
    → Raw held down i
    → Raw held down (cancel_buffered_button_action i)
unfolding cancel_buffered_button_action
cancel-Raw i h = record { held_raw = h.held_raw; down_raw = h.down_raw }

-- The raw buttons after the requests are what the actions asked for.
pub apply_presses-Raw :
    (p : Presses) (empty : Bool) (i : InputState)
    → Raw p.held_buttons (bit_and p.down_buttons p.held_buttons) (apply_presses p empty i)
unfolding apply_presses
apply_presses-Raw p empty i =
    let IsAsked = Raw p.held_buttons (bit_and p.down_buttons p.held_buttons) in
    let i2 =
      set_action_stick_override false false 0 0
        (set_raw_button_override (p.held_buttons != 0) p.held_buttons p.down_buttons i) in
    let h2 : IsAsked i2 =
      stick-Raw false false 0 0 _ (set_raw_button_override-Raw p.held_buttons p.down_buttons i) in
    let i3 =
      if p.left_stick_active
      then set_action_stick_override true false p.left_x p.left_y i2
      else i2 in
    let h3 : IsAsked i3 =
      if-elim IsAsked p.left_stick_active (stick-Raw true false p.left_x p.left_y i2 h2) h2 in
    let i4 =
      if p.right_stick_active
      then set_action_stick_override true true p.right_x p.right_y i3
      else i3 in
    let h4 : IsAsked i4 =
      if-elim IsAsked p.right_stick_active (stick-Raw true true p.right_x p.right_y i3 h3) h3 in
    if-elim IsAsked empty (cancel-Raw i4 h4) h4
