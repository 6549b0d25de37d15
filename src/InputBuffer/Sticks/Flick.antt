-- ===== src/InputBuffer/Sticks/Flick.antt =====
-- One frame of a buffered stick is a read of x and then of y.
use xenomods.Base.{
  zero, List, [], ◌∷◌, ◌∙◌, ap, ◌∙◌, ap, ◌∷◌, List, suc, ℕ, max, Bool, true, ◌&&◌, ◌||◌, ◌≡◌, refl,
}
use xenomods.Float32.{le, abs}
use xenomods.InputBuffer.State.{StickState, InputState}
use xenomods.InputBuffer.Sticks.{
  stick_threshold, is_deflected, buffer_stick_x, buffer_stick_y, buffer_stick_x_on,
  buffer_stick_y_on,
}

-- The state and the two values that the game reads in one frame, x first.
pub record Frame : Type 0 where
  pub stick : StickState
  pub seen_x : ℕ
  pub seen_y : ℕ

pub read_stick : InputState → StickState → (x y : ℕ) → Frame
read_stick s state x y =
    let (state1, vx) = buffer_stick_x s state x true in
    let (state2, vy) = buffer_stick_y s state1 y true in
    record { stick = state2; seen_x = vx; seen_y = vy }

-- A position inside the threshold in both coordinates.
abbrev pub is_neutral : ℕ → ℕ → Bool
is_neutral x y = le (abs x) stick_threshold && le (abs y) stick_threshold

-- A deflected stick is read as it is, and arms the buffer with its position.
pub read_stick-deflected :
    (s : InputState) (state : StickState) (x y : ℕ)
    → s.enabled ≡ true
    → (is_deflected x || is_deflected y) ≡ true
    → ((read_stick s state x y).stick ≡ record {
      x = x;
      y = y;
      pending_x = x;
      pending_y = y;
      frames = max 1 s.stick_buffer_frames;
    })
      × ((read_stick s state x y).seen_y ≡ y)
unfolding read_stick buffer_stick_x buffer_stick_y buffer_stick_x_on buffer_stick_y_on
read_stick-deflected s state x y e d = rw (e, d) (refl, refl)

-- A stick position, as the controller gives it or as the game reads it.
pub record Position : Type 0 where
  pub px : ℕ
  pub py : ℕ

-- What the game reads over a sequence of frames.
pub reads : InputState → StickState → List Position → List Position
reads s state [] = []
reads s state (p ∷ ps) =
    let frame = read_stick s state p.px p.py in
    record { px = frame.seen_x; py = frame.seen_y } ∷ reads s frame.stick ps

-- The specification: the next `n` positions are replaced by the held one.
pub hold : ℕ → Position → List Position → List Position
hold zero held ps = ps
hold (suc n) held [] = []
hold (suc n) held (p ∷ ps) = held ∷ hold n held ps

abbrev pub AllNeutral : List Position → Type 0
AllNeutral [] = Unit {0}
AllNeutral (p ∷ ps) = (is_neutral p.px p.py ≡ true) × AllNeutral ps
