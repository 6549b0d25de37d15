-- ===== src/InputBuffer/Sticks/Override.antt =====
-- Scripted stick positions: their range, and their priority over the controller.
use xenomods.Base.{ℕ, Bool, true, false, ◌≡◌, refl, arith}
use xenomods.Float32.{le, is_nan, clamp_unit, one_f, minus_one_f}
use xenomods.InputBuffer.State.{InputState}
use xenomods.InputBuffer.Sticks.{
  get_alx_hook, get_aly_hook, get_arx_hook, get_ary_hook, set_left_stick_override,
  set_action_stick_override,
}

-- A value that is a number is clamped into the range from -1 to 1.
clamp_unit_bounds :
    (x : ℕ)
    → is_nan x ≡ false
    → (le minus_one_f (clamp_unit x) ≡ true) × (le (clamp_unit x) one_f ≡ true)
clamp_unit_bounds x h = ground arith

-- The four stick values that the game reads of pad 0 when the controller is at these values.
pub record Sticks : Type 0 where
  pub lx : ℕ
  pub ly : ℕ
  pub rx : ℕ
  pub ry : ℕ

pub stick_report : (lx ly rx ry : ℕ) → InputState → Sticks
stick_report lx ly rx ry s =
    let (s1, a) = get_alx_hook lx 0 s in
    let (s2, b) = get_aly_hook ly 0 s1 in
    let (s3, c) = get_arx_hook rx 0 s2 in
    let (s4, d) = get_ary_hook ry 0 s3 in record { lx = a; ly = b; rx = c; ry = d }

-- Outside playback a scripted action's left stick position, clamped to the unit range, is what
-- the game reads of the left stick, whatever the controller and a route override say.
pub stick_report-action :
    (lx ly rx ry x y rx' ry' : ℕ) (active : Bool) (s : InputState)
    → s.playback_override_active ≡ false
    → let t = set_action_stick_override true false x y (set_left_stick_override active rx' ry' s) in
      ((stick_report lx ly rx ry t).lx ≡ clamp_unit x)
      × ((stick_report lx ly rx ry t).ly ≡ clamp_unit y)
unfolding stick_report get_alx_hook get_aly_hook set_action_stick_override set_left_stick_override
stick_report-action lx ly rx ry x y rx' ry' active s p = rw p (refl, refl)

-- During playback each hook returns 0 and keeps the state.
module _ (original : ℕ) (s : InputState) (p : s.playback_override_active ≡ true) where
  alx-playback : get_alx_hook original 0 s ≡ (s, 0)
  unfolding get_alx_hook
  alx-playback = rw p

  aly-playback : get_aly_hook original 0 s ≡ (s, 0)
  unfolding get_aly_hook
  aly-playback = rw p

  arx-playback : get_arx_hook original 0 s ≡ (s, 0)
  unfolding get_arx_hook
  arx-playback = rw p

  ary-playback : get_ary_hook original 0 s ≡ (s, 0)
  unfolding get_ary_hook
  ary-playback = rw p

-- During playback every stick of pad 0 is read as centred, whatever the controller and the
-- overrides say.
pub stick_report-playback :
    (lx ly rx ry : ℕ) (s : InputState)
    → s.playback_override_active ≡ true
    → stick_report lx ly rx ry s ≡ record { lx = 0; ly = 0; rx = 0; ry = 0 }
unfolding stick_report
stick_report-playback lx ly rx ry s p =
    rw (alx-playback lx s p, aly-playback ly s p, arx-playback rx s p, ary-playback ry s p)

-- A route override steers the left stick within the unit range, leaves the right stick to the
-- controller's own buffer, and has no effect once it is switched off.
pub stick_report-route :
    (lx ly rx ry x y : ℕ) (s : InputState)
    → s.playback_override_active ≡ false
    → s.action_left_stick_override_active ≡ false
    → is_nan x ≡ false
    → is_nan y ≡ false
    → let seen = stick_report lx ly rx ry (set_left_stick_override true x y s) in
      (le minus_one_f seen.lx ≡ true)
      × (le seen.lx one_f ≡ true)
      × (le minus_one_f seen.ly ≡ true)
      × (le seen.ly one_f ≡ true)
unfolding stick_report get_alx_hook get_aly_hook set_left_stick_override
stick_report-route lx ly rx ry x y s p q nx ny =
    let (xl, xu) = clamp_unit_bounds x nx in
    let (yl, yu) = clamp_unit_bounds y ny in rw (p, q) (xl, xu, yl, yu)
