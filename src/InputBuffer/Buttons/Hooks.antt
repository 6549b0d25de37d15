-- ===== src/InputBuffer/Buttons/Hooks.antt =====
-- The three button hooks for the other pads, and getUp outside playback.
use xenomods.Base.{
  ℕ, ◌^◌, ◌<◌, bit_or, Bool, true, false, not, ◌&&◌, ◌||◌, ◌≡◌, ◌≢◌, refl, arith, if◌then◌else◌,
}
use xenomods.Word.{test_bit}
use xenomods.Word.Bits.{test_bit-bit_or, test_bit-bit_and, test_bit-bit_not, test_bit-zero}
use xenomods.InputBuffer.State.{InputState}
use xenomods.InputBuffer.Buttons.{get_btn_hook, get_down_hook, get_up_hook}

-- The other pads are passed through: the hooks report what the controller does and keep the state.
pub other_pad :
    (original pad : ℕ) (s : InputState)
    → pad ≢ 0
    → s.enabled ≡ true
    → (get_btn_hook original pad s ≡ (s, original))
      × (get_up_hook original pad s ≡ original)
      × ((get_down_hook original pad s) ≡ (s, original))
unfolding get_btn_hook get_down_hook get_up_hook
other_pad original pad s p e = ground arith

-- Outside playback getUp reports a button's release exactly when the controller does and no
-- scripted action or raw override still holds the button.
pub get_up_hook-button :
    (original i : ℕ) (s : InputState)
    → s.playback_override_active ≡ false
    → s.strict_relay_mask ≡ 0
    → i < 32
    → bit_or s.scripted_buffered_mask
        (if s.raw_button_override_active then s.raw_button_held else 0)
      < 2 ^ 32
    → test_bit i (get_up_hook original 0 s) ≡ (
        test_bit i original
        && not (
            test_bit i s.scripted_buffered_mask
            || (s.raw_button_override_active && test_bit i s.raw_button_held)))
unfolding get_up_hook
get_up_hook-button original i s p q h k =
    rw (p, q)
      (rw (test_bit-bit_and, test_bit-bit_not i _ h k, test_bit-bit_or)
        (split s.raw_button_override_active))
  where
    split :
        (raw : Bool)
        → (test_bit i original
            && not (
                test_bit i s.scripted_buffered_mask
                || test_bit i (if raw then s.raw_button_held else 0)))
          ≡ (test_bit i original
              && not (test_bit i s.scripted_buffered_mask || (raw && test_bit i s.raw_button_held)))
    split true = refl
    split false = rw (test_bit-zero i)
